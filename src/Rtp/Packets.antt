-- ===== src/Rtp/Packets.antt =====
-- The packets that a NAL unit becomes: their payloads, numbers and marker bits.
use l4s_poc.Base.{
  ℕ, zero, suc, ◌+◌, ◌-◌, ◌^◌, ◌<◌, ◌≡◌, refl, sym, ap, ap₂, ◌∙◌, List, [], ◌∷◌, map, Bool, true,
  false, All, arith, ◌==◌, length,
}
use l4s_poc.Base.Words.{u16}
use l4s_poc.Nal.{NalUnit, is_keyframe}
use l4s_poc.Rtp.{Packet, Packetizer, packets_from, packetize, packetize_raw}

-- `n` numbers from `s` on, which wrap at 2 ^ 16.
abbrev pub consecutive : ℕ → ℕ → List ℕ
consecutive s zero = []
consecutive s (suc n) = u16 s ∷ consecutive (s + 1) n

-- The marker bits of `n` packets: the last alone is set.
abbrev pub last_only : ℕ → List Bool
last_only zero = []
last_only (suc zero) = true ∷ []
last_only (suc (suc n)) = false ∷ last_only (suc n)

-- What every packet has in its header.
pub record IsFrom (timestamp ssrc : ℕ) (k : Packet) : Type 0 where
  pub version_is : k.version ≡ 2
  pub payload_type_is : k.payload_type ≡ 96
  pub timestamp_is : k.timestamp ≡ timestamp
  pub ssrc_is : k.ssrc ≡ ssrc
  pub plain : (k.padding ≡ false) × (k.extension ≡ false)

-- The packets `ks` carry the payloads in order, consecutive numbers, and one marker bit, on the
-- last; the packetizer `q` that is left differs from `p` in the next number only.
pub record Carries {P : Type 0} (payloads : List (List ℕ)) (p : Packetizer P) (ks : List Packet)
    (q : Packetizer P) : Type 0 where
  pub payloads_same : map (λ (k : Packet). k.payload) ks ≡ payloads
  pub numbers : map (λ (k : Packet). k.sequence_number) ks ≡ consecutive p.seq_num (length payloads)
  pub markers : map (λ (k : Packet). k.marker) ks ≡ last_only (length payloads)
  pub headers : All (IsFrom p.timestamp p.ssrc) ks
  pub left : q ≡ record p { seq_num = u16 (p.seq_num + length payloads) }

pub consecutive-u16 : (s n : ℕ) → consecutive (u16 s) n ≡ consecutive s n
consecutive-u16 s zero = refl
consecutive-u16 s (suc n) = ap₂ ◌∷◌ (omega arith) (
    sym (consecutive-u16 (u16 s + 1) n)
    ∙ ap (λ k. consecutive k n) (omega arith)
    ∙ consecutive-u16 (s + 1) n)

last_only-suc : (n : ℕ) → last_only (suc n) ≡ (n == 0) ∷ last_only n
last_only-suc zero = refl
last_only-suc (suc n) = ground arith

is_last : (i n k : ℕ) → i + suc k ≡ n → (i == (n - 1)) ≡ (k == 0)
is_last i n k h = ground arith

module _ {P : Type 0} where
  packets_from-Carries :
      (payloads : List (List ℕ)) (i n : ℕ) (p : Packetizer P)
      → i + length payloads ≡ n
      → p.seq_num < 2 ^ 16
      → let (ks, q) = packets_from i n payloads p in Carries payloads p ks q
  unfolding packets_from
  packets_from-Carries [] i n p e h = record {
    payloads_same = refl;
    numbers = refl;
    markers = refl;
    headers = tt;
    left = ap (λ (s : ℕ). record p { seq_num = s }) (omega arith);
  }
  packets_from-Carries (x ∷ xs) i n p e h =
      let next = record p { seq_num = u16 (p.seq_num + 1) } in
      let rest = packets_from-Carries xs (i + 1) n next (omega arith) (omega arith) in
      record {
        payloads_same = ap (◌∷◌ x) rest.payloads_same;
        numbers =
            ap₂ ◌∷◌ (omega arith) (rest.numbers ∙ consecutive-u16 (p.seq_num + 1) (length xs));
        markers =
            ap₂ ◌∷◌ (is_last i n (length xs) e) rest.markers ∙ sym (last_only-suc (length xs));
        headers = (
          record {
            version_is = refl;
            payload_type_is = refl;
            timestamp_is = refl;
            ssrc_is = refl;
            plain = (refl, refl);
          },
          rest.headers,
        );
        left = rest.left ∙ ap (λ (s : ℕ). record p { seq_num = s }) (omega arith);
      }

  module _ (payload : ℕ → List ℕ → P → List (List ℕ) × P) where
    -- Packetize sends the payloads that the payloader makes of the unit for `mtu - 12` bytes: in
    -- order, with numbers that go on from the last call and wrap at 2 ^ 16, the time stamp and the
    -- SSRC of the packetizer, and the marker bit on the last packet only. It says whether the unit is
    -- an SPS, a PPS or an IDR slice, and changes the next number and the payloader alone.
    pub packetize-Carries :
        (n : NalUnit) (p : Packetizer P)
        → p.seq_num < 2 ^ 16
        → let ((ks, key), q) = packetize payload n p in
          let (payloads, payloader) = payload (u16 (p.mtu + 2 ^ 16 - 12)) n.payload p.payloader in
          Carries payloads (record p { payloader = payloader }) ks q × (key ≡ is_keyframe n)
    unfolding packetize
    packetize-Carries n p h =
        let (payloads, payloader) = payload (u16 (p.mtu + 2 ^ 16 - 12)) n.payload p.payloader in
        (
          packets_from-Carries payloads 0 (length payloads) (record p { payloader = payloader })
              (omega arith) h,
          refl,
        )

    -- PacketizeRaw sends the same packets, and leaves the same state.
    pub packetize_raw-packetize :
        (n : NalUnit) (p : Packetizer P)
        → packetize_raw payload n.payload p
          ≡ ((packetize payload n p).0.0, (packetize payload n p).1)
    unfolding packetize packetize_raw
    packetize_raw-packetize n p = refl
