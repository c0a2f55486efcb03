-- ===== src/Webrtc/Reassembly.antt =====
-- The receiver's units against the sender's, where the packets arrive in order and none is lost.
use l4s_poc.Base.{
  ℕ, suc, ◌+◌, ◌<◌, ◌^◌, ◌≡◌, refl, sym, ap, ◌∙◌, List, [], ◌∷◌, ◌++◌, append-nil, append_assoc,
  map, Bool, true, false, ◌||◌, Option, none, arith, All, length, if◌then◌else◌, length-append,
  length-map, ◌-◌, ◌==◌,
}
use mathlib.Core.Path.{subst}
use l4s_poc.Base.Words.{u16}
use l4s_poc.Io.{IoError}
use l4s_poc.Nal.{NalUnit, start_code}
use l4s_poc.AnnexB.RoundTrip.{append_write}
use l4s_poc.Rtp.{Packet, Packetizer, packetize, next_timestamp}
use l4s_poc.Rtp.Packets.{last_only, packetize-Carries}
use l4s_poc.Webrtc.Sending.{send_units}
use l4s_poc.Webrtc.{Sender, write_packets, send_unit, flush_buffer, on_packets, on_track}
use l4s_poc.Webrtc.Units.{
  between, rewritten, rewritten_bytes, Gathers, on_packets-unit, write_buffer-between,
  on_packets-append,
}

-- A track that takes every packet.
abbrev pub log_rtp : List Packet → Packet → Option IoError × List Packet
log_rtp w k = (none, w ++ (k ∷ []))

-- What the two codecs of pion do for each other on packets of `size` bytes. From a state between two
-- units the depacketizer takes the payloads that the payloader makes of a unit, which are one at
-- least, gives `prefix` and the unit's bytes, and is between two units again; for those units that
-- the payloader carries.
pub record Codec {P D : Type 0} (payload : ℕ → List ℕ → P → List (List ℕ) × P)
    (unmarshal : List ℕ → D → Option (List ℕ) × D) (size : ℕ) (prefix : List ℕ) : Type 1 where
  pub IsCarried : List ℕ → Type 0
  pub IsIdle : D → Type 0
  pub carries :
      (bytes : List ℕ) (p : P) (d : D)
      → IsCarried bytes
      → IsIdle d
      → (d' : D) × IsIdle d' × Gathers unmarshal (payload size bytes p).0 d (prefix ++ bytes) d'
  pub some_payload :
      (bytes : List ℕ) (p : P) → IsCarried bytes → 0 < length (payload size bytes p).0
  pub some_byte : (bytes : List ℕ) → IsCarried bytes → 0 < length bytes

module _ {P D : Type 0} (payload : ℕ → List ℕ → P → List (List ℕ) × P)
    (unmarshal : List ℕ → D → Option (List ℕ) × D) (frame_duration_ms : ℕ) where
  write_packets-log :
      (ks w : List Packet) → write_packets payload log_rtp frame_duration_ms ks w ≡ w ++ ks
  unfolding write_packets
  write_packets-log [] w = sym (append-nil w)
  write_packets-log (k ∷ ks) w = write_packets-log ks (w ++ (k ∷ [])) ∙ append_assoc w (k ∷ []) ks

  kept :
      (advances : Bool) (p : Packetizer P)
      → let q = if advances then next_timestamp frame_duration_ms p else p in
        (q.seq_num ≡ p.seq_num) × (q.mtu ≡ p.mtu)
  unfolding next_timestamp
  kept true p = (refl, refl)
  kept false p = (refl, refl)

  -- The packetizer of the sending loop, for packets of `size` bytes.
  abbrev pub IsFor : ℕ → Packetizer P → Type 0
  IsFor size p = (p.seq_num < 2 ^ 16) × (u16 (p.mtu + 2 ^ 16 - 12) ≡ size)

  send_unit-track :
      (n : NalUnit) (s : Sender P (List Packet))
      → (send_unit payload log_rtp frame_duration_ms n s).track
        ≡ s.track ++ (packetize payload n s.packetizer).0.0
  unfolding send_unit
  send_unit-track n s = write_packets-log (packetize payload n s.packetizer).0.0 s.track

  send_unit-IsFor :
      (size : ℕ) (n : NalUnit) (s : Sender P (List Packet))
      → IsFor size s.packetizer
      → IsFor size (send_unit payload log_rtp frame_duration_ms n s).packetizer
  unfolding send_unit
  send_unit-IsFor size n s (low, is_size) =
      let ((ks, key), p) = packetize payload n s.packetizer in
      let (c, _) = packetize-Carries payload n s.packetizer low in
      let (seq_same, mtu_same) = kept (key || n.unit_type == 1 || n.unit_type == 5) p in
      let wrapped = ap (λ (q : Packetizer P). q.seq_num) c.left in
      let left_mtu = ap (λ (q : Packetizer P). q.mtu) c.left in
      (
        omega (arith, seq_same, wrapped),
        ap (λ m. u16 (m + 2 ^ 16 - 12)) (mtu_same ∙ left_mtu) ∙ is_size,
      )

  module _ (size : ℕ) (prefix : List ℕ) (codec : Codec payload unmarshal size prefix) where
    -- The packets of one unit, from the packetizer into the handler.
    one_unit :
        (n : NalUnit) (p : Packetizer P) (d : D) (w : List ℕ) (a b : ℕ)
        → IsFor size p
        → codec.IsCarried n.payload
        → codec.IsIdle d
        → (d' : D) × codec.IsIdle d'
          × (on_packets unmarshal append_write (packetize payload n p).0.0 (between d w a b)
              ≡ between d'
                  (w ++ (start_code ++ (prefix ++ n.payload)))
                  (a + 1)
                  (b + length (prefix ++ n.payload)))
    one_unit n p d w a b (low, is_size) carried idle =
        let ks = (packetize payload n p).0.0 in
        let xs = (payload (u16 (p.mtu + 2 ^ 16 - 12)) n.payload p.payloader).0 in
        let (c, _) = packetize-Carries payload n p low in
        let (d', idle', g) = codec.carries n.payload p.payloader d carried idle in
        let same : (payload size n.payload p.payloader).0 ≡ map (λ (k : Packet). k.payload) ks =
          ap (λ m. (payload m n.payload p.payloader).0) (sym is_size) ∙ sym c.payloads_same in
        let count : length ks ≡ length xs =
          sym (length-map ks (λ (k : Packet). k.payload)) ∙ ap length c.payloads_same in
        let some_packet : 0 < length ks = omega (
          arith,
          codec.some_payload n.payload p.payloader carried,
          count,
          ap (λ m. length (payload m n.payload p.payloader).0) is_size,
        ) in
        let some_byte : 0 < length (prefix ++ n.payload) =
          omega (arith, codec.some_byte n.payload carried, length-append prefix n.payload) in
        (
          d',
          idle',
          on_packets-unit unmarshal ks (between d w a b) (prefix ++ n.payload) d'
                (subst (λ l. Gathers unmarshal l d (prefix ++ n.payload) d') same g)
                (c.markers ∙ ap last_only (sym count)) some_packet some_byte
              ∙ write_buffer-between unmarshal d' w a b (prefix ++ n.payload),
        )

    many_units :
        (ns : List NalUnit) (s : Sender P (List Packet)) (d : D) (w : List ℕ) (a b : ℕ)
        → IsFor size s.packetizer
        → All (λ (n : NalUnit). codec.IsCarried n.payload) ns
        → codec.IsIdle d
        → (sent : List Packet) × (d' : D) × codec.IsIdle d'
          × ((send_units payload log_rtp frame_duration_ms ns s).track ≡ s.track ++ sent)
          × (on_packets unmarshal append_write sent (between d w a b)
              ≡ between d'
                  (w ++ rewritten prefix ns)
                  (a + length ns)
                  (b + rewritten_bytes prefix ns))
    unfolding on_packets
    many_units [] s d w a b is_for carried idle = (
      [],
      d,
      idle,
      sym (append-nil s.track),
      λ i. between d (sym (append-nil w) i) (zero_more a i) (zero_more b i),
    )
      where
        zero_more : (x : ℕ) → x ≡ x + 0
        zero_more x = omega arith
    many_units (n ∷ ns) s d w a b is_for carried idle =
        let s' = send_unit payload log_rtp frame_duration_ms n s in
        let ks = (packetize payload n s.packetizer).0.0 in
        let (e, idle_e, one) = one_unit n s.packetizer d w a b is_for carried.0 idle in
        let w' = w ++ (start_code ++ (prefix ++ n.payload)) in
        let (sent, d', idle', track, rest) =
          many_units ns s' e w' (a + 1) (b + length (prefix ++ n.payload))
            (send_unit-IsFor size n s is_for) carried.1 idle_e in
        (
          ks ++ sent,
          d',
          idle',
          track ∙ ap (λ t. t ++ sent) (send_unit-track n s) ∙ append_assoc s.track ks sent,
          on_packets-append unmarshal ks sent (between d w a b)
              ∙ ap (on_packets unmarshal append_write sent) one
              ∙ rest
              ∙ (λ i.
                  between d'
                    (append_assoc w (start_code ++ (prefix ++ n.payload)) (rewritten prefix ns) i)
                    (one_more a (length ns) i)
                    (assoc b (length (prefix ++ n.payload)) (rewritten_bytes prefix ns) i)),
        )
      where
        assoc : (x y z : ℕ) → x + y + z ≡ x + (y + z)
        assoc x y z = omega arith

        one_more : (x z : ℕ) → x + 1 + z ≡ x + suc z
        one_more x z = omega arith

    -- Over a track that delivers every packet, in order, with codecs that keep the law, if the payloader
    -- carries every unit that the sending loop has taken, the sender's packetizer has a number below
    -- 2 ^ 16 and makes payloads of `size` bytes, and the depacketizer is idle at the start: the handler
    -- writes each of the units once, in order and whole, behind a start code and behind what the
    -- depacketizer puts before it; it counts them, and has nothing left over when the track ends.
    pub on_track-send_units :
        (ns : List NalUnit) (s : Sender P (List Packet)) (d : D)
        → IsFor size s.packetizer
        → All (λ (n : NalUnit). codec.IsCarried n.payload) ns
        → codec.IsIdle d
        → (sent : List Packet) × (d' : D) × ((send_units payload log_rtp frame_duration_ms ns
              s).track
            ≡ s.track ++ sent)
          × (on_track unmarshal append_write sent (between d [] 0 0)
              ≡ between d' (rewritten prefix ns) (length ns) (rewritten_bytes prefix ns))
    unfolding on_track flush_buffer
    on_track-send_units ns s d is_for carried idle =
        let (sent, d', _, track, run) = many_units ns s d [] 0 0 is_for carried idle in
        (
          sent,
          d',
          track,
          ap (flush_buffer unmarshal append_write) run ∙ (λ i.
              between d' (rewritten prefix ns) (zero_less (length ns) i)
                (zero_less (rewritten_bytes prefix ns) i)),
        )
      where
        zero_less : (x : ℕ) → 0 + x ≡ x
        zero_less x = omega arith
