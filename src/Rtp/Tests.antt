-- ===== src/Rtp/Tests.antt =====
-- Runs of the packetizer, with a payloader that cuts the data into pieces of two bytes.
use l4s_poc.Base.{ℕ, suc, ◌+◌, ◌≡◌, refl, List, [], ◌∷◌, map, Bool, true, false, arith, length}
use l4s_poc.Base.Words.{u16}
use l4s_poc.Nal.{NalUnit, is_keyframe}
use l4s_poc.Rtp.{Packet, Packetizer, packetize, packets_from}
use l4s_poc.Rtp.Packets.{Carries, consecutive, packetize-Carries}
use l4s_poc.Rtp.Timestamp.{packetize_all, packetize_all-numbers}

abbrev pairs : List ℕ → List (List ℕ)
pairs (a ∷ b ∷ c ∷ rest) = (a ∷ b ∷ []) ∷ pairs (c ∷ rest)
pairs [] = []
pairs rest = rest ∷ []

-- Its state counts its calls.
abbrev cut : ℕ → List ℕ → ℕ → List (List ℕ) × ℕ
cut mtu bytes calls = (pairs bytes, suc calls)

abbrev packetizer : Packetizer ℕ
packetizer = record {
  payloader = 0;
  mtu = 1200;
  ssrc = 77;
  seq_num = 65535;
  timestamp = 4294967200;
  clock_rate = 90000;
}

abbrev idr : NalUnit
idr = record { unit_type = 5; payload = 101 ∷ 8 ∷ 9 ∷ [] }

numbers_wrap :
    map {B = ℕ × Bool}
      (λ (k : Packet). (k.sequence_number, k.marker))
      (packetize cut idr packetizer).0.0
    ≡ (65535, false) ∷ (0, true) ∷ []
unfolding packetize packets_from
numbers_wrap = refl

packetize-Carries_example :
    Carries
      (pairs idr.payload)
      (record packetizer { payloader = 1 })
      (packetize cut idr packetizer).0.0
      (packetize cut idr packetizer).1
    × ((packetize cut idr packetizer).0.1 ≡ is_keyframe idr)
packetize-Carries_example = packetize-Carries cut idr packetizer (omega arith)

packetize_all-numbers_example :
    let (ks, q) = packetize_all cut (idr ∷ idr ∷ []) packetizer in
    (map (λ (k : Packet). k.sequence_number) ks ≡ consecutive 65535 (length ks))
    × (q.seq_num ≡ u16 (65535 + length ks))
packetize_all-numbers_example = packetize_all-numbers cut (idr ∷ idr ∷ []) packetizer (omega arith)
