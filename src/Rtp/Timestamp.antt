-- ===== src/Rtp/Timestamp.antt =====
-- The time stamps of a packetizer over several frames, and its numbers over several NAL units.
use l4s_poc.Base.{
  ℕ, zero, suc, ◌+◌, ◌-◌, ◌*◌, ◌^◌, ◌<◌, ◌≡◌, refl, sym, ap, ap₂, ◌∙◌, List, [], ◌∷◌, ◌++◌, map,
  map-append, arith, length, length-append, length-map,
}
use l4s_poc.Base.Words.{u16, u32}
use l4s_poc.Nal.{NalUnit}
use l4s_poc.Rtp.{Packet, Packetizer, next_timestamp, packetize}
use l4s_poc.Rtp.Packets.{consecutive, packetize-Carries, consecutive-u16}

abbrev pub sum : List ℕ → ℕ
sum [] = 0
sum (x ∷ xs) = x + sum xs

module _ {P : Type 0} where
  -- The frames last so many milliseconds.
  abbrev pub advance : List ℕ → Packetizer P → Packetizer P
  advance [] p = p
  advance (ms ∷ rest) p = advance rest (next_timestamp ms p)

  next_timestamp-lem :
      (ms t : ℕ) (p : Packetizer P)
      → next_timestamp ms (record p { timestamp = u32 t })
        ≡ record p { timestamp = u32 (t + 90 * ms) }
  unfolding next_timestamp
  next_timestamp-lem ms t p = ap (λ (s : ℕ). record p { timestamp = s }) (omega arith)

  advance_from :
      (ds : List ℕ) (t : ℕ) (p : Packetizer P)
      → advance ds (record p { timestamp = u32 t }) ≡ record p { timestamp = u32 (t + 90 * sum ds) }
  advance_from [] t p = ap (λ (s : ℕ). record p { timestamp = s }) (omega arith)
  advance_from (ms ∷ ds) t p =
      ap (advance ds) (next_timestamp-lem ms t p)
      ∙ advance_from ds (t + 90 * ms) p
      ∙ ap (λ (s : ℕ). record p { timestamp = s }) (omega arith)

  -- Advancing by any frame durations in turn advances the time stamp by 90 for each millisecond of
  -- their sum, wrapped once at 2 ^ 32, and changes nothing else; though each product and each sum
  -- wraps on its own in the code.
  pub advance-sum :
      (ds : List ℕ) (p : Packetizer P)
      → p.timestamp < 2 ^ 32
      → advance ds p ≡ record p { timestamp = u32 (p.timestamp + 90 * sum ds) }
  advance-sum ds p h =
      ap (λ (s : ℕ). advance ds (record p { timestamp = s })) (omega arith)
      ∙ advance_from ds p.timestamp p

  module _ (payload : ℕ → List ℕ → P → List (List ℕ) × P) where
    -- The packets of several units in turn.
    pub packetize_all : List NalUnit → Packetizer P → List Packet × Packetizer P
    packetize_all [] p = ([], p)
    packetize_all (n ∷ ns) p =
        let ((ks, key), p') = packetize payload n p in
        let (rest, q) = packetize_all ns p' in (ks ++ rest, q)

consecutive-append : (s n m : ℕ) → consecutive s n ++ consecutive (s + n) m ≡ consecutive s (n + m)
consecutive-append s zero m =
    let here : s + 0 ≡ s = omega arith in
    let all : m ≡ 0 + m = omega arith in ap (λ k. consecutive k m) here ∙ ap (consecutive s) all
consecutive-append s (suc n) m =
    let shift : s + suc n ≡ s + 1 + n = omega arith in
    let count : suc (n + m) ≡ suc n + m = omega arith in
    ap (λ k. u16 s ∷ (consecutive (s + 1) n ++ consecutive k m)) shift
    ∙ ap (◌∷◌ (u16 s)) (consecutive-append (s + 1) n m)
    ∙ ap (consecutive s) count

module _ {P : Type 0} (payload : ℕ → List ℕ → P → List (List ℕ) × P) where
  -- Over any units in turn the packets are numbered one after the other, wrapped at 2 ^ 16, with no
  -- number left out or given twice where one unit ends and the next begins.
  pub packetize_all-numbers :
      (ns : List NalUnit) (p : Packetizer P)
      → p.seq_num < 2 ^ 16
      → let (ks, q) = packetize_all payload ns p in
        (map (λ (k : Packet). k.sequence_number) ks ≡ consecutive p.seq_num (length ks))
        × (q.seq_num ≡ u16 (p.seq_num + length ks))
  unfolding packetize_all
  packetize_all-numbers [] p h = (refl, omega arith)
  packetize_all-numbers (n ∷ ns) p h =
      let ((ks, key), p') = packetize payload n p in
      let (payloads, payloader) = payload (u16 (p.mtu + 2 ^ 16 - 12)) n.payload p.payloader in
      let (c, _) = packetize-Carries payload n p h in
      let count : length ks ≡ length payloads =
        sym (length-map ks (λ (k : Packet). k.payload)) ∙ ap length c.payloads_same in
      let next : p'.seq_num ≡ u16 (p.seq_num + length ks) =
        ap (λ (x : Packetizer P). x.seq_num) c.left ∙ ap (λ k. u16 (p.seq_num + k)) (sym count) in
      let rest = (packetize_all payload ns p').0 in
      let (numbers, last) = packetize_all-numbers ns p' (rw next (omega arith)) in
      let number = λ (k : Packet). k.sequence_number in
      let joined =
        map-append number ks rest
        ∙ ap₂ ◌++◌ (c.numbers ∙ ap (consecutive p.seq_num) (sym count)) (
            numbers
            ∙ ap (λ k. consecutive k (length rest)) next
            ∙ consecutive-u16 (p.seq_num + length ks) (length rest))
        ∙ consecutive-append p.seq_num (length ks) (length rest)
        ∙ ap (consecutive p.seq_num) (sym (length-append ks rest)) in
      (joined, last ∙ omega (arith, next, length-append ks rest))
