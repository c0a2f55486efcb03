-- ===== src/AnnexB/Split.antt =====
-- What AnnexBReader reads from an input, described without the reader: the input is cut where
-- 00 00 01 stands first, and again behind it.
use mathlib.Core.Option
use l4s_poc.Base.{
  ℕ, zero, suc, ◌+◌, ◌-◌, ◌<◌, ◌≡◌, refl, sym, ap, ap₂, ◌∙◌, List, [], ◌∷◌, ◌++◌, append-nil,
  append_assoc, true, false, ◌||◌, ◌⊎◌, inl, inr, some, arith, length, take, if◌then◌else◌,
  length-append, take-append, Bool-cases,
}
use mathlib.Core.Bool.{false≢true}
use l4s_poc.Io.{feed, eof}
use l4s_poc.Nal.{NalUnit, nal_of, start_code, start_code3}
use l4s_poc.AnnexB.{Reader, emit, keep, at_end, found, scan_byte, scan, strip, read_nal, new_reader}
use l4s_poc.AnnexB.StartCode.{
  contains3, contains3-nil, at_end_split, at_end-append, contains3-concat, at_end4-at_end3,
}
use l4s_poc.AnnexB.Steps.{flush-nil, flush-cons, scan-nil, scan-emit, scan-keep, read_nal_open}
use l4s_poc.AnnexB.Sound.{strip-start_code, strip-start_code3}
use l4s_poc.AnnexB.Drain.{drain, prepend, drain-got, drain-stop}
use l4s_poc.AnnexB.RoundTrip.{found-append, read_nal_ended, read_nal_start}

-- The bytes are these pieces with 00 00 01 between each and the next, and the cuts are the first
-- that there are.
abbrev pub Pieces : List ℕ → List (List ℕ) → Type 0
Pieces bytes [] = ⊥
Pieces bytes (d ∷ []) = (bytes ≡ d) × (contains3 d ≡ false)
Pieces bytes (d ∷ e ∷ ds) =
    (rest : List ℕ) × (bytes ≡ d ++ (0 ∷ 0 ∷ 1 ∷ rest))
    × (contains3 (d ++ (0 ∷ 0 ∷ [])) ≡ false)
    × Pieces rest (e ∷ ds)

-- A zero before 00 00 01 belongs to the start code.
abbrev pub trim : List ℕ → List ℕ
trim d = if at_end (0 ∷ []) d then take (length d - 1) d else d

abbrev pub nonempty : List ℕ → List NalUnit → List NalUnit
nonempty [] ns = ns
nonempty (x ∷ d) ns = nal_of (x ∷ d) ∷ ns

-- The units of the pieces: the last is not trimmed, and empty ones are none.
abbrev pub units_of : List (List ℕ) → List NalUnit
units_of [] = []
units_of (d ∷ []) = nonempty d []
units_of (d ∷ e ∷ ds) = nonempty (trim d) (units_of (e ∷ ds))

trim-concat : (pre : List ℕ) → trim (pre ++ (0 ∷ [])) ≡ pre
trim-concat pre =
    let n : length (pre ++ (0 ∷ [])) - 1 ≡ length pre = omega (arith, length-append pre (0 ∷ [])) in
    rw (at_end-append (0 ∷ []) pre, n) (take-append pre (0 ∷ []))

-- A piece before a code of three bytes that is not one of four is not trimmed.
trim-same : (d : List ℕ) → at_end start_code (d ++ start_code3) ≡ false → trim d ≡ d
trim-same d h = elim (Bool-cases (at_end (0 ∷ []) d)) [
  | inl is ↦
      (let pre = take (length d - 1) d in
        let whole : d ++ start_code3 ≡ pre ++ start_code =
          ap (λ l. l ++ start_code3) (at_end_split (0 ∷ []) d is).0
          ∙ append_assoc pre (0 ∷ []) start_code3 in
        absurd (false≢true (sym h ∙ ap (at_end start_code) whole ∙ at_end-append start_code pre)))
  | inr isnt ↦ rw isnt refl
]

found-empty : (code : List ℕ) → found code code ≡ keep []
unfolding found
found-empty code = ground arith

-- What a byte does that completes a start code behind the piece `d`.
abbrev Completes : List ℕ → ℕ → List ℕ → Type 0
Completes buf b d =
    ((code : List ℕ) × (scan_byte buf b ≡ emit (trim d) code)
      × (strip code ≡ [])
      × (0 < length (trim d)))
    ⊎ ((scan_byte buf b ≡ keep []) × (trim d ≡ []))

found_cases :
    (code u : List ℕ)
    → ((found code (u ++ code) ≡ emit u code) × (0 < length u))
      ⊎ ((found code (u ++ code) ≡ keep []) × (u ≡ []))
found_cases code [] = inr (found-empty code, refl)
found_cases code (x ∷ u) = inl (found-append code x u, omega arith)

Completes-with :
    (buf : List ℕ) (b : ℕ) (d code u : List ℕ)
    → scan_byte buf b ≡ found code (u ++ code)
    → strip code ≡ []
    → trim d ≡ u
    → Completes buf b d
Completes-with buf b d code u step dropped same = elim (found_cases code u) [
  | inl (found_it, some_byte) ↦
      inl (code, step ∙ found_it ∙ ap (λ l. emit l code) (sym same), dropped, rw same some_byte)
  | inr (empty, is_nil) ↦ inr (step ∙ empty, same ∙ is_nil)
]

-- The buffer before the byte that completes 00 00 01.
before_last :
    (buf d : List ℕ) (b : ℕ) → buf ++ (b ∷ []) ≡ d ++ start_code3 → buf ≡ d ++ (0 ∷ 0 ∷ [])
before_last buf d b e =
    let zeros : List ℕ = d ++ (0 ∷ 0 ∷ []) in
    let whole : buf ++ (b ∷ []) ≡ zeros ++ (1 ∷ []) =
      e ∙ sym (append_assoc d (0 ∷ 0 ∷ []) (1 ∷ [])) in
    let n : length buf ≡ length zeros =
      omega (arith, ap length whole, length-append buf (b ∷ []), length-append zeros (1 ∷ [])) in
    sym (take-append buf (b ∷ [])) ∙ ap₂ take n whole ∙ take-append zeros (1 ∷ [])

completed :
    (buf : List ℕ) (b : ℕ)
    → at_end start_code3 (buf ++ (b ∷ [])) ≡ true
    → (d : List ℕ) × (buf ++ (b ∷ []) ≡ d ++ start_code3) × Completes buf b d
unfolding scan_byte
completed buf b h =
    let grown = buf ++ (b ∷ []) in
    elim (Bool-cases (at_end start_code grown)) [
      | inl four ↦
          (let pre = take (length grown - 4) grown in
            let cut = (at_end_split start_code grown four).0 in
            (
              pre ++ (0 ∷ []),
              cut ∙ sym (append_assoc pre (0 ∷ []) start_code3),
              Completes-with buf b (pre ++ (0 ∷ [])) start_code pre
                  (rw four (ap (found start_code) cut)) strip-start_code (trim-concat pre),
            ))
      | inr other ↦
          (let d = take (length grown - 3) grown in
            let cut = (at_end_split start_code3 grown h).0 in
            (
              d,
              cut,
              Completes-with buf b d start_code3 d (rw (other, h) (ap (found start_code3) cut))
                  strip-start_code3 (trim-same d (sym (ap (at_end start_code) cut) ∙ other)),
            ))
    ]

-- From a reader that is about to scan these bytes on this buffer.
abbrev Splits : ℕ → List ℕ → List ℕ → Type 0
Splits f bytes buf =
    (ds : List (List ℕ)) × Pieces (buf ++ bytes) ds
    × ((r : Reader) → read_nal r ≡ scan (feed bytes []) buf → drain f r ≡ some (units_of ds, eof))

Splits-end : (f : ℕ) (buf : List ℕ) → 1 < f → contains3 buf ≡ false → Splits f [] buf
Splits-end zero buf h free = elim h [ ]
Splits-end (suc zero) buf h free = absurd (omega arith)
Splits-end (suc (suc f)) [] h free =
    ([] ∷ [], (refl, free), λ r e. drain-stop (suc f) r _ eof (e ∙ scan-nil [] ∙ flush-nil []))
Splits-end (suc (suc f)) (x ∷ buf) h free =
    let ended : Reader = record { source = []; buf = []; has_eof = true } in
    (
      (x ∷ buf) ∷ [],
      (append-nil (x ∷ buf), free),
      λ r e.
          drain-got (suc f) r ended (nal_of (x ∷ buf))
            (e ∙ scan-nil (x ∷ buf) ∙ flush-cons [] x buf)
          ∙ ap (Option.map (prepend (nal_of (x ∷ buf))))
              (drain-stop f ended ended eof read_nal_ended),
    )

Splits-keep :
    (f : ℕ) (bytes buf : List ℕ) (b : ℕ)
    → scan_byte buf b ≡ keep (buf ++ (b ∷ []))
    → Splits f bytes (buf ++ (b ∷ []))
    → Splits f (b ∷ bytes) buf
Splits-keep f bytes buf b step (ds, pieces, run) = (
  ds,
  rw (sym (append_assoc buf (b ∷ []) bytes)) pieces,
  λ r e. run r (e ∙ scan-keep (feed bytes []) buf b step),
)

-- The piece before the first, where the rest is cut already.
add_piece :
    (whole d rest : List ℕ) (ds : List (List ℕ))
    → whole ≡ d ++ (0 ∷ 0 ∷ 1 ∷ rest)
    → contains3 (d ++ (0 ∷ 0 ∷ [])) ≡ false
    → Pieces rest ds
    → Pieces whole (d ∷ ds)
add_piece whole d rest [] e free pieces = absurd pieces
add_piece whole d rest (x ∷ ds) e free pieces = (rest, e, free, pieces)

units_of-emit :
    (d rest : List ℕ) (ds : List (List ℕ))
    → Pieces rest ds
    → 0 < length (trim d)
    → units_of (d ∷ ds) ≡ nal_of (trim d) ∷ units_of ds
units_of-emit d rest [] pieces h = absurd pieces
units_of-emit d rest (e ∷ ds) pieces h = go (trim d) h
  where
    go : (u : List ℕ) → 0 < length u → nonempty u (units_of (e ∷ ds)) ≡ nal_of u ∷ units_of (e ∷ ds)
    go [] h = elim h [ ]
    go (x ∷ u) h = refl

units_of-skip :
    (d rest : List ℕ) (ds : List (List ℕ))
    → Pieces rest ds
    → trim d ≡ []
    → units_of (d ∷ ds) ≡ units_of ds
units_of-skip d rest [] pieces h = absurd pieces
units_of-skip d rest (e ∷ ds) pieces h = ap (λ u. nonempty u (units_of (e ∷ ds))) h

Splits-code :
    (f : ℕ) (bytes buf : List ℕ) (b : ℕ) (d : List ℕ)
    → contains3 buf ≡ false
    → buf ++ (b ∷ []) ≡ d ++ start_code3
    → Completes buf b d
    → ((g : ℕ) → length bytes + 1 < g → Splits g bytes [])
    → length bytes + 2 < f
    → Splits f (b ∷ bytes) buf
Splits-code zero bytes buf b d free cut done rec h = elim h [ ]
Splits-code (suc f) bytes buf b d free cut (inl (code, step, dropped, some_byte)) rec h =
    let (ds, pieces, run) = rec f (omega arith) in
    let next : Reader = record { source = feed bytes []; buf = code; has_eof = false } in
    let whole : buf ++ (b ∷ bytes) ≡ d ++ (0 ∷ 0 ∷ 1 ∷ bytes) =
      sym (append_assoc buf (b ∷ []) bytes)
      ∙ ap (λ l. l ++ bytes) cut
      ∙ append_assoc d start_code3 bytes in
    (
      d ∷ ds,
      add_piece (buf ++ (b ∷ bytes)) d bytes ds whole
          (ap contains3 (sym (before_last buf d b cut)) ∙ free) pieces,
      λ r e.
          drain-got f r next (nal_of (trim d)) (e ∙ scan-emit (feed bytes []) buf b step)
          ∙ ap (Option.map (prepend (nal_of (trim d))))
              (run next (read_nal_open next refl ∙ ap (scan (feed bytes [])) dropped))
          ∙ ap (λ ns. some (ns, eof)) (sym (units_of-emit d bytes ds pieces some_byte)),
    )
Splits-code (suc f) bytes buf b d free cut (inr (step, is_nil)) rec h =
    let (ds, pieces, run) = rec (suc f) (omega arith) in
    let whole : buf ++ (b ∷ bytes) ≡ d ++ (0 ∷ 0 ∷ 1 ∷ bytes) =
      sym (append_assoc buf (b ∷ []) bytes)
      ∙ ap (λ l. l ++ bytes) cut
      ∙ append_assoc d start_code3 bytes in
    (
      d ∷ ds,
      add_piece (buf ++ (b ∷ bytes)) d bytes ds whole
          (ap contains3 (sym (before_last buf d b cut)) ∙ free) pieces,
      λ r e.
          run r (e ∙ scan-keep (feed bytes []) buf b step)
          ∙ ap (λ ns. some (ns, eof)) (sym (units_of-skip d bytes ds pieces is_nil)),
    )

scan_byte-keep :
    (buf : List ℕ) (b : ℕ)
    → at_end start_code3 (buf ++ (b ∷ [])) ≡ false
    → scan_byte buf b ≡ keep (buf ++ (b ∷ []))
unfolding scan_byte
scan_byte-keep buf b three =
    let grown = buf ++ (b ∷ []) in
    let four : at_end start_code grown ≡ false = elim (Bool-cases (at_end start_code grown)) [
      | inl is ↦ absurd (false≢true (sym three ∙ at_end4-at_end3 grown is))
      | inr isnt ↦ isnt
    ] in
    rw (four, three) refl

scan-Splits :
    (bytes buf : List ℕ) (f : ℕ) → contains3 buf ≡ false → length bytes + 1 < f → Splits f bytes buf
scan-Splits [] buf f free h = Splits-end f buf (omega arith) free
scan-Splits (b ∷ bytes) buf f free h = elim (Bool-cases (at_end start_code3 (buf ++ (b ∷ [])))) [
  | inl three ↦
      (let (d, cut, done) = completed buf b three in
        Splits-code f bytes buf b d free cut done (λ g. scan-Splits bytes [] g contains3-nil)
          (omega arith))
  | inr other ↦ Splits-keep f bytes buf b (scan_byte-keep buf b other) (
      scan-Splits bytes (buf ++ (b ∷ [])) f (contains3-concat buf b ∙ ap₂ ◌||◌ free other)
        (omega arith))
]

-- Every input without errors falls into pieces by a cut at each first 00 00 01, and AnnexBReader
-- reads just the units of such pieces from it and then answers `io.EOF`, for all fuel above the
-- number of bytes and one.
pub drain-units_of :
    (bytes : List ℕ) (f : ℕ)
    → length bytes + 1 < f
    → (ds : List (List ℕ)) × Pieces bytes ds
      × (drain f (new_reader (feed bytes [])) ≡ some (units_of ds, eof))
drain-units_of bytes f h =
    let (ds, pieces, run) = scan-Splits bytes [] f contains3-nil h in
    (ds, pieces, run (new_reader (feed bytes [])) (read_nal_start (feed bytes [])))
