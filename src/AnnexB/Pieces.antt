-- ===== src/AnnexB/Pieces.antt =====
-- An input falls into pieces in one way only.
use l4s_poc.Base.{
  ℕ, ◌+◌, ◌<◌, ◌≤◌, ◌≡◌, refl, sym, ap, ap₂, ◌∙◌, List, [], ◌∷◌, ◌++◌, append_assoc, Bool, true,
  false, ◌||◌, some, arith, length, take, drop, length-append, take-append, take-append_le,
  drop-append, Bool-cases, inl, inr,
}
use mathlib.Core.Path.{subst}
use mathlib.Core.Bool.{false≢true}
use native.Mathlib.Decide.{dec_lt}
use l4s_poc.Io.{feed, eof}
use l4s_poc.Nal.{start_code3}
use l4s_poc.AnnexB.{at_end, new_reader}
use l4s_poc.AnnexB.StartCode.{
  contains3, contains3-concat, contains3-append_left, contains3-take, at_end-append,
}
use l4s_poc.AnnexB.Drain.{drain}
use l4s_poc.AnnexB.Split.{Pieces, units_of, drain-units_of}

contains3-start_code3 : (d : List ℕ) → contains3 (d ++ start_code3) ≡ true
contains3-start_code3 d =
    let zeros : List ℕ = d ++ (0 ∷ 0 ∷ []) in
    let whole : zeros ++ (1 ∷ []) ≡ d ++ start_code3 = append_assoc d (0 ∷ 0 ∷ []) (1 ∷ []) in
    elim (Bool-cases (contains3 (d ++ start_code3))) [
      | inl is ↦ is
      | inr isnt ↦
          (let ends : at_end start_code3 (zeros ++ (1 ∷ [])) ≡ true =
              ap (at_end start_code3) whole ∙ at_end-append start_code3 d in
            let found = sym (ap contains3 whole) ∙ contains3-concat zeros 1 in
            found ∙ rw ends (or_true (contains3 zeros)))
    ]
  where
    or_true : (b : Bool) → (b || true) ≡ true
    or_true true = refl
    or_true false = refl

contains3-code : (d rest : List ℕ) → contains3 (d ++ (0 ∷ 0 ∷ 1 ∷ rest)) ≡ true
contains3-code d rest = elim (Bool-cases (contains3 (d ++ (0 ∷ 0 ∷ 1 ∷ rest)))) [
  | inl is ↦ is
  | inr isnt ↦
      (let here =
          contains3-append_left (d ++ start_code3) rest
            (ap contains3 (append_assoc d start_code3 rest) ∙ isnt) in
        absurd (false≢true (sym here ∙ contains3-start_code3 d)))
]

-- A cut does not come before the first.
not_shorter :
    (d r e s : List ℕ)
    → d ++ (0 ∷ 0 ∷ 1 ∷ r) ≡ e ++ (0 ∷ 0 ∷ 1 ∷ s)
    → contains3 (e ++ (0 ∷ 0 ∷ [])) ≡ false
    → length e ≤ length d
not_shorter d r e s whole free = elim (dec_lt (length d) (length e)) [
  | no long ↦ omega arith
  | yes short ↦
      (let zeros : List ℕ = e ++ (0 ∷ 0 ∷ []) in
        let n = length (d ++ start_code3) in
        let fits : n ≤ length zeros =
          omega (arith, length-append d start_code3, length-append e (0 ∷ 0 ∷ [])) in
        let same : (d ++ start_code3) ++ r ≡ zeros ++ (1 ∷ s) =
          append_assoc d start_code3 r ∙ whole ∙ sym (append_assoc e (0 ∷ 0 ∷ []) (1 ∷ s)) in
        let prefix : d ++ start_code3 ≡ take n zeros =
          sym (take-append (d ++ start_code3) r)
          ∙ ap (take n) same
          ∙ take-append_le n zeros (1 ∷ s) fits in
        absurd (
          false≢true
            (sym (ap contains3 prefix ∙ contains3-take n zeros free) ∙ contains3-start_code3 d)))
]

append-same : (d r e s : List ℕ) → d ++ r ≡ e ++ s → length d ≡ length e → (d ≡ e) × (r ≡ s)
append-same d r e s whole n = (
  sym (take-append d r) ∙ ap₂ take n whole ∙ take-append e s,
  sym (drop-append d r) ∙ ap₂ drop n whole ∙ drop-append e s,
)

Pieces-unique :
    (ds es : List (List ℕ)) (bytes : List ℕ) → Pieces bytes ds → Pieces bytes es → ds ≡ es
Pieces-unique [] es bytes p q = absurd p
Pieces-unique (d ∷ []) [] bytes p q = absurd q
Pieces-unique (d ∷ d' ∷ ds) [] bytes p q = absurd q
Pieces-unique (d ∷ []) (e ∷ []) bytes p q = ap (λ (l : List ℕ). l ∷ []) (sym p.0 ∙ q.0)
Pieces-unique (d ∷ []) (e ∷ e' ∷ es) bytes p (s, whole, free, q) =
    absurd (false≢true (sym p.1 ∙ ap contains3 (sym p.0 ∙ whole) ∙ contains3-code e s))
Pieces-unique (d ∷ d' ∷ ds) (e ∷ []) bytes (r, whole, free, p) q =
    absurd (false≢true (sym q.1 ∙ ap contains3 (sym q.0 ∙ whole) ∙ contains3-code d r))
Pieces-unique (d ∷ d' ∷ ds) (e ∷ e' ∷ es) bytes (r, whole, free, p) (s, whole', free', q) =
    let both = sym whole ∙ whole' in
    let n : length d ≡ length e =
      omega (arith, not_shorter d r e s both free', not_shorter e s d r (sym both) free) in
    let (same, code_rest) = append-same d (0 ∷ 0 ∷ 1 ∷ r) e (0 ∷ 0 ∷ 1 ∷ s) both n in
    let rest : r ≡ s = ap (drop 3) code_rest in
    ap₂ ◌∷◌ same (Pieces-unique (d' ∷ ds) (e' ∷ es) s (subst (λ l. Pieces l (d' ∷ ds)) rest p) q)

-- If the input falls into these pieces by a cut at each first 00 00 01, which it does in one way at
-- most, then AnnexBReader reads just the units of these pieces from it and then answers `io.EOF`,
-- for all fuel above the number of bytes and one. A zero byte before a cut belongs to the start
-- code, and what is empty is no unit.
pub drain-Pieces :
    (bytes : List ℕ) (f : ℕ) (ds : List (List ℕ))
    → length bytes + 1 < f
    → Pieces bytes ds
    → drain f (new_reader (feed bytes [])) ≡ some (units_of ds, eof)
drain-Pieces bytes f ds h pieces =
    let (es, pieces', run) = drain-units_of bytes f h in
    run ∙ ap (λ l. some (units_of l, eof)) (Pieces-unique es ds bytes pieces' pieces)
