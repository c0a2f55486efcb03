-- ===== src/AnnexB/StartCode.antt =====
-- When a byte string contains the start code 00 00 01, and what the reader's tests on the end of
-- its buffer say of that.
use l4s_poc.Base.{
  ℕ, zero, suc, ◌-◌, ◌≤◌, ◌≢◌, ◌≡◌, refl, sym, ap, ◌∙◌, List, [], ◌∷◌, ◌++◌, append_assoc, Bool,
  true, false, ◌&&◌, ◌||◌, arith, ◌==◌, leb, length, take, drop, equal, equal_refl, eq_of_equal,
  length-append, drop-append, take-append-drop, le→leb, leb→le,
}
use l4s_poc.Nal.{start_code, start_code3}
use l4s_poc.AnnexB.{has_prefix, at_end, strip}

-- 00 00 01 stands somewhere in the bytes.
unfoldable pub contains3 : List ℕ → Bool
contains3 [] = false
contains3 (x ∷ []) = false
contains3 (x ∷ y ∷ []) = false
contains3 (x ∷ y ∷ z ∷ r) = (x == 0 && (y == 0 && z == 1)) || contains3 (y ∷ z ∷ r)

pub contains3-nil : contains3 [] ≡ false
unfolding contains3
contains3-nil = refl

at_end-cons :
    (code : List ℕ) (x : ℕ) (xs : List ℕ)
    → length code ≤ length xs
    → at_end code (x ∷ xs) ≡ at_end code xs
unfolding at_end
at_end-cons code x xs h =
    let e : suc (length xs) - length code ≡ suc (length xs - length code) = omega arith in
    rw (e, le→leb (length code) (suc (length xs)) (omega arith), le→leb (length code) (length xs) h)

-- A buffer that a code ends is what stands before it, and the code.
pub at_end_split :
    (code xs : List ℕ)
    → at_end code xs ≡ true
    → (xs ≡ take (length xs - length code) xs ++ code) × (length code ≤ length xs)
unfolding at_end
at_end_split code xs h =
    let k = length xs - length code in
    let p : (leb (length code) (length xs) ≡ true) × (equal (drop k xs) code ≡ true) =
      ground arith in
    (sym (take-append-drop k xs) ∙ ap (◌++◌ (take k xs)) (eq_of_equal _ _ p.1), leb→le _ _ p.0)

pub at_end-append : (code xs : List ℕ) → at_end code (xs ++ code) ≡ true
unfolding at_end
at_end-append code xs =
    let e : length (xs ++ code) - length code ≡ length xs = omega (arith, length-append xs code) in
    rw (
      e,
      drop-append xs code,
      equal_refl code,
      le→leb (length code) (length (xs ++ code)) (omega (arith, length-append xs code)),
    )

-- The buffer comes to contain the code where the code ends it.
pub contains3-concat :
    (xs : List ℕ) (b : ℕ)
    → contains3 (xs ++ (b ∷ [])) ≡ (contains3 xs || at_end start_code3 (xs ++ (b ∷ [])))
unfolding contains3
contains3-concat [] b = unfold at_end in refl
contains3-concat (x ∷ []) b = unfold at_end in refl
contains3-concat (x ∷ y ∷ []) b = unfold at_end in ground arith
contains3-concat (x ∷ y ∷ z ∷ r) b =
    rw
      (at_end-cons start_code3 x (y ∷ z ∷ (r ++ (b ∷ [])))
        (omega (arith, length-append r (b ∷ []))))
      (rw (contains3-concat (y ∷ z ∷ r) b) (ground arith))

pub at_end4-at_end3 : (xs : List ℕ) → at_end start_code xs ≡ true → at_end start_code3 xs ≡ true
at_end4-at_end3 xs h =
    let pre = take (length xs - 4) xs in
    rw ((at_end_split start_code xs h).0 ∙ sym (append_assoc pre (0 ∷ []) start_code3))
      (at_end-append start_code3 (pre ++ (0 ∷ [])))

pub contains3-append_left : (xs ys : List ℕ) → contains3 (xs ++ ys) ≡ false → contains3 xs ≡ false
unfolding contains3
contains3-append_left [] ys h = refl
contains3-append_left (x ∷ []) ys h = refl
contains3-append_left (x ∷ y ∷ []) ys h = refl
contains3-append_left (x ∷ y ∷ z ∷ r) ys h = ground (arith, contains3-append_left (y ∷ z ∷ r) ys)

pub contains3-take : (n : ℕ) (xs : List ℕ) → contains3 xs ≡ false → contains3 (take n xs) ≡ false
contains3-take n xs h = contains3-append_left (take n xs) (drop n xs) (rw (take-append-drop n xs) h)

contains3-tail : (x : ℕ) (xs : List ℕ) → contains3 (x ∷ xs) ≡ false → contains3 xs ≡ false
unfolding contains3
contains3-tail x [] h = refl
contains3-tail x (y ∷ []) h = refl
contains3-tail x (y ∷ z ∷ r) h = ground arith

pub contains3-drop : (n : ℕ) (xs : List ℕ) → contains3 xs ≡ false → contains3 (drop n xs) ≡ false
contains3-drop zero xs h = h
contains3-drop (suc n) [] h = h
contains3-drop (suc n) (x ∷ xs) h = contains3-drop n xs (contains3-tail x xs h)

-- A byte other than 1 completes no start code.
pub contains3-concat_ne :
    (xs : List ℕ) (b : ℕ) → b ≢ 1 → contains3 xs ≡ false → contains3 (xs ++ (b ∷ [])) ≡ false
unfolding contains3
contains3-concat_ne [] b ne h = refl
contains3-concat_ne (x ∷ []) b ne h = refl
contains3-concat_ne (x ∷ y ∷ []) b ne h = ground arith
contains3-concat_ne (x ∷ y ∷ z ∷ r) b ne h = ground (arith, contains3-concat_ne (y ∷ z ∷ r) b ne)

pub strip_free : (xs : List ℕ) → contains3 xs ≡ false → contains3 (strip xs) ≡ false
unfolding strip
strip_free xs h = ground (arith, contains3-drop 4 xs h, contains3-drop 3 xs h)

-- What holds no start code does not begin with one.
pub strip_same : (xs : List ℕ) → contains3 xs ≡ false → strip xs ≡ xs
unfolding contains3 strip has_prefix
strip_same [] h = refl
strip_same (x ∷ []) h = refl
strip_same (x ∷ y ∷ []) h = refl
strip_same (x ∷ y ∷ z ∷ []) h = ground arith
strip_same (x ∷ y ∷ z ∷ w ∷ r) h = ground arith
