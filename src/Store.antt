-- ===== src/Store.antt =====
-- Go maps whose values are pointers, and what the pointers lead to: pointers are indices into a list
-- of the objects that were made, as pkg/l4s/interceptor.go and pkg/scream/scream.go use them.
use mathlib.Core.Option
use l4s_poc.Base.{
  ℕ, zero, suc, ◌<◌, ◌≡◌, refl, ap, ◌∙◌, List, [], ◌∷◌, ◌++◌, Option, none, some, arith, ◌==◌,
  if◌then◌else◌, length, get_elem?,
}

-- Go maps to pointers: `m[k]`, `delete(m, k)`, `m[k] = v`.
unfoldable pub lookup : ℕ → List (ℕ × ℕ) → Option ℕ
lookup k [] = none
lookup k ((j, v) ∷ m) = if j == k then some v else lookup k m

unfoldable pub delete : ℕ → List (ℕ × ℕ) → List (ℕ × ℕ)
delete k [] = []
delete k ((j, v) ∷ m) = if j == k then delete k m else (j, v) ∷ delete k m

unfoldable pub insert : ℕ → ℕ → List (ℕ × ℕ) → List (ℕ × ℕ)
unfolding delete
insert k v m = (k, v) ∷ delete k m

-- A write through a pointer.
unfoldable pub modify : {A : Type 0} → ℕ → (A → A) → List A → List A
modify i f [] = []
modify zero f (t ∷ ts) = f t ∷ ts
modify (suc i) f (t ∷ ts) = t ∷ modify i f ts

pub lookup-delete :
    (k j : ℕ) (m : List (ℕ × ℕ)) → lookup j (delete k m) ≡ (if k == j then none else lookup j m)
unfolding lookup delete
lookup-delete k j [] = ground arith
lookup-delete k j ((i, v) ∷ m) = ground (arith, lookup-delete k j m)

pub lookup-insert :
    (k j v : ℕ) (m : List (ℕ × ℕ))
    → lookup j (insert k v m) ≡ (if k == j then some v else lookup j m)
unfolding insert lookup
lookup-insert k j v m = ground (arith, lookup-delete k j m)

pub get_elem?-modify :
    {A : Type 0} (i j : ℕ) (f : A → A) (ts : List A)
    → get_elem? (modify i f ts) j
      ≡ (if i == j then Option.map f (get_elem? ts j) else get_elem? ts j)
unfolding modify
get_elem?-modify zero zero f [] = refl
get_elem?-modify zero (suc j) f [] = ground arith
get_elem?-modify (suc i) zero f [] = ground arith
get_elem?-modify (suc i) (suc j) f [] = ground arith
get_elem?-modify zero zero f (t ∷ ts) = refl
get_elem?-modify zero (suc j) f (t ∷ ts) = ground arith
get_elem?-modify (suc i) zero f (t ∷ ts) = ground arith
get_elem?-modify (suc i) (suc j) f (t ∷ ts) = get_elem?-modify i j f ts ∙ ground arith

pub length-modify :
    {A : Type 0} (i : ℕ) (f : A → A) (ts : List A) → length (modify i f ts) ≡ length ts
unfolding modify
length-modify zero f [] = refl
length-modify (suc i) f [] = refl
length-modify zero f (t ∷ ts) = refl
length-modify (suc i) f (t ∷ ts) = ap suc (length-modify i f ts)

pub get_elem?-append_left :
    {A : Type 0} (ts us : List A) (j : ℕ) → j < length ts → get_elem? (ts ++ us) j ≡ get_elem? ts j
get_elem?-append_left [] us j h = elim h [ ]
get_elem?-append_left (t ∷ ts) us zero h = refl
get_elem?-append_left (t ∷ ts) us (suc j) h = get_elem?-append_left ts us j (omega arith)

pub get_elem?-append_end :
    {A : Type 0} (ts : List A) (t : A) → get_elem? (ts ++ (t ∷ [])) (length ts) ≡ some t
get_elem?-append_end [] t = refl
get_elem?-append_end (x ∷ ts) t = get_elem?-append_end ts t
