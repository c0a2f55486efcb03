-- ===== src/Wrapper/Buffer.antt =====
-- The receive buffer against a queue of bytes.
use mathlib.Core.Path.{subst}
use l4s_poc.Base.{
  ℕ, zero, suc, ◌+◌, ◌-◌, ◌≤◌, ◌<◌, ◌≡◌, refl, sym, ap, ◌∙◌, List, [], ◌∷◌, ◌++◌, ◌⊎◌, ◌||◌,
  Bool-cases, leb→le, inl, inr, Option, none, some, arith, leb, length, take, drop, min,
  length-append, length-take, take-append-drop,
}
use l4s_poc.Wrapper.{
  recv_buffer_size, RecvBuffer, deliver, reset_if_consumed, recv_stream, BufferCall, data_arrives,
  fin_arrives, closes, reads,
}

-- The bytes that have arrived and have not been read.
abbrev pub unread : RecvBuffer → List ℕ
unread b = drop b.recv_read b.written

-- What arrives by these calls.
abbrev pub deliveries : List BufferCall → List (List ℕ)
deliveries [] = []
deliveries (data_arrives bytes ∷ calls) = bytes ∷ deliveries calls
deliveries (fin_arrives ∷ calls) = deliveries calls
deliveries (closes ∷ calls) = deliveries calls
deliveries (reads size ∷ calls) = deliveries calls

abbrev pub joined : List (List ℕ) → List ℕ
joined [] = []
joined (xs ∷ xss) = xs ++ joined xss

drop-append_le : (n : ℕ) (xs ys : List ℕ) → n ≤ length xs → drop n (xs ++ ys) ≡ drop n xs ++ ys
drop-append_le zero xs ys h = refl
drop-append_le (suc n) [] ys h = absurd (omega arith)
drop-append_le (suc n) (x ∷ xs) ys h = drop-append_le n xs ys (omega arith)

drop-nil : (n : ℕ) → drop {A = ℕ} n [] ≡ []
drop-nil zero = refl
drop-nil (suc n) = refl

suc_plus : (m n : ℕ) → suc (m + n) ≡ suc m + n
suc_plus m n = omega arith

drop-drop : (m n : ℕ) (xs : List ℕ) → drop n (drop m xs) ≡ drop (m + n) xs
drop-drop zero n xs = ap (λ k. drop k xs) (omega arith)
drop-drop (suc m) n [] = drop-nil n ∙ sym (drop-nil (suc m + n))
drop-drop (suc m) n (x ∷ xs) = drop-drop m n xs ∙ ap (λ (k : ℕ). drop k (x ∷ xs)) (suc_plus m n)

drop_all : (n : ℕ) (xs : List ℕ) → length xs ≤ n → drop n xs ≡ []
drop_all zero [] h = refl
drop_all zero (x ∷ xs) h = absurd (omega arith)
drop_all (suc n) [] h = refl
drop_all (suc n) (x ∷ xs) h = drop_all n xs (omega arith)

min-fits : (r l size : ℕ) → r ≤ l → r + min (l - r) size ≤ l
min-fits r l size h = ground arith

min_le : (a size : ℕ) → min a size ≤ size
min_le a size = ground arith

length-take_le : (n size : ℕ) (xs : List ℕ) → n ≤ size → length (take n xs) ≤ size
length-take_le n size xs h = subst (λ k. k ≤ size) (sym (length-take n xs)) (ground arith)

abbrev pub IsValid : RecvBuffer → Type 0
IsValid b = b.recv_read ≤ length b.written

reset_if_consumed-unread :
    (b : RecvBuffer)
    → IsValid b
    → (unread (reset_if_consumed b) ≡ unread b)
      × IsValid (reset_if_consumed b)
      × (length (reset_if_consumed b).written ≤ length b.written)
reset_if_consumed-unread b v = elim (Bool-cases (leb (length b.written) b.recv_read)) [
  | inl over ↦ rw over (
    sym (drop_all b.recv_read b.written (leb→le (length b.written) b.recv_read over)),
    omega arith,
    omega arith,
  )
  | inr more ↦ rw more (refl, v, omega arith)
]

-- What a read gives.
abbrev pub Received : ℕ → RecvBuffer → Option (List ℕ × RecvBuffer) → Type 0
Received size b none = Unit {0}
Received size b (some (bytes, b')) =
    (unread b ≡ bytes ++ unread b')
    × IsValid b'
    × (length b'.written ≤ length b.written)
    × (length bytes ≤ size)

pub recv_stream-Received :
    (size : ℕ) (b : RecvBuffer) → IsValid b → Received size b (recv_stream size b)
unfolding recv_stream
recv_stream-Received size b v = elim (Bool-cases (leb (length b.written) b.recv_read)) [
  | inl over ↦ elim (Bool-cases (b.is_closed || b.fin_received)) [
    | inl at_end ↦ rw (over, at_end) (refl, v, omega arith, omega arith)
    | inr waits ↦ rw (over, waits) tt
  ]
  | inr more ↦
      (let n = min (length b.written - b.recv_read) size in
        let moved : RecvBuffer = record b { recv_read = b.recv_read + n } in
        let fits : b.recv_read + n ≤ length b.written =
          min-fits b.recv_read (length b.written) size (omega arith) in
        let (same, ok, less) = reset_if_consumed-unread moved fits in
        rw more (
          sym (take-append-drop n (unread b))
              ∙ ap (λ xs. take n (unread b) ++ xs) (drop-drop b.recv_read n b.written ∙ sym same),
          ok,
          less,
          length-take_le n size (unread b) (min_le (length b.written - b.recv_read) size),
        ))
]

abbrev pub Fits : RecvBuffer → Type 0
Fits b = IsValid b × (length b.written ≤ recv_buffer_size)

-- One delivery is kept whole or dropped whole; it is kept when it fits.
abbrev pub Delivered : List ℕ → RecvBuffer → Type 0
Delivered bytes b =
    Fits (deliver bytes b)
    × (((unread (deliver bytes b) ≡ unread b ++ bytes)
          × (length (deliver bytes b).written ≡ length b.written + length bytes))
        ⊎ (deliver bytes b ≡ b) × (recv_buffer_size < length b.written + length bytes))

pub deliver-Delivered : (bytes : List ℕ) (b : RecvBuffer) → Fits b → Delivered bytes b
unfolding deliver
deliver-Delivered bytes b (v, w) =
    elim (Bool-cases (leb (length bytes) (recv_buffer_size - length b.written))) [
      | inl fits ↦
          (let f : length bytes ≤ recv_buffer_size - length b.written = leb→le _ _ fits in
            let l : length (b.written ++ bytes) ≡ length b.written + length bytes =
              length-append b.written bytes in
            rw fits
              ((omega arith, omega arith), inl (drop-append_le b.recv_read b.written bytes v, l)))
      | inr over ↦
          (let f : recv_buffer_size - length b.written < length bytes = ground (arith, over) in
            rw over ((v, w), inr (refl, omega arith)))
    ]
