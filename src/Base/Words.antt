-- ===== src/Base/Words.antt =====
-- Machine words: unsigned ones are native numbers with the wrap written out, an int64 is the
-- integer that its two's complement pattern stands for.
use Prim.Native.Nat.{ℕ, ◌+◌, ◌-◌, ◌*◌, ◌/◌, ◌%◌, ◌^◌, ◌≤◌, ◌<◌}
use mathlib.Core.Path.{◌≡◌, ap}
use mathlib.Core.Logic.{inl, inr}
use native.Mathlib.Omega.{arith}
use l4s_poc.Base.Tests.{ltb, Bool-cases, if◌then◌else◌}
use l4s_poc.Base.Int.{ℤ, pos, negsuc, pos_part, neg_part, ◌+ℤ◌, +ℤ_parts}

abbrev pub u8 : ℕ → ℕ
u8 x = x % 2 ^ 8

abbrev pub u16 : ℕ → ℕ
u16 x = x % 2 ^ 16

abbrev pub u32 : ℕ → ℕ
u32 x = x % 2 ^ 32

abbrev pub u64 : ℕ → ℕ
u64 x = x % 2 ^ 64

-- The integer of a 64-bit pattern.
abbrev pub signed64 : ℕ → ℤ
signed64 w = if ltb w (2 ^ 63) then pos w else negsuc (2 ^ 64 - w - 1)

-- The 64-bit pattern of an integer.
abbrev pub pattern64 : ℤ → ℕ
pattern64 (pos n) = n % 2 ^ 64
pattern64 (negsuc n) = 2 ^ 64 - 1 - n % 2 ^ 64

-- An int64 result: the true result, wrapped.
unfoldable pub i64 : ℤ → ℤ
i64 z = signed64 (pattern64 z)

abbrev pub IsI64 : ℤ → Type 0
IsI64 z = (pos_part z < 2 ^ 63) × (neg_part z ≤ 2 ^ 63)

-- Results in range are not changed.
pub i64-id : (z : ℤ) → IsI64 z → i64 z ≡ z
unfolding i64
i64-id (pos n) h = ground arith
i64-id (negsuc n) h = ground arith

-- A wrapped result is in range.
pub i64-IsI64 : (z : ℤ) → IsI64 (i64 z)
unfolding i64
i64-IsI64 (pos n) = ground arith
i64-IsI64 (negsuc n) = ground arith

pub i64-add_pos : (a b : ℕ) → a + b < 2 ^ 63 → i64 (pos a +ℤ pos b) ≡ pos (a + b)
unfolding i64 ◌+ℤ◌
i64-add_pos a b h = ground arith

pattern64-cases :
    (z : ℤ) → (k : ℕ) × (j : ℕ) × (pattern64 z + neg_part z + j * 2 ^ 64 ≡ pos_part z + k * 2 ^ 64)
pattern64-cases (pos n) = (0, n / 2 ^ 64, omega arith)
pattern64-cases (negsuc n) = (n / 2 ^ 64 + 1, 0, omega arith)

-- Two integers that differ by a multiple of 2 ^ 64 have one pattern.
pattern64-same :
    (a b : ℤ) (k j : ℕ)
    → pos_part a + neg_part b + k * 2 ^ 64 ≡ pos_part b + neg_part a + j * 2 ^ 64
    → pattern64 a ≡ pattern64 b
pattern64-same (pos a) (pos b) k j h = omega arith
pattern64-same (pos a) (negsuc b) k j h = omega arith
pattern64-same (negsuc a) (pos b) k j h = omega arith
pattern64-same (negsuc a) (negsuc b) k j h = omega arith

pattern64-lt : (z : ℤ) → pattern64 z < 2 ^ 64
pattern64-lt (pos n) = omega arith
pattern64-lt (negsuc n) = omega arith

signed64-parts :
    (w : ℕ)
    → w < 2 ^ 64
    → (j : ℕ) × (pos_part (signed64 w) + j * 2 ^ 64 ≡ w + neg_part (signed64 w))
signed64-parts w h = elim (Bool-cases (ltb w (2 ^ 63))) [
  | inl low ↦ (0, rw low (omega arith))
  | inr high ↦ (1, rw high (omega arith))
]

i64-parts :
    (z : ℤ)
    → (k : ℕ) × (j : ℕ) × (pos_part (i64 z) + neg_part z + j * 2 ^ 64
        ≡ pos_part z + neg_part (i64 z) + k * 2 ^ 64)
unfolding i64
i64-parts z =
    let (k, j, e) = pattern64-cases z in
    let (m, d) = signed64-parts (pattern64 z) (pattern64-lt z) in (k, j + m, omega (arith, e, d))

-- Wrapping a summand first changes nothing.
pub i64-add_i64 : (a b : ℤ) → i64 (i64 a +ℤ b) ≡ i64 (a +ℤ b)
i64-add_i64 a b =
    let (k, j, e) = i64-parts a in
    unfold i64 in
    ap signed64 (
      pattern64-same (i64 a +ℤ b) (a +ℤ b) j k (omega (arith, +ℤ_parts (i64 a) b, +ℤ_parts a b, e)))
