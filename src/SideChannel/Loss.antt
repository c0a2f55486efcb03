-- ===== src/SideChannel/Loss.antt =====
-- What the counters of lost and reordered reports mean.
use l4s_poc.Base.{
  ℕ, ◌+◌, ◌-◌, ◌^◌, ◌<◌, ◌≡◌, ap, ap₂, All, ◌∙◌, List, [], ◌∷◌, arith, length, leb, if◌then◌else◌,
}
use l4s_poc.Base.Int.{pos}
use l4s_poc.Base.Words.{i64-add_pos}
use l4s_poc.SideChannel.{Sequence, new_sequence, track_seq}

-- The reports arrive in this order.
abbrev pub track_all : List ℕ → Sequence → Sequence
track_all [] s = s
track_all (x ∷ xs) s = track_all xs (track_seq x s)

-- Each number is above the one before it.
abbrev pub IsIncreasing : ℕ → List ℕ → Type 0
IsIncreasing x [] = Unit
IsIncreasing x (y ∷ ys) = (x < y) × IsIncreasing y ys

abbrev pub last_of : ℕ → List ℕ → ℕ
last_of x [] = x
last_of x (y ∷ ys) = last_of y ys

-- The numbers left out between each report and the next, where that has a higher number.
abbrev pub gaps : ℕ → List ℕ → ℕ
gaps x [] = 0
gaps x (y ∷ ys) = (y - x - 1) + gaps y ys

-- How often a report does not have a higher number than the one before it.
abbrev pub descents : ℕ → List ℕ → ℕ
descents x [] = 0
descents x (y ∷ ys) = (if leb y x then 1 else 0) + descents y ys

abbrev pub IsNumber : ℕ → Type 0
IsNumber x = (0 < x) × (x < 2 ^ 62)

abbrev pub counting : ℕ → ℕ → ℕ → Sequence
counting x l r = record { last_seq = x; packets_lost = pos l; packets_reordered = pos r }

track_seq-next :
    (x y l r : ℕ)
    → IsNumber x
    → IsNumber y
    → l < 2 ^ 62
    → r < 2 ^ 62
    → track_seq y (counting x l r) ≡ counting y (l + (y - x - 1)) (r + (if leb y x then 1 else 0))
unfolding track_seq
track_seq-next x y l r hx hy hl hr = ground (arith, i64-add_pos l (y - x - 1), i64-add_pos r 1)

track_seq-first : (x : ℕ) → IsNumber x → track_seq x new_sequence ≡ counting x 0 0
unfolding track_seq new_sequence
track_seq-first x h = ground arith

last_of-IsNumber : (x : ℕ) (ys : List ℕ) → All IsNumber (x ∷ ys) → last_of x ys < 2 ^ 62
last_of-IsNumber x [] h = h.0.1
last_of-IsNumber x (y ∷ ys) h = last_of-IsNumber y ys h.1

track_all-counting :
    (ys : List ℕ) (x l r : ℕ)
    → All IsNumber (x ∷ ys)
    → l + gaps x ys < 2 ^ 62
    → r + descents x ys < 2 ^ 62
    → track_all ys (counting x l r) ≡ counting (last_of x ys) (l + gaps x ys) (r + descents x ys)
track_all-counting [] x l r h hl hr = ap₂ (counting x) (omega arith) (omega arith)
track_all-counting (y ∷ ys) x l r h hl hr =
    ap (track_all ys) (track_seq-next x y l r h.0 h.1.0 (omega arith) (omega arith))
    ∙ track_all-counting ys y (l + (y - x - 1)) (r + (if leb y x then 1 else 0)) h.1 (omega arith)
        (omega arith)
    ∙ ap₂ (counting (last_of y ys)) (omega arith) (omega arith)

-- Whatever the order of arrival: `packetsLost` is the sum of the gaps between each report and the
-- next, and `packetsReordered` the number of reports that are not above the one before. The numbers
-- are from 1 on and below 2 ^ 62, and both counts are below 2 ^ 62.
pub track_all-counts :
    (x : ℕ) (ys : List ℕ)
    → All IsNumber (x ∷ ys)
    → gaps x ys < 2 ^ 62
    → descents x ys < 2 ^ 62
    → track_all (x ∷ ys) new_sequence ≡ counting (last_of x ys) (gaps x ys) (descents x ys)
track_all-counts x ys h hl hr =
    ap (track_all ys) (track_seq-first x h.0)
    ∙ track_all-counting ys x 0 0 h (omega arith) (omega arith)
    ∙ ap₂ (counting (last_of x ys)) (omega arith) (omega arith)

gaps-increasing :
    (x : ℕ) (ys : List ℕ)
    → IsIncreasing x ys
    → (gaps x ys + length ys + x ≡ last_of x ys) × (descents x ys ≡ 0)
gaps-increasing x [] h = omega arith
gaps-increasing x (y ∷ ys) h = ground (arith, gaps-increasing y ys h.1)

-- Where the reports arrive in order, `packetsLost` is exact: with the reports that arrived it makes
-- up all numbers from the first to the last; and `packetsReordered` stays 0.
pub track_all-increasing :
    (x : ℕ) (ys : List ℕ)
    → All IsNumber (x ∷ ys)
    → IsIncreasing x ys
    → (lost : ℕ) × (track_all (x ∷ ys) new_sequence ≡ counting (last_of x ys) lost 0)
      × (lost + length (x ∷ ys) ≡ last_of x ys - x + 1)
track_all-increasing x ys h inc =
    let (total, none_back) = gaps-increasing x ys inc in
    let top : last_of x ys < 2 ^ 62 = last_of-IsNumber x ys h in
    (
      gaps x ys,
      track_all-counts x ys h (omega arith) (omega arith)
          ∙ ap (counting (last_of x ys) (gaps x ys)) none_back,
      omega arith,
    )

-- Where reports arrive out of order, `packetsLost` counts reports that did arrive: of four
-- consecutive reports the middle two change places, none is lost, and two are counted as lost.
pub track_all-swapped :
    (x : ℕ)
    → 0 < x
    → x + 3 < 2 ^ 62
    → track_all (x ∷ (x + 2) ∷ (x + 1) ∷ (x + 3) ∷ []) new_sequence ≡ counting (x + 3) 2 1
track_all-swapped x low high =
    track_all-counts x ((x + 2) ∷ (x + 1) ∷ (x + 3) ∷ []) (omega arith) (ground arith)
      (ground arith)
    ∙ ap₂ (counting (x + 3)) (ground arith) (ground arith)
