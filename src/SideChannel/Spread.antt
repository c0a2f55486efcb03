-- ===== src/SideChannel/Spread.antt =====
-- What the latency figures of the senders mean.
use l4s_poc.Base.{◌<◌, ◌≡◌, refl, ap, ◌∙◌, List, [], ◌∷◌, ◌⊎◌, inl, inr, All, arith, length}
use l4s_poc.Base.Int.{ℤ, pos, pos_part, neg_part, ◌+ℤ◌, ◌≤ℤ◌, int_laws}
use l4s_poc.Base.Words.{i64, i64-add_i64}
use l4s_poc.SideChannel.{Latency, new_latency, track_latency}

-- The latencies arrive in this order.
abbrev pub track_latencies : List ℤ → Latency → Latency
track_latencies [] l = l
track_latencies (x ∷ xs) l = track_latencies xs (track_latency x l)

abbrev pub sum_ℤ : List ℤ → ℤ
sum_ℤ [] = pos 0
sum_ℤ (x ∷ xs) = x +ℤ sum_ℤ xs

abbrev pub IsAmong : ℤ → List ℤ → Type 0
IsAmong x [] = ⊥
IsAmong x (y ∷ ys) = (x ≡ y) ⊎ IsAmong x ys

-- How one latency moves the extremes.
record Moved (x : ℤ) (l m : Latency) : Type 0 where
  below_min : m.latency_min ≤ℤ l.latency_min
  below_new : m.latency_min ≤ℤ x
  above_max : l.latency_max ≤ℤ m.latency_max
  above_new : x ≤ℤ m.latency_max
  min_is : (m.latency_min ≡ l.latency_min) ⊎ (m.latency_min ≡ x)
  max_is : (m.latency_max ≡ l.latency_max) ⊎ (m.latency_max ≡ x)

track_latency-Moved : (x : ℤ) (l : Latency) → Moved x l (track_latency x l)
unfolding track_latency
track_latency-Moved x l = record {
  below_min = ground arith;
  below_new = ground arith;
  above_max = ground arith;
  above_new = ground arith;
  min_is = ground arith;
  max_is = ground arith;
}

-- The extremes after a run, against those before it and the latencies of the run.
record Spans (xs : List ℤ) (l m : Latency) : Type 0 where
  low : m.latency_min ≤ℤ l.latency_min
  high : l.latency_max ≤ℤ m.latency_max
  covers : All (λ x. (m.latency_min ≤ℤ x) × (x ≤ℤ m.latency_max)) xs
  low_is : (m.latency_min ≡ l.latency_min) ⊎ IsAmong m.latency_min xs
  high_is : (m.latency_max ≡ l.latency_max) ⊎ IsAmong m.latency_max xs

pick : {a b c x : ℤ} {P : Type 0} → (a ≡ b) ⊎ P → (b ≡ c) ⊎ (b ≡ x) → (a ≡ c) ⊎ ((a ≡ x) ⊎ P)
pick (inr p) q = inr (inr p)
pick (inl p) (inl q) = inl (p ∙ q)
pick (inl p) (inr q) = inr (inl (p ∙ q))

track_latencies-Spans : (xs : List ℤ) (l : Latency) → Spans xs l (track_latencies xs l)
track_latencies-Spans [] l = record {
  low = omega arith;
  high = omega arith;
  covers = tt;
  low_is = inl refl;
  high_is = inl refl;
}
track_latencies-Spans (x ∷ xs) l =
    let m = track_latencies xs (track_latency x l) in
    let step = track_latency-Moved x l in
    let rest = track_latencies-Spans xs (track_latency x l) in
    record {
      low = omega (arith, rest.low, step.below_min);
      high = omega (arith, rest.high, step.above_max);
      covers = (
        (omega (arith, rest.low, step.below_new), omega (arith, rest.high, step.above_new)),
        rest.covers,
      );
      low_is = pick rest.low_is step.min_is;
      high_is = pick rest.high_is step.max_is;
    }

track_latencies-sum :
    (xs : List ℤ) (l : Latency) (total count : ℤ)
    → l.latency_sum ≡ i64 total
    → l.latency_count ≡ i64 count
    → ((track_latencies xs l).latency_sum ≡ i64 (total +ℤ sum_ℤ xs))
      × ((track_latencies xs l).latency_count ≡ i64 (count +ℤ pos (length xs)))
unfolding track_latency
track_latencies-sum [] l total count hs hc =
    (hs ∙ ap i64 (omega int_laws), hc ∙ ap i64 (omega int_laws))
track_latencies-sum (x ∷ xs) l total count hs hc =
    let (s, c) =
      track_latencies-sum xs (track_latency x l) (total +ℤ x) (count +ℤ pos 1)
        (ap (λ t. i64 (t +ℤ x)) hs ∙ i64-add_i64 total x)
        (ap (λ t. i64 (t +ℤ pos 1)) hc ∙ i64-add_i64 count (pos 1)) in
    (s ∙ ap i64 (omega int_laws), c ∙ ap i64 (omega int_laws))

-- A latency strictly between the values that the extremes start from.
abbrev pub IsModest : ℤ → Type 0
IsModest x = (pos_part x < 999_999_999) × (neg_part x < 999_999_999)

i64-zero : pos 0 ≡ i64 (pos 0)
unfolding i64
i64-zero = refl

attained : {a b : ℤ} {P : Type 0} → (a ≡ b) ⊎ P → ¬ (a ≡ b) → P
attained (inl p) differs = absurd (differs p)
attained (inr p) differs = p

-- Once a latency has been taken, where all are below 999999999 ms in size: `latencyMin` and
-- `latencyMax` are two of them that bound all the others, and `latencySum` and `latencyCount` are
-- their sum and number, as int64.
pub track_latencies-exact :
    (x : ℤ) (xs : List ℤ)
    → All IsModest (x ∷ xs)
    → let m = track_latencies (x ∷ xs) new_latency in
      IsAmong m.latency_min (x ∷ xs)
      × IsAmong m.latency_max (x ∷ xs)
      × All (λ y. (m.latency_min ≤ℤ y) × (y ≤ℤ m.latency_max)) (x ∷ xs)
      × (m.latency_sum ≡ i64 (sum_ℤ (x ∷ xs)))
      × (m.latency_count ≡ i64 (pos (length (x ∷ xs))))
unfolding new_latency
track_latencies-exact x xs h =
    let all : List ℤ = x ∷ xs in
    let m = track_latencies all new_latency in
    let spans = track_latencies-Spans all new_latency in
    let (s, c) = track_latencies-sum all new_latency (pos 0) (pos 0) i64-zero i64-zero in
    (
      attained spans.low_is (λ e. omega (arith, rw e at (spans.covers.0.0))),
      attained spans.high_is (λ e. omega (arith, rw e at (spans.covers.0.1))),
      spans.covers,
      s ∙ ap i64 (omega int_laws),
      c ∙ ap i64 (omega int_laws),
    )
