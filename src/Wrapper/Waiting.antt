-- ===== src/Wrapper/Waiting.antt =====
-- How the loop of `pq_wait_stream_complete` ends.
use mathlib.Core.Path.{subst}
use l4s_poc.Base.{
  ℕ, zero, suc, ◌+◌, ◌*◌, ◌≤◌, ◌<◌, ◌≡◌, refl, Bool, true, false, Bool-cases, ltb, ltb→lt, ◌⊎◌, inl,
  inr, Option, some, arith,
}
use l4s_poc.Wrapper.{Round, round_ends, wait_loop, wait_stream_complete}

-- Round `k` is reached in time and ends the loop.
abbrev pub EndsAt : ℕ → ℕ → (ℕ → Round) → ℕ → Type 0
EndsAt timeout waited rounds k =
    (waited + k * 10 < timeout) × (round_ends (waited + k * 10) (rounds k) ≡ true)

-- It is not in time, or does not end the loop.
abbrev pub GoesOn : ℕ → ℕ → (ℕ → Round) → ℕ → Type 0
GoesOn timeout waited rounds k =
    (timeout ≤ waited + k * 10) ⊎ (round_ends (waited + k * 10) (rounds k) ≡ false)

abbrev pub Ends : ℕ → ℕ → (ℕ → Round) → Option Bool → Type 0
Ends timeout waited rounds r =
    ((r ≡ some true) × (k : ℕ) × EndsAt timeout waited rounds k)
    ⊎ (r ≡ some false) × ((k : ℕ) → GoesOn timeout waited rounds k)

abbrev pub later : (ℕ → Round) → ℕ → Round
later rounds k = rounds (suc k)

round_later : (waited k : ℕ) → (waited + 10) + k * 10 ≡ waited + suc k * 10
round_later waited k = omega arith

GoesOn-suc :
    (timeout waited : ℕ) (rounds : ℕ → Round)
    → round_ends waited (rounds 0) ≡ false
    → ((k : ℕ) → GoesOn timeout (waited + 10) (later rounds) k)
    → (k : ℕ) → GoesOn timeout waited rounds k
GoesOn-suc timeout waited rounds first rest zero =
    inr (subst (λ n. round_ends n (rounds 0) ≡ false) (omega arith) first)
GoesOn-suc timeout waited rounds first rest (suc k) =
    subst (λ n. (timeout ≤ n) ⊎ (round_ends n (rounds (suc k)) ≡ false)) (round_later waited k)
      (rest k)

Ends-suc :
    (timeout waited : ℕ) (rounds : ℕ → Round) (r : Option Bool)
    → round_ends waited (rounds 0) ≡ false
    → Ends timeout (waited + 10) (later rounds) r
    → Ends timeout waited rounds r
Ends-suc timeout waited rounds r first (inl (zero_res, k, in_time)) = inl (
  zero_res,
  suc k,
  subst (λ n. (n < timeout) × (round_ends n (rounds (suc k)) ≡ true)) (round_later waited k)
      in_time,
)
Ends-suc timeout waited rounds r first (inr (late, rest)) =
    inr (late, GoesOn-suc timeout waited rounds first rest)

ends_first :
    (timeout waited : ℕ) (rounds : ℕ → Round)
    → waited < timeout
    → round_ends waited (rounds 0) ≡ true
    → EndsAt timeout waited rounds 0
ends_first timeout waited rounds in_time ends =
    (omega arith, subst (λ n. round_ends n (rounds 0) ≡ true) (omega arith) ends)

wait_loop-Ends :
    (fuel timeout waited : ℕ) (rounds : ℕ → Round)
    → 0 < fuel
    → timeout < waited + fuel
    → Ends timeout waited rounds (wait_loop fuel timeout waited rounds)
unfolding wait_loop
wait_loop-Ends zero timeout waited rounds some_fuel h = absurd (omega arith)
wait_loop-Ends (suc fuel) timeout waited rounds some_fuel h =
    elim (Bool-cases (ltb waited timeout)) [
      | inl more ↦
          (let in_time : waited < timeout = ltb→lt waited timeout more in
            elim (Bool-cases (round_ends waited (rounds 0))) [
              | inl ends ↦
                  rw (more, ends) (inl (refl, zero, ends_first timeout waited rounds in_time ends))
              | inr goes_on ↦
                  rw (more, goes_on)
                    (Ends-suc timeout waited rounds _ goes_on (
                      wait_loop-Ends fuel timeout (waited + 10) (later rounds) (omega arith)
                        (omega arith)))
            ])
      | inr over ↦
          (let late : timeout ≤ waited = ground (arith, over) in
            rw over (inr (refl, λ k. inl (omega arith))))
    ]

-- The loop ends, with the fuel that it has: with 0 when a round before the timeout ends it, which are
-- 10 ms apart, and with -1 when none does.
pub wait_stream_complete-Ends :
    (timeout : ℕ) (rounds : ℕ → Round) → Ends timeout 0 rounds (wait_stream_complete timeout rounds)
unfolding wait_stream_complete
wait_stream_complete-Ends timeout rounds =
    wait_loop-Ends (timeout + 1) timeout 0 rounds (omega arith) (omega arith)
