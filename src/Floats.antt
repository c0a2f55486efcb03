-- ===== src/Floats.antt =====
-- The arithmetic in float64 of the reports and the summaries: cmd/quic-recv/main.go, cmd/quic-send/main.go,
-- cmd/webrtc-recv/main.go and cmd/webrtc-send/main.go compute rates and averages alike. The type
-- float64 is a parameter `F`, with the operations that the code uses in the record `Floats`. A
-- duration is its number of nanoseconds.
use l4s_poc.Base.{suc, ◌*◌, ◌/◌, if◌then◌else◌, Bool}
use l4s_poc.Base.Int.{ℤ, pos, negsuc, sub_ℕ, ltb_ℤ}
use l4s_poc.Base.Words.{i64}

pub record Floats (F : Type 0) : Type 0 where
  -- The conversion of an int64, and so the constants 0, 1000 and 1e6.
  pub of_int : ℤ → F
  -- `Duration.Seconds()`.
  pub seconds : ℤ → F
  pub quotient : F → F → F
  pub product : F → F → F
  -- `> 0`.
  pub is_positive : F → Bool

-- `n * 8` as an int64.
unfoldable pub bits : ℤ → ℤ
bits (pos n) = i64 (pos (n * 8))
bits (negsuc n) = i64 (sub_ℕ 0 (suc n * 8))

-- `Duration.Milliseconds()`.
unfoldable pub milliseconds : ℤ → ℤ
milliseconds (pos n) = pos (n / 1_000_000)
milliseconds (negsuc n) = sub_ℕ 0 (suc n / 1_000_000)

module _ {F : Type 0} (f : Floats F) where
  -- The rate in Mbps, 0 where no time has passed.
  unfoldable pub mbps : ℤ → ℤ → F
  unfolding bits
  mbps bytes elapsed =
      if f.is_positive (f.seconds elapsed)
      then f.quotient (f.quotient (f.of_int (bits bytes)) (f.seconds elapsed))
          (f.of_int (pos 1_000_000))
      else f.of_int (pos 0)

  -- The average of a sum over a count, 0 where nothing has been counted.
  unfoldable pub average : ℤ → ℤ → F
  average sum count =
      if ltb_ℤ (pos 0) count then f.quotient (f.of_int sum) (f.of_int count) else f.of_int (pos 0)
