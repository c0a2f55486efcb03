-- ===== src/SideChannel/Tests.antt =====
-- Runs of the counters of the side channel.
use l4s_poc.Base.{ℕ, ◌≡◌, refl, List, [], ◌∷◌, arith}
use l4s_poc.Base.Int.{ℤ, pos, negsuc, ◌+ℤ◌}
use l4s_poc.Base.Words.{i64}
use l4s_poc.SideChannel.{new_sequence, new_latency, track_seq, track_latency}
use l4s_poc.SideChannel.Loss.{track_all, gaps, descents, last_of, counting, track_all-counts}
use l4s_poc.SideChannel.Spread.{track_latencies}

-- 3 is late, 6 and 7 are missing.
abbrev arrivals : List ℕ
arrivals = 2 ∷ 4 ∷ 3 ∷ 5 ∷ 8 ∷ []

track_arrivals : track_all (1 ∷ arrivals) new_sequence ≡ counting 8 4 1
unfolding track_seq new_sequence i64 ◌+ℤ◌
track_arrivals = refl

track_all-counts_example :
    track_all (1 ∷ arrivals) new_sequence
    ≡ counting (last_of 1 arrivals) (gaps 1 arrivals) (descents 1 arrivals)
track_all-counts_example = track_all-counts 1 arrivals (omega arith) (omega arith) (omega arith)

-- Latencies of 20 ms, of -5 ms, since the clocks differ, and of 7 ms.
abbrev latencies : List ℤ
latencies = negsuc 4 ∷ pos 7 ∷ []

track_three : track_latencies (pos 20 ∷ latencies) new_latency ≡ record {
  latency_sum = pos 22;
  latency_count = pos 3;
  latency_min = negsuc 4;
  latency_max = pos 20;
}
unfolding track_latency new_latency i64 ◌+ℤ◌
track_three = refl
