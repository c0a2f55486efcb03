-- ===== src/Summary/Tests.antt =====
-- Runs of the summaries, with whole numbers for float64; a datagram holds the number of a report,
-- its time and the bytes received.
use l4s_poc.Base.{ℕ, ◌≡◌, refl, List, [], ◌∷◌, Option, none, some, map, All, arith, ltb, ◌*◌, ◌/◌}
use l4s_poc.Base.Int.{ℤ, pos, pos_part, ◌≤ℤ◌, ◌+ℤ◌, ◌-ℤ◌}
use l4s_poc.Base.Words.{i64}
use l4s_poc.Floats.{Floats}
use l4s_poc.SideChannel.{BandwidthStats, new_channel, on_datagrams}
use l4s_poc.SideChannel.Spread.{IsAmong}
use l4s_poc.Summary.{final_summary, periodic}
use l4s_poc.Summary.Figures.{latency_of, final_summary-reports}

abbrev floats : Floats ℕ
floats = record {
  of_int = pos_part;
  seconds = λ d. pos_part d / 1_000_000_000;
  quotient = λ a b. a / b;
  product = λ a b. a * b;
  is_positive = ltb 0;
}

abbrev parse : List ℕ → Option (BandwidthStats ℕ)
parse (n ∷ t ∷ b ∷ []) = some (record {
  seq = n;
  timestamp = pos t;
  bytes_recv = pos b;
  bitrate_kbps = 0;
  bitrate_mbps = 0;
  nal_count = pos 0;
  elapsed_ms = pos 0;
})
parse other = none

abbrev first_arrival : ℤ × List ℕ
first_arrival = (pos 1020, 1 ∷ 1000 ∷ 70 ∷ [])

abbrev arrivals : List (ℤ × List ℕ)
arrivals = (pos 1008, 2 ∷ 1010 ∷ 80 ∷ []) ∷ (pos 1035, 4 ∷ 1030 ∷ 99 ∷ []) ∷ []

final_summary-reports_example :
    let s =
      final_summary floats
        (pos 0)
        (pos 0)
        (pos 0)
        (on_datagrams parse (first_arrival ∷ arrivals) (new_channel (pos 0))) in
    let latencies = map (latency_of parse) (first_arrival ∷ arrivals) in
    IsAmong s.latency_min latencies
    × IsAmong s.latency_max latencies
    × All (λ y. (s.latency_min ≤ℤ y) × (y ≤ℤ s.latency_max)) latencies
    × (s.latency_samples ≡ pos 3)
    × (s.latency_avg ≡ 7)
    × (s.receiver_bytes ≡ pos 99)
unfolding i64 ◌-ℤ◌ ◌+ℤ◌
final_summary-reports_example =
    final_summary-reports parse floats (pos 0) (pos 0) (pos 0) (pos 0) first_arrival arrivals
      ((_, refl, omega arith), ((_, refl, omega arith), ((_, refl, omega arith), tt))) (omega arith)
      (omega arith)

-- Nothing is printed while the data channel is not open.
periodic_closed : periodic floats (pos 500) (pos 9) (pos 9) (new_channel (pos 0)) ≡ none
unfolding periodic new_channel
periodic_closed = refl
