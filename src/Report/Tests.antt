-- ===== src/Report/Tests.antt =====
-- Runs of the reports, with whole numbers for float64 and a report encoded as a list of its fields.
use l4s_poc.Base.{
  ℕ, zero, suc, ◌+◌, ◌-◌, ◌*◌, ◌/◌, ◌<◌, ◌≡◌, refl, List, [], ◌∷◌, Option, none, some, arith,
  length, ltb, true,
}
use l4s_poc.Base.Int.{ℤ, pos, negsuc, pos_part}
use l4s_poc.Floats.{Floats}
use l4s_poc.Base.Words.{i64}
use l4s_poc.Io.{IoError}
use l4s_poc.SideChannel.{BandwidthStats, new_channel, on_datagrams}
use l4s_poc.SideChannel.Loss.{counting}
use l4s_poc.Report.{
  Event, stopped, tick, Reading, reporter_of, new_reporter, report, track_report, report_loop,
}
use l4s_poc.Report.Delivery.{Delivers, nothing, lose, deliver, send_log, on_datagrams-report_loop}
use mathlib.Core.Path.{subst}

abbrev floats : Floats ℕ
floats = record {
  of_int = pos_part;
  seconds = λ d. pos_part d / 1_000_000_000;
  quotient = λ a b. a / b;
  product = λ a b. a * b;
  is_positive = ltb 0;
}

abbrev tag : ℤ → ℕ
tag (pos n) = 0
tag (negsuc n) = 1

abbrev size : ℤ → ℕ
size (pos n) = n
size (negsuc n) = n

abbrev int_of : ℕ → ℕ → ℤ
int_of zero n = pos n
int_of (suc k) n = negsuc n

int_of-tag : (z : ℤ) → int_of (tag z) (size z) ≡ z
int_of-tag (pos n) = refl
int_of-tag (negsuc n) = refl

abbrev encode : BandwidthStats ℕ → List ℕ
encode s =
    s.seq
    ∷ tag s.timestamp
    ∷ size s.timestamp
    ∷ tag s.bytes_recv
    ∷ size s.bytes_recv
    ∷ s.bitrate_kbps
    ∷ s.bitrate_mbps
    ∷ tag s.nal_count
    ∷ size s.nal_count
    ∷ tag s.elapsed_ms
    ∷ size s.elapsed_ms
    ∷ []

abbrev marshal : BandwidthStats ℕ → Option (List ℕ)
marshal s = some (encode s)

abbrev parse : List ℕ → Option (BandwidthStats ℕ)
parse (n ∷ t ∷ t' ∷ b ∷ b' ∷ kbps ∷ rate ∷ k ∷ k' ∷ e ∷ e' ∷ []) = some (record {
  seq = n;
  timestamp = int_of t t';
  bytes_recv = int_of b b';
  bitrate_kbps = kbps;
  bitrate_mbps = rate;
  nal_count = int_of k k';
  elapsed_ms = int_of e e';
})
parse other = none

parse-encode : (s : BandwidthStats ℕ) → parse (encode s) ≡ some s
parse-encode s = λ i. some (record {
  seq = s.seq;
  timestamp = int_of-tag s.timestamp i;
  bytes_recv = int_of-tag s.bytes_recv i;
  bitrate_kbps = s.bitrate_kbps;
  bitrate_mbps = s.bitrate_mbps;
  nal_count = int_of-tag s.nal_count i;
  elapsed_ms = int_of-tag s.elapsed_ms i;
})

law : (s : BandwidthStats ℕ) (b : List ℕ) → marshal s ≡ some b → (parse b ≡ some s) × (0 < length b)
law s b e =
    let same : encode s ≡ b = cc in
    subst (λ x. (parse x ≡ some s) × (0 < length x)) same (parse-encode s, omega arith)

numbered : (k : ℕ) (r : Reading) → (report floats k r).seq ≡ k
unfolding report
numbered k r = refl

abbrev reading : ℕ → Reading
reading n = record {
  total_bytes = pos (250_000 * n);
  nal_count = pos n;
  elapsed = pos (2_000_000_000 * n);
  now = pos (1000 + n);
}

-- Five ticks; the connection refuses nothing, and then the loop is stopped.
abbrev events : List (Event Reading)
events =
    tick (reading 0)
    ∷ tick (reading 1)
    ∷ tick (reading 2)
    ∷ tick (reading 3)
    ∷ tick (reading 4)
    ∷ stopped
    ∷ []

abbrev accepts : List (List ℕ) → Option IoError
accepts log = none

abbrev datagram : ℕ → ℤ × List ℕ
datagram k = (pos (2000 + k), encode (report floats (suc k) (reading k)))

-- No time has passed at the first tick: the rate is 0.
report_first : report floats 1 (reading 0) ≡ record {
  seq = 1;
  timestamp = pos 1000;
  bytes_recv = pos 0;
  bitrate_kbps = 0;
  bitrate_mbps = 0;
  nal_count = pos 0;
  elapsed_ms = pos 0;
}
unfolding report
report_first = refl

track_report_before : (track_report floats 1 (true, reading 3)).elapsed_ms ≡ pos 0
unfolding track_report
track_report_before = refl

report_later : report floats 4 (reading 3) ≡ record {
  seq = 4;
  timestamp = pos 1003;
  bytes_recv = pos 750_000;
  bitrate_kbps = 1000;
  bitrate_mbps = 1;
  nal_count = pos 3;
  elapsed_ms = pos 6000;
}
unfolding report i64
report_later = refl

-- The first, the second and the fourth report do not arrive.
arrived :
    Delivers
      (reporter_of
        (report_loop marshal (send_log accepts) (report floats) events (new_reporter []))).conn
      (encode (report floats 3 (reading 2)) ∷ encode (report floats 5 (reading 4)) ∷ [])
unfolding report_loop new_reporter
arrived = lose _ (lose _ (deliver _ (lose _ (deliver _ nothing))))

on_datagrams-report_loop_example :
    (lost : ℕ) × ((on_datagrams parse (datagram 2 ∷ datagram 4 ∷ []) (new_channel (pos 0))).sequence
      ≡ counting 5 lost 0)
    × (lost + 2 ≡ 5 - 3 + 1)
unfolding report
on_datagrams-report_loop_example =
    on_datagrams-report_loop parse marshal accepts law (report floats) numbered events (pos 0)
      (datagram 2) (datagram 4 ∷ []) (omega arith) arrived
