-- ===== src/Summary/Figures.antt =====
-- What the figures of the summaries are.
use l4s_poc.Base.{
  ltb, Bool-cases, inl, inr, suc, ◌^◌, ◌<◌, ◌≡◌, refl, sym, ap, ◌∙◌, ℕ, List, [], ◌∷◌, Option, none,
  some, map, All, arith, length, lt→ltb, length-map,
}
use l4s_poc.Base.Int.{ℤ, pos, negsuc, ◌-ℤ◌, ◌≤ℤ◌}
use mathlib.Core.Path.{subst}
use l4s_poc.Base.Words.{i64, i64-id}
use l4s_poc.Floats.{Floats, average}
use l4s_poc.SideChannel.{
  BandwidthStats, Channel, Latency, new_latency, track_latency, new_channel, on_stats, on_datagram,
  on_datagrams,
}
use l4s_poc.SideChannel.Spread.{track_latencies, sum_ℤ, IsAmong, IsModest, track_latencies-exact}
use l4s_poc.Summary.{last_report, final_summary}

-- The figures of a run with these latencies.
abbrev IsExact : List ℤ → Latency → Type 0
IsExact xs l =
    IsAmong l.latency_min xs
    × IsAmong l.latency_max xs
    × All (λ y. (l.latency_min ≤ℤ y) × (y ≤ℤ l.latency_max)) xs
    × (l.latency_sum ≡ i64 (sum_ℤ xs))
    × (l.latency_count ≡ i64 (pos (length xs)))

i64-few : (n : ℕ) → n < 2 ^ 63 → i64 (pos n) ≡ pos n
i64-few n h = i64-id (pos n) (omega arith)

module _ {F : Type 0} (parse : List ℕ → Option (BandwidthStats F)) where
  -- A datagram that holds a report.
  abbrev pub IsReport : ℤ × List ℕ → Type 0
  IsReport x = (stats : BandwidthStats F) × (parse x.1 ≡ some stats) × (0 < length x.1)

  -- `recvTime - stats.Timestamp`.
  abbrev pub latency_of : ℤ × List ℕ → ℤ
  latency_of x = elim (parse x.1) [ some stats ↦ i64 (x.0 -ℤ stats.timestamp) | none ↦ pos 0 ]

  abbrev pub bytes_of : ℤ × List ℕ → ℤ
  bytes_of x = elim (parse x.1) [ some stats ↦ stats.bytes_recv | none ↦ pos 0 ]

  abbrev pub last_arrival : ℤ × List ℕ → List (ℤ × List ℕ) → ℤ × List ℕ
  last_arrival x [] = x
  last_arrival x (y ∷ ys) = last_arrival y ys

  on_datagram-track_latency :
      (x : ℤ × List ℕ) (c : Channel F)
      → IsReport x
      → ((on_datagram parse x.0 x.1 c).latency ≡ track_latency (latency_of x) c.latency)
        × ((on_datagram parse x.0 x.1 c).last_recv_stats ≡ parse x.1)
  unfolding on_datagram on_stats
  on_datagram-track_latency (now, d) c (stats, p, some_bytes) =
      rw (lt→ltb 0 (length d) some_bytes, p, latency_of) (refl, refl)

  on_datagrams-track_latencies :
      (x : ℤ × List ℕ) (xs : List (ℤ × List ℕ)) (c : Channel F)
      → All IsReport (x ∷ xs)
      → ((on_datagrams parse (x ∷ xs) c).latency
          ≡ track_latencies (map latency_of (x ∷ xs)) c.latency)
        × ((on_datagrams parse (x ∷ xs) c).last_recv_stats ≡ parse (last_arrival x xs).1)
  unfolding on_datagrams
  on_datagrams-track_latencies (now, d) [] c h = on_datagram-track_latency (now, d) c h.0
  on_datagrams-track_latencies (now, d) (y ∷ ys) c h =
      let (latency, last) = on_datagrams-track_latencies y ys (on_datagram parse now d c) h.1 in
      (
        latency
            ∙ ap (track_latencies (map latency_of (y ∷ ys)))
                (on_datagram-track_latency (now, d) c h.0).0,
        last,
      )

  IsReport-last_report :
      (f : Floats F) (x : ℤ × List ℕ)
      → IsReport x
      → (last_report f (parse x.1)).bytes_recv ≡ bytes_of x
  unfolding last_report
  IsReport-last_report f x (stats, p, some_bytes) = rw (p, bytes_of) refl

  All-last_arrival :
      (x : ℤ × List ℕ) (xs : List (ℤ × List ℕ))
      → All IsReport (x ∷ xs)
      → IsReport (last_arrival x xs)
  All-last_arrival x [] h = h.0
  All-last_arrival x (y ∷ ys) h = All-last_arrival y ys h.1

  average_pos :
      (f : Floats F) (sum : ℤ) (n : ℕ)
      → average f sum (pos (suc n)) ≡ f.quotient (f.of_int sum) (f.of_int (pos (suc n)))
  unfolding average
  average_pos f sum n = ground arith

  average_zero : (f : Floats F) → average f (pos 0) (pos 0) ≡ f.of_int (pos 0)
  unfolding average
  average_zero f = refl

  -- Where every datagram holds a report, and there is one: the final summary gives as the extreme
  -- latencies two that bound all the others, as the number of samples the number of reports, as the
  -- average the sum of the latencies, as an int64, over that number, and as the receiver's bytes those of the last report. All
  -- latencies are below 999999999 ms in size, and the reports fewer than 2 ^ 63.
  pub final_summary-reports :
      (f : Floats F) (sent elapsed start since_start : ℤ) (x : ℤ × List ℕ) (xs : List (ℤ × List ℕ))
      → All IsReport (x ∷ xs)
      → All IsModest (map latency_of (x ∷ xs))
      → length (x ∷ xs) < 2 ^ 63
      → let s =
          final_summary f sent elapsed since_start
            (on_datagrams parse (x ∷ xs) (new_channel start)) in
        let latencies = map latency_of (x ∷ xs) in
        IsAmong s.latency_min latencies
        × IsAmong s.latency_max latencies
        × All (λ y. (s.latency_min ≤ℤ y) × (y ≤ℤ s.latency_max)) latencies
        × (s.latency_samples ≡ pos (length (x ∷ xs)))
        × (s.latency_avg
            ≡ f.quotient (f.of_int (i64 (sum_ℤ latencies))) (f.of_int (pos (length (x ∷ xs)))))
        × (s.receiver_bytes ≡ bytes_of (last_arrival x xs))
  unfolding final_summary new_channel
  final_summary-reports f sent elapsed start since_start x xs reports modest few =
      let c = on_datagrams parse (x ∷ xs) (new_channel start) in
      let (latency, last) = on_datagrams-track_latencies x xs (new_channel start) reports in
      let (least, greatest, bounds, sum, count) =
        subst (IsExact (map latency_of (x ∷ xs))) (sym latency)
          (track_latencies-exact (latency_of x) (map latency_of xs) modest) in
      let samples : c.latency.latency_count ≡ pos (length (x ∷ xs)) =
        count
        ∙ ap (λ n. i64 (pos n)) (length-map (x ∷ xs) latency_of)
        ∙ i64-few (length (x ∷ xs)) few in
      (
        least,
        greatest,
        bounds,
        samples,
        ap (λ n. average f c.latency.latency_sum n) samples
            ∙ average_pos f c.latency.latency_sum (length xs)
            ∙ ap (λ n. f.quotient (f.of_int n) (f.of_int (pos (suc (length xs))))) sum,
        ap (λ r. (last_report f r).bytes_recv) last
            ∙ IsReport-last_report f (last_arrival x xs) (All-last_arrival x xs reports),
      )

  on_datagram-silent :
      (now : ℤ) (d : List ℕ) (c : Channel F)
      → parse d ≡ none
      → ((on_datagram parse now d c).latency ≡ c.latency)
        × ((on_datagram parse now d c).last_recv_stats ≡ c.last_recv_stats)
  unfolding on_datagram
  on_datagram-silent now d c p = elim (Bool-cases (ltb 0 (length d))) [
    | inl is ↦ rw (is, p) (refl, refl)
    | inr isnt ↦ rw isnt (refl, refl)
  ]

  on_datagrams-silent :
      (xs : List (ℤ × List ℕ)) (c : Channel F)
      → All (λ x. parse x.1 ≡ none) xs
      → ((on_datagrams parse xs c).latency ≡ c.latency)
        × ((on_datagrams parse xs c).last_recv_stats ≡ c.last_recv_stats)
  unfolding on_datagrams
  on_datagrams-silent [] c h = (refl, refl)
  on_datagrams-silent ((now, d) ∷ xs) c h =
      let (later, last) = on_datagrams-silent xs (on_datagram parse now d c) h.1 in
      let (same, kept) = on_datagram-silent now d c h.0 in (later ∙ same, last ∙ kept)

  -- Where no datagram holds a report, the final summary gives 999999999 ms as the least latency and
  -- -999999999 ms as the greatest, with 0 samples and an average of 0.
  pub final_summary-silent :
      (f : Floats F) (sent elapsed start since_start : ℤ) (xs : List (ℤ × List ℕ))
      → All (λ x. parse x.1 ≡ none) xs
      → let s =
          final_summary f sent elapsed since_start (on_datagrams parse xs (new_channel start)) in
        (s.latency_min ≡ pos 999_999_999)
        × (s.latency_max ≡ negsuc 999_999_998)
        × (s.latency_samples ≡ pos 0)
        × (s.latency_avg ≡ f.of_int (pos 0))
        × (s.receiver_bytes ≡ pos 0)
  unfolding final_summary new_channel new_latency last_report
  final_summary-silent f sent elapsed start since_start xs none_parse =
      let (latency, last) = on_datagrams-silent xs (new_channel start) none_parse in
      (
        ap (λ l. l.latency_min) latency,
        ap (λ l. l.latency_max) latency,
        ap (λ l. l.latency_count) latency,
        ap (λ l. average f l.latency_sum l.latency_count) latency ∙ average_zero f,
        ap (λ r. (last_report f r).bytes_recv) last,
      )
