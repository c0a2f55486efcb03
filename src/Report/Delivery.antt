-- ===== src/Report/Delivery.antt =====
-- From the receiver's reports to the sender's counters: the datagrams that the network delivers,
-- with some left out.
use l4s_poc.Base.{
  ℕ, ◌+◌, ◌-◌, ◌^◌, ◌≤◌, ◌<◌, ◌≡◌, refl, sym, ap, ◌∙◌, lt→ltb, length-map, List, [], ◌∷◌, ◌++◌,
  append-nil, append_assoc, map, All, Option, none, some, arith, length,
}
use l4s_poc.Base.Int.{ℤ}
use mathlib.Core.Path.{subst}
use l4s_poc.Base.Words.{u64}
use l4s_poc.Io.{IoError}
use l4s_poc.SideChannel.{
  on_stats, BandwidthStats, Channel, track_seq, new_channel, on_datagram, on_datagrams,
}
use l4s_poc.SideChannel.Loss.{
  track_all, IsIncreasing, IsNumber, last_of, counting, track_all-increasing,
}
use l4s_poc.Report.{
  Event, stopped, tick, Reporter, Progress, resume, reporter_of, new_reporter, on_sent,
  on_marshalled, on_event, report_loop,
}

-- What arrives of what was sent: the datagrams that are not lost, in order.
pub data Delivers {A : Type 0} : List A → List A → Type 0 where
  nothing : Delivers [] []
  lose : (x : A) {xs ys : List A} → Delivers xs ys → Delivers (x ∷ xs) ys
  deliver : (x : A) {xs ys : List A} → Delivers xs ys → Delivers (x ∷ xs) (x ∷ ys)

-- A connection that may refuse a datagram, and takes note of those that it has sent.
abbrev pub send_log :
    (List (List ℕ) → Option IoError) → List (List ℕ) → List ℕ → Option IoError × List (List ℕ)
send_log fails log bytes = elim (fails log) [
  | some e ↦ (some e, log)
  | none ↦ (none, log ++ (bytes ∷ []))
]

module _ {F : Type 0} (parse : List ℕ → Option (BandwidthStats F)) where
  abbrev pub seq_of : List ℕ → ℕ
  seq_of bytes = elim (parse bytes) [ some stats ↦ stats.seq | none ↦ 0 ]

  -- Reports whose numbers rise from above `k`.
  abbrev IsNumbered : ℕ → List (List ℕ) → Type 0
  IsNumbered k [] = Unit {0}
  IsNumbered k (d ∷ ds) =
      (stats : BandwidthStats F) × (parse d ≡ some stats)
      × (0 < length d)
      × (k < stats.seq)
      × (stats.seq < 2 ^ 62)
      × IsNumbered stats.seq ds

  IsNumbered-le : (j k : ℕ) (ds : List (List ℕ)) → j ≤ k → IsNumbered k ds → IsNumbered j ds
  IsNumbered-le j k [] h n = tt
  IsNumbered-le j k (d ∷ ds) h (stats, p, some_bytes, above, below, rest) =
      (stats, p, some_bytes, omega arith, below, rest)

  Delivers-IsNumbered :
      {ds es : List (List ℕ)} → Delivers ds es → (k : ℕ) → IsNumbered k ds → IsNumbered k es
  Delivers-IsNumbered nothing k n = tt
  Delivers-IsNumbered (lose d {xs} {ys} del) k (stats, p, some_bytes, above, below, rest) =
      IsNumbered-le k stats.seq ys (omega arith) (Delivers-IsNumbered del stats.seq rest)
  Delivers-IsNumbered (deliver d del) k (stats, p, some_bytes, above, below, rest) =
      (stats, p, some_bytes, above, below, Delivers-IsNumbered del stats.seq rest)

  -- What a run has added to the log: reports whose numbers rise from above `k`.
  abbrev Sends : ℕ → List (List ℕ) → Progress (List (List ℕ)) → Type 0
  Sends k log p = (ds : List (List ℕ)) × ((reporter_of p).conn ≡ log ++ ds) × IsNumbered k ds

  module _ (marshal : BandwidthStats F → Option (List ℕ)) (fails : List (List ℕ) → Option IoError)
      (law : (s : BandwidthStats F) (b : List ℕ)
        → marshal s ≡ some b
        → (parse b ≡ some s) × (0 < length b))
      {R : Type 0} (make : ℕ → R → BandwidthStats F)
      (numbered : (k : ℕ) (x : R) → (make k x).seq ≡ k) where
    abbrev run : List (Event R) → Reporter (List (List ℕ)) → Progress (List (List ℕ))
    run = report_loop marshal (send_log fails) make

    written-Sends :
        (k : ℕ) (r : Reporter (List (List ℕ))) (stats : BandwidthStats F) (b : List ℕ)
        (es : List (Event R)) (refused : Option IoError)
        → fails r.conn ≡ refused
        → (parse b ≡ some stats) × (0 < length b)
        → stats.seq ≡ r.last_seq
        → k < r.last_seq
        → r.last_seq < 2 ^ 62
        → ((r' : Reporter (List (List ℕ)))
            → r'.last_seq ≡ r.last_seq
            → Sends r.last_seq r'.conn (run es r'))
        → Sends k r.conn (resume (run es) (on_sent r (length b) (send_log fails r.conn b)))
    unfolding on_sent
    written-Sends k r stats b es (some e) is ok_b same above below ih =
        let refused : send_log fails r.conn b ≡ (some e, r.conn) = rw (is, send_log) in
        (
          [],
          ap (λ a. (reporter_of (resume (run es) (on_sent r (length b) a))).conn) refused
              ∙ sym (append-nil r.conn),
          tt,
        )
    written-Sends k r stats b es none is ok_b same above below ih =
        let sent : send_log fails r.conn b ≡ (none, r.conn ++ (b ∷ [])) = rw (is, send_log) in
        let later = ih (reporter_of (on_sent r (length b) (none, r.conn ++ (b ∷ [])))) refl in
        (
          b ∷ later.0,
          ap (λ a. (reporter_of (resume (run es) (on_sent r (length b) a))).conn) sent
              ∙ later.1
              ∙ append_assoc r.conn (b ∷ []) later.0,
          (stats, ok_b.0, ok_b.1, omega (arith, same), omega (arith, same), rw same later.2),
        )

    marshalled-Sends :
        (k : ℕ) (r : Reporter (List (List ℕ))) (stats : BandwidthStats F) (es : List (Event R))
        (m : Option (List ℕ))
        → marshal stats ≡ m
        → stats.seq ≡ r.last_seq
        → k < r.last_seq
        → r.last_seq < 2 ^ 62
        → ((r' : Reporter (List (List ℕ)))
            → r'.last_seq ≡ r.last_seq
            → Sends r.last_seq r'.conn (run es r'))
        → Sends k r.conn (resume (run es) (on_marshalled marshal (send_log fails) r m))
    unfolding on_marshalled
    marshalled-Sends k r stats es none is same above below ih =
        let (ds, eq, n) = ih r refl in (ds, eq, IsNumbered-le k r.last_seq ds (omega arith) n)
    marshalled-Sends k r stats es (some b) is same above below ih =
        written-Sends k r stats b es (fails r.conn) refl (law stats b is) same above below ih

    run-Sends :
        (es : List (Event R)) (r : Reporter (List (List ℕ)))
        → r.last_seq + length es < 2 ^ 62
        → Sends r.last_seq r.conn (run es r)
    unfolding report_loop on_event
    run-Sends [] r h = ([], sym (append-nil r.conn), tt)
    run-Sends (stopped ∷ es) r h = ([], sym (append-nil r.conn), tt)
    run-Sends (tick x ∷ es) r h =
        let number : u64 (r.last_seq + 1) ≡ r.last_seq + 1 = omega arith in
        rw number (
          marshalled-Sends r.last_seq (record r { last_seq = r.last_seq + 1 })
            (make (r.last_seq + 1) x) es (marshal (make (r.last_seq + 1) x)) refl
            (numbered (r.last_seq + 1) x) (omega arith) (omega arith)
            (λ r' same. rw (← same) (run-Sends es r' (omega (arith, same)))))

  -- The sender's side: the numbers of the datagrams reach the counters.
  on_datagram-track_seq :
      (now : ℤ) (d : List ℕ) (c : Channel F) (stats : BandwidthStats F)
      → parse d ≡ some stats
      → 0 < length d
      → (on_datagram parse now d c).sequence ≡ track_seq stats.seq c.sequence
  unfolding on_datagram on_stats
  on_datagram-track_seq now d c stats p some_bytes = rw (lt→ltb 0 (length d) some_bytes, p)

  seq_of_lem : (d : List ℕ) (stats : BandwidthStats F) → parse d ≡ some stats → seq_of d ≡ stats.seq
  seq_of_lem d stats p = rw (p, seq_of) refl

  abbrev pub seqs_of : List (ℤ × List ℕ) → List ℕ
  seqs_of xs = map (λ x. seq_of x.1) xs

  on_datagrams-track_all :
      (xs : List (ℤ × List ℕ)) (c : Channel F) (k : ℕ)
      → IsNumbered k (map (λ x. x.1) xs)
      → (on_datagrams parse xs c).sequence ≡ track_all (seqs_of xs) c.sequence
  unfolding on_datagrams
  on_datagrams-track_all [] c k n = refl
  on_datagrams-track_all ((now, d) ∷ xs) c k (stats, p, some_bytes, above, below, rest) =
      on_datagrams-track_all xs (on_datagram parse now d c) stats.seq rest
      ∙ ap (track_all (seqs_of xs)) (
          on_datagram-track_seq now d c stats p some_bytes
          ∙ ap (λ n. track_seq n c.sequence) (sym (seq_of_lem d stats p)))

  numbers :
      (xs : List (ℤ × List ℕ)) (k : ℕ)
      → IsNumbered k (map (λ x. x.1) xs)
      → IsIncreasing k (seqs_of xs) × All IsNumber (seqs_of xs)
  numbers [] k n = (tt, tt)
  numbers ((now, d) ∷ xs) k (stats, p, some_bytes, above, below, rest) =
      let (inc, all) = numbers xs stats.seq rest in
      let same = seq_of_lem d stats p in
      ((omega (arith, same), rw same inc), ((omega (arith, same), omega (arith, same)), all))

  module _ (marshal : BandwidthStats F → Option (List ℕ)) (fails : List (List ℕ) → Option IoError)
      (law : (s : BandwidthStats F) (b : List ℕ)
        → marshal s ≡ some b
        → (parse b ≡ some s) × (0 < length b))
      {R : Type 0} (make : ℕ → R → BandwidthStats F)
      (numbered : (k : ℕ) (x : R) → (make k x).seq ≡ k) where
    -- Of the receiver's reports, whatever of them its connection refused and the network lost, some
    -- arrived, and in order. Then the sender counts as lost just the numbers that are missing between
    -- the first and the last that arrived, and none as reordered: together with the reports that
    -- arrived they make up all of these numbers. `parse` is to give back what `marshal` encodes, in
    -- one byte at least; and the ticks are fewer than 2 ^ 62.
    pub on_datagrams-report_loop :
        (es : List (Event R)) (start : ℤ) (x : ℤ × List ℕ) (xs : List (ℤ × List ℕ))
        → length es < 2 ^ 62
        → Delivers
            (reporter_of (report_loop marshal (send_log fails) make es (new_reporter []))).conn
            (map (λ y. y.1) (x ∷ xs))
        → let last = last_of (seq_of x.1) (seqs_of xs) in
          (lost : ℕ) × ((on_datagrams parse (x ∷ xs) (new_channel start)).sequence
            ≡ counting last lost 0)
          × (lost + length (x ∷ xs) ≡ last - seq_of x.1 + 1)
    unfolding new_reporter new_channel
    on_datagrams-report_loop es start (now, d) xs h del =
        let sent = run-Sends marshal fails law make numbered es (new_reporter []) (omega arith) in
        let n =
          Delivers-IsNumbered (subst (λ ds. Delivers ds (d ∷ map (λ y. y.1) xs)) sent.1 del) 0
            sent.2 in
        let (inc, all) = numbers ((now, d) ∷ xs) 0 n in
        let (lost, counted, exact) = track_all-increasing (seq_of d) (seqs_of xs) all inc.1 in
        (
          lost,
          on_datagrams-track_all ((now, d) ∷ xs) (new_channel start) 0 n ∙ counted,
          omega (arith, length-map xs (λ y. seq_of y.1)),
        )
