-- ===== src/EcnConn/Agreement.antt =====
-- ECNStats of pkg/ecnconn/conn.go against ECNTracker of pkg/l4s/interceptor.go.
use l4s_poc.Base.{ℕ, ◌≡◌, refl, ap₂, List, [], ◌∷◌, arith}
use l4s_poc.Ecn.{EcnTracker, new_tracker, track, reset}
use l4s_poc.Ecn.Counts.{Packet}
use l4s_poc.EcnConn.{EcnStats, new_ecn_stats, count, reset as reset_stats}

pub data StatsCall : Type 0 where
  records : Packet → StatsCall
  resets : StatsCall

-- What the calls of Reset hand over, and what is counted at the end.
abbrev pub tracker_run : List StatsCall → EcnTracker → List (ℕ × ℕ × ℕ × ℕ) × EcnTracker
tracker_run [] t = ([], t)
tracker_run (records p ∷ calls) t = tracker_run calls (track p.ecn p.seq_num p.timestamp t)
tracker_run (resets ∷ calls) t =
    let (c, t1) = reset t in let (rest, last) = tracker_run calls t1 in (c ∷ rest, last)

-- The counts in the order of ECNTracker, which is another than that of ECNStats.
abbrev pub reordered : ℕ × ℕ × ℕ × ℕ → ℕ × ℕ × ℕ × ℕ
reordered (not_ect, ect0, ect1, ce) = (ect0, ect1, ce, not_ect)

abbrev pub stats_run : List StatsCall → EcnStats → List (ℕ × ℕ × ℕ × ℕ) × EcnStats
stats_run [] s = ([], s)
stats_run (records p ∷ calls) s = stats_run calls (count p.ecn s)
stats_run (resets ∷ calls) s =
    let (c, s1) = reset_stats s in
    let (rest, last) = stats_run calls s1 in (reordered c ∷ rest, last)

abbrev pub Agrees : EcnStats → EcnTracker → Type 0
Agrees s t =
    (s.ect0_count ≡ t.ect0_count)
    × (s.ect1_count ≡ t.ect1_count)
    × (s.ce_count ≡ t.ce_count)
    × (s.not_ect ≡ t.not_ect_count)

count-Agrees :
    (p : Packet) (s : EcnStats) (t : EcnTracker)
    → Agrees s t
    → Agrees (count p.ecn s) (track p.ecn p.seq_num p.timestamp t)
unfolding count track
count-Agrees p s t (ect0, ect1, ce, not_ect) = ground arith

run-Agrees :
    (calls : List StatsCall) (s : EcnStats) (t : EcnTracker)
    → Agrees s t
    → ((stats_run calls s).0 ≡ (tracker_run calls t).0)
      × Agrees (stats_run calls s).1 (tracker_run calls t).1
unfolding reset reset_stats
run-Agrees [] s t a = (refl, a)
run-Agrees (records p ∷ calls) s t a =
    run-Agrees calls (count p.ecn s) (track p.ecn p.seq_num p.timestamp t) (count-Agrees p s t a)
run-Agrees (resets ∷ calls) s t (ect0, ect1, ce, not_ect) =
    (let (same, last) = run-Agrees calls (reset_stats s).1 (reset t).1 (refl, refl, refl, refl) in
      (
        ap₂ (λ (c : ℕ × ℕ × ℕ × ℕ) rest. c ∷ rest) (λ i. (ect0 i, ect1 i, ce i, not_ect i)) same,
        last,
      ))

-- ECNStats and ECNTracker, which two packages have for the same purpose, count alike: given the same
-- packets with resets between them, whatever the sequence numbers and time stamps, the resets hand
-- over the same counts, and the same counts are left, also where a counter wraps.
pub stats_run-tracker_run :
    (ssrc : ℕ) (calls : List StatsCall)
    → ((stats_run calls new_ecn_stats).0 ≡ (tracker_run calls (new_tracker ssrc)).0)
      × Agrees (stats_run calls new_ecn_stats).1 (tracker_run calls (new_tracker ssrc)).1
unfolding new_ecn_stats new_tracker
stats_run-tracker_run ssrc calls =
    run-Agrees calls new_ecn_stats (new_tracker ssrc) (refl, refl, refl, refl)
