-- ===== src/Ecn/Counts.antt =====
-- The counters of a tracker against the packets recorded.
use l4s_poc.Base.{
  ℕ, ◌+◌, ◌%◌, ◌^◌, ◌<◌, ◌≡◌, refl, ap, ◌∙◌, List, [], ◌∷◌, arith, ◌==◌, if◌then◌else◌, length,
}
use l4s_poc.Base.Words.{u64}
use l4s_poc.Ecn.{EcnTracker, new_tracker, track, stats, reset}

-- A packet as Record takes it.
pub record Packet : Type 0 where
  pub ecn : ℕ
  pub seq_num : ℕ
  pub timestamp : ℕ

abbrev pub track_all : List Packet → EcnTracker → EcnTracker
track_all [] t = t
track_all (p ∷ ps) t = track_all ps (track p.ecn p.seq_num p.timestamp t)

-- The packets whose lower two bits are `c`.
abbrev pub marked : ℕ → List Packet → ℕ
marked c [] = 0
marked c (p ∷ ps) = (if p.ecn % 4 == c then 1 else 0) + marked c ps

-- Each packet is counted under one codepoint.
pub marked-length :
    (ps : List Packet) → marked 0 ps + marked 1 ps + marked 2 ps + marked 3 ps ≡ length ps
marked-length [] = refl
marked-length (p ∷ ps) = ground (arith, marked-length ps)

-- The tracker counts these packets, on top of what `t` has counted.
pub record Counted (ps : List Packet) (t u : EcnTracker) : Type 0 where
  pub ect0 : u.ect0_count ≡ u64 (t.ect0_count + marked 2 ps)
  pub ect1 : u.ect1_count ≡ u64 (t.ect1_count + marked 1 ps)
  pub ce : u.ce_count ≡ u64 (t.ce_count + marked 3 ps)
  pub not_ect : u.not_ect_count ≡ u64 (t.not_ect_count + marked 0 ps)
  pub total : u.total_packets ≡ u64 (t.total_packets + length ps)
  pub ssrc_same : u.ssrc ≡ t.ssrc

-- The counters are uint64.
pub record IsWord (t : EcnTracker) : Type 0 where
  pub ect0 : t.ect0_count < 2 ^ 64
  pub ect1 : t.ect1_count < 2 ^ 64
  pub ce : t.ce_count < 2 ^ 64
  pub not_ect : t.not_ect_count < 2 ^ 64
  pub total : t.total_packets < 2 ^ 64

track-Counted :
    (p : Packet) (t : EcnTracker)
    → IsWord t
    → Counted (p ∷ []) t (track p.ecn p.seq_num p.timestamp t)
unfolding track
track-Counted p t w = ground arith

track-IsWord :
    (p : Packet) (t : EcnTracker) → IsWord t → IsWord (track p.ecn p.seq_num p.timestamp t)
unfolding track
track-IsWord p t w = ground arith

track_all-Counted : (ps : List Packet) (t : EcnTracker) → IsWord t → Counted ps t (track_all ps t)
track_all-Counted [] t w = omega arith
track_all-Counted (p ∷ ps) t w =
    let one = track-Counted p t w in
    let rest = track_all-Counted ps (track p.ecn p.seq_num p.timestamp t) (track-IsWord p t w) in
    record {
      ect0 = omega (arith, one.ect0, rest.ect0);
      ect1 = omega (arith, one.ect1, rest.ect1);
      ce = omega (arith, one.ce, rest.ce);
      not_ect = omega (arith, one.not_ect, rest.not_ect);
      total = omega (arith, one.total, rest.total);
      ssrc_same = rest.ssrc_same ∙ one.ssrc_same;
    }

new_tracker-IsWord : (ssrc : ℕ) → IsWord (new_tracker ssrc)
unfolding new_tracker
new_tracker-IsWord ssrc = omega arith

reset-IsWord : (t : EcnTracker) → IsWord (reset t).1
unfolding reset
reset-IsWord t = omega arith

-- The counts of these packets, as Stats gives them.
abbrev pub counts : List Packet → ℕ × ℕ × ℕ × ℕ × ℕ
counts ps =
    (u64 (marked 2 ps), u64 (marked 1 ps), u64 (marked 3 ps), u64 (marked 0 ps), u64 (length ps))

stats-zero :
    (ps : List Packet) (t : EcnTracker)
    → IsWord t
    → stats t ≡ (0, 0, 0, 0, 0)
    → stats (track_all ps t) ≡ counts ps
unfolding stats
stats-zero ps t w h = ground (arith, track_all-Counted ps t w)

-- From a new tracker on, Stats gives how many of the recorded packets had each codepoint in their
-- lower two bits, and how many there were, each wrapped at 2 ^ 64.
pub stats-track_all :
    (ssrc : ℕ) (ps : List Packet) → stats (track_all ps (new_tracker ssrc)) ≡ counts ps
unfolding new_tracker stats
stats-track_all ssrc ps = stats-zero ps (new_tracker ssrc) (new_tracker-IsWord ssrc) refl

-- Reset hands over the counts of the packets before it, and Stats then counts those after it alone.
pub reset-track_all :
    (ssrc : ℕ) (ps qs : List Packet)
    → let (c, t) = reset (track_all ps (new_tracker ssrc)) in
      (c ≡ (u64 (marked 2 ps), u64 (marked 1 ps), u64 (marked 3 ps), u64 (marked 0 ps)))
      × (stats (track_all qs t) ≡ counts qs)
unfolding reset stats
reset-track_all ssrc ps qs =
    let before = stats-track_all ssrc ps in
    let t = track_all ps (new_tracker ssrc) in
    (
      ap (λ (c : ℕ × ℕ × ℕ × ℕ × ℕ). (c.0, c.1, c.2, c.3)) before,
      stats-zero qs (reset t).1 (reset-IsWord t) refl,
    )
