-- ===== src/Interceptor/Marks.antt =====
-- Which marks are counted as congestion, and which call the feedback callback.
use l4s_poc.Base.{
  ℕ, ◌+◌, ◌%◌, ◌≤◌, ◌≡◌, ◌≢◌, refl, ◌∙◌, ap, List, Option, none, some, arith, length, le→leb, ==-ne,
}
use l4s_poc.Base.Words.{u64}
use l4s_poc.Ecn.{EcnTracker, track}
use l4s_poc.Interceptor.{
  Interceptor, BoundReader, value, packet, seq_num_of, timestamp_of, feedback,
}
use l4s_poc.Interceptor.Streams.{effect}

feedback-ne :
    (cb : Option (ℕ → EcnTracker → EcnTracker)) (ssrc ecn : ℕ) (t : EcnTracker)
    → ecn ≢ 3
    → feedback cb ssrc ecn t ≡ t
unfolding feedback
feedback-ne none ssrc ecn t h = refl
feedback-ne (some cb) ssrc ecn t h = rw (==-ne ecn 3 h)

track-ce :
    (ecn seq timestamp : ℕ) (t : EcnTracker)
    → ecn % 4 ≡ 3
    → (track ecn seq timestamp t).ce_count ≡ u64 (t.ce_count + 1)
unfolding track
track-ce ecn seq timestamp t h = ground arith

-- An attribute with higher bits set beside a CE mark, such as a whole TOS byte, is counted as CE by
-- the tracker, but calls no feedback callback, whichever is set.
pub effect-ce_masked :
    (r : BoundReader) (buf : List ℕ) (ecn : ℕ) (i : Interceptor) (t : EcnTracker)
    → 12 ≤ length buf
    → ecn % 4 ≡ 3
    → ecn ≢ 3
    → let u = effect r (packet buf (value ecn)) i t in
      (u ≡ track ecn (seq_num_of buf) (timestamp_of buf) t) × (u.ce_count ≡ u64 (t.ce_count + 1))
effect-ce_masked r buf ecn i t long mask ne =
    let same : effect r (packet buf (value ecn)) i t
        ≡ track ecn (seq_num_of buf) (timestamp_of buf) t =
      rw (le→leb 12 (length buf) long) (
        feedback-ne i.on_feedback r.ssrc ecn (track ecn (seq_num_of buf) (timestamp_of buf) t)
          ne) in
    (
      same,
      ap (λ (u : EcnTracker). u.ce_count) same
          ∙ track-ce ecn (seq_num_of buf) (timestamp_of buf) t mask,
    )
