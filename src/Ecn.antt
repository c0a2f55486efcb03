-- ===== src/Ecn.antt =====
-- The ECN codepoints and ECNTracker, pkg/l4s/interceptor.go lines 13 to 84. A mutex is taken for the
-- whole of each method, so that a method is one step.
pub mod Counts
mod Tests
use l4s_poc.Base.{ℕ, ◌+◌, ◌%◌, ◌^◌, ◌==◌, if◌then◌else◌}
use l4s_poc.Base.Words.{u64}

abbrev pub ecn_not_ect : ℕ
ecn_not_ect = 0

abbrev pub ecn_ect1 : ℕ
ecn_ect1 = 1

abbrev pub ecn_ect0 : ℕ
ecn_ect0 = 2

abbrev pub ecn_ce : ℕ
ecn_ce = 3

pub record EcnTracker : Type 0 where
  pub ssrc : ℕ
  pub ect0_count : ℕ
  pub ect1_count : ℕ
  pub ce_count : ℕ
  pub not_ect_count : ℕ
  pub total_packets : ℕ
  pub last_seq_num : ℕ
  pub last_timestamp : ℕ

unfoldable pub new_tracker : ℕ → EcnTracker
new_tracker ssrc = record {
  ssrc = ssrc;
  ect0_count = 0;
  ect1_count = 0;
  ce_count = 0;
  not_ect_count = 0;
  total_packets = 0;
  last_seq_num = 0;
  last_timestamp = 0;
}

-- The switch on `ecn & 0x03`, here `ecn % 4`.
pub count_codepoint : ℕ → EcnTracker → EcnTracker
count_codepoint ecn t =
    if ecn % 4 == ecn_not_ect
    then record t { not_ect_count = u64 (t.not_ect_count + 1) }
    else if ecn % 4 == ecn_ect1
    then record t { ect1_count = u64 (t.ect1_count + 1) }
    else if ecn % 4 == ecn_ect0
    then record t { ect0_count = u64 (t.ect0_count + 1) }
    else if ecn % 4 == ecn_ce
    then record t { ce_count = u64 (t.ce_count + 1) }
    else t

-- `Record`.
unfoldable pub track : ℕ → ℕ → ℕ → EcnTracker → EcnTracker
unfolding count_codepoint
track ecn seq_num timestamp t = count_codepoint ecn (record t {
  total_packets = u64 (t.total_packets + 1);
  last_seq_num = seq_num;
  last_timestamp = timestamp;
})

-- `Stats`: ECT(0), ECT(1), CE, not ECT, total.
unfoldable pub stats : EcnTracker → ℕ × ℕ × ℕ × ℕ × ℕ
stats t = (t.ect0_count, t.ect1_count, t.ce_count, t.not_ect_count, t.total_packets)

-- `CECount`.
unfoldable pub get_ce_count : EcnTracker → ℕ
get_ce_count t = t.ce_count

-- `Reset`: the counts so far, and the tracker with its counts at 0.
unfoldable pub reset : EcnTracker → (ℕ × ℕ × ℕ × ℕ) × EcnTracker
reset t = (
  (t.ect0_count, t.ect1_count, t.ce_count, t.not_ect_count),
  record t { ect0_count = 0; ect1_count = 0; ce_count = 0; not_ect_count = 0; total_packets = 0 },
)
