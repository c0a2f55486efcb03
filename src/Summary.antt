-- ===== src/Summary.antt =====
-- The summaries that the senders print: cmd/quic-send/main.go lines 36 to 59, 216 to 288 and 351 to
-- 402, and the same code in cmd/webrtc-send/main.go. The figures of the receiver's reports come from
-- the side channel.
pub mod Figures
mod Tests
use l4s_poc.Base.{Bool, true, false, ◌&&◌, Option, none, some, if◌then◌else◌}
use l4s_poc.Base.Int.{ℤ, pos, ◌-ℤ◌, ltb_ℤ}
use l4s_poc.Base.Words.{i64}
use l4s_poc.Floats.{Floats, mbps, average, milliseconds}
use l4s_poc.SideChannel.{BandwidthStats, Channel, Latency, Sequence}

pub record Summary (F : Type 0) : Type 0 where
  pub sender_bytes : ℤ
  pub sender_bitrate : F
  pub sender_elapsed_ms : ℤ
  pub receiver_bytes : ℤ
  pub receiver_bitrate : F
  pub data_channel_mbps : F
  pub latency_avg : F
  pub latency_min : ℤ
  pub latency_max : ℤ
  pub latency_samples : ℤ
  pub packets_lost : ℤ
  pub packets_reordered : ℤ

module _ {F : Type 0} (f : Floats F) where
  -- The zero value of `lastRecvStats`, or the last report.
  unfoldable pub last_report : Option (BandwidthStats F) → BandwidthStats F
  last_report (some stats) = stats
  last_report none = record {
    seq = 0;
    timestamp = pos 0;
    bytes_recv = pos 0;
    bitrate_kbps = f.of_int (pos 0);
    bitrate_mbps = f.of_int (pos 0);
    nal_count = pos 0;
    elapsed_ms = pos 0;
  }

  -- The summary of so many bytes sent at a rate in the time `elapsed`, with what the side channel has
  -- so long after `datagramStartTime`.
  unfoldable pub summary : ℤ → F → ℤ → ℤ → Channel F → Summary F
  unfolding last_report mbps average milliseconds
  summary bytes rate elapsed since_start c = record {
    sender_bytes = bytes;
    sender_bitrate = rate;
    sender_elapsed_ms = milliseconds elapsed;
    receiver_bytes = (last_report c.last_recv_stats).bytes_recv;
    receiver_bitrate = (last_report c.last_recv_stats).bitrate_mbps;
    data_channel_mbps = mbps f c.bytes_recv since_start;
    latency_avg = average f c.latency.latency_sum c.latency.latency_count;
    latency_min = c.latency.latency_min;
    latency_max = c.latency.latency_max;
    latency_samples = c.latency.latency_count;
    packets_lost = c.sequence.packets_lost;
    packets_reordered = c.sequence.packets_reordered;
  }

  -- A tick of the goroutine that prints every second; nothing while the data channel is not open.
  unfoldable pub periodic : ℤ → ℤ → ℤ → Channel F → Option (Summary F)
  unfolding summary mbps
  periodic bytes elapsed since_start c =
      if c.is_open then some (summary bytes (mbps f bytes elapsed) elapsed since_start c) else none

  -- At the end of the program; here the rate needs bytes as well as time.
  unfoldable pub final_summary : ℤ → ℤ → ℤ → Channel F → Summary F
  unfolding summary mbps
  final_summary bytes elapsed since_start c =
      summary bytes (if ltb_ℤ (pos 0) bytes then mbps f bytes elapsed else f.of_int (pos 0)) elapsed
        since_start c
