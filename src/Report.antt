-- ===== src/Report.antt =====
-- The goroutines that report the bandwidth over the side channel: cmd/quic-recv/main.go lines 124 to
-- 184, and cmd/webrtc-recv/main.go lines 192 to 249. `marshal` is `json.Marshal` of a report, `none`
-- where it fails; `write` is `WriteDatagram` of the picoquic connection, or `Send` of the WebRTC data
-- channel. What a tick reads from the clock and the shared counters is a `Reading`.
pub mod Delivery
mod Tests
use l4s_poc.Base.{
  ℕ, ◌+◌, List, [], ◌∷◌, ◌++◌, Bool, true, false, Option, none, some, if◌then◌else◌, length, map,
}
use l4s_poc.Base.Int.{ℤ, pos, ◌+ℤ◌}
use l4s_poc.Base.Words.{u64, i64}
use l4s_poc.Io.{IoError}
use l4s_poc.Floats.{Floats, mbps, milliseconds}
use l4s_poc.SideChannel.{BandwidthStats}

pub record Reading : Type 0 where
  pub total_bytes : ℤ
  pub nal_count : ℤ
  -- The time since `startTime`.
  pub elapsed : ℤ
  -- `time.Now().UnixMilli()`.
  pub now : ℤ

-- What the `select` of the loop sees: the closed channel `datagramStop`, or a tick.
pub data Event (R : Type 0) : Type 0 where
  stopped : Event R
  tick : R → Event R

pub record Reporter (W : Type 0) : Type 0 where
  pub conn : W
  pub last_seq : ℕ
  pub bytes_sent : ℤ
  pub count : ℤ

-- The goroutine waits for the next event, or has returned.
pub data Progress (W : Type 0) : Type 0 where
  waiting : Reporter W → Progress W
  returned : Reporter W → Progress W

abbrev pub resume : {W : Type 0} → (Reporter W → Progress W) → Progress W → Progress W
resume k (waiting r) = k r
resume k (returned r) = returned r

abbrev pub reporter_of : {W : Type 0} → Progress W → Reporter W
reporter_of (waiting r) = r
reporter_of (returned r) = r

unfoldable pub new_reporter : {W : Type 0} → W → Reporter W
new_reporter conn = record { conn = conn; last_seq = 0; bytes_sent = pos 0; count = pos 0 }

module _ {F : Type 0} (f : Floats F) where
  -- The report of quic-recv.
  unfoldable pub report : ℕ → Reading → BandwidthStats F
  unfolding mbps milliseconds
  report number r =
      let rate = mbps f r.total_bytes r.elapsed in
      record {
        seq = number;
        timestamp = r.now;
        bytes_recv = r.total_bytes;
        bitrate_kbps = f.product rate (f.of_int (pos 1000));
        bitrate_mbps = rate;
        nal_count = r.nal_count;
        elapsed_ms = milliseconds r.elapsed;
      }

  -- The report of webrtc-recv, with `firstPacket`: while it is set no time has passed.
  unfoldable pub track_report : ℕ → Bool × Reading → BandwidthStats F
  unfolding mbps milliseconds
  track_report number (first_packet, r) =
      let rate : F = if first_packet then f.of_int (pos 0) else mbps f r.total_bytes r.elapsed in
      record {
        seq = number;
        timestamp = r.now;
        bytes_recv = r.total_bytes;
        bitrate_kbps = f.product rate (f.of_int (pos 1000));
        bitrate_mbps = rate;
        nal_count = r.nal_count;
        elapsed_ms = if first_packet then pos 0 else milliseconds r.elapsed;
      }

module _ {W : Type 0} where
  -- After the datagram has been written; an error ends the goroutine.
  unfoldable pub on_sent : Reporter W → ℕ → Option IoError × W → Progress W
  on_sent r n (some e, w) = returned (record r { conn = w })
  on_sent r n (none, w) = waiting (record r {
    conn = w;
    bytes_sent = i64 (r.bytes_sent +ℤ pos n);
    count = i64 (r.count +ℤ pos 1);
  })

module _ {F W : Type 0} (marshal : BandwidthStats F → Option (List ℕ))
    (write : W → List ℕ → Option IoError × W) where
  -- After `json.Marshal(stats)`; where it fails the report is left out.
  unfoldable pub on_marshalled : Reporter W → Option (List ℕ) → Progress W
  unfolding on_sent
  on_marshalled r none = waiting r
  on_marshalled r (some bytes) = on_sent r (length bytes) (write r.conn bytes)

  -- `make` is `report` or `track_report`.
  module _ {R : Type 0} (make : ℕ → R → BandwidthStats F) where
    -- One round of the loop; `seq` is advanced before anything can fail.
    unfoldable pub on_event : Reporter W → Event R → Progress W
    unfolding on_marshalled
    on_event r stopped = returned r
    on_event r (tick reading) =
        let seq = u64 (r.last_seq + 1) in
        on_marshalled (record r { last_seq = seq }) (marshal (make seq reading))

    unfoldable pub report_loop : List (Event R) → Reporter W → Progress W
    unfolding on_event
    report_loop [] r = waiting r
    report_loop (e ∷ es) r = resume (report_loop es) (on_event r e)

  -- The loop of webrtc-recv, over the ticks: nothing ends it but an error of `Send`.
  unfoldable pub track_report_loop : Floats F → List (Bool × Reading) → Reporter W → Progress W
  unfolding report_loop track_report
  track_report_loop f ticks r = report_loop (track_report f) (map tick ticks) r
