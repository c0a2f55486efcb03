-- ===== src/SideChannel.antt =====
-- The side channel on which the receiver reports its bandwidth, as the senders read it:
-- cmd/quic-send/main.go lines 25 to 53 and 115 to 200, and the same handler in
-- cmd/webrtc-send/main.go. `float64` is a parameter `F`: the code only passes such values on here.
pub mod Loss
pub mod Spread
pub mod Messages
mod Tests
use l4s_poc.Base.{
  ℕ, ◌+◌, ◌-◌, ◌%◌, ◌^◌, List, [], ◌∷◌, Bool, true, false, Option, none, some, ltb, leb,
  if◌then◌else◌, length,
}
use l4s_poc.Base.Int.{ℤ, pos, negsuc, ◌+ℤ◌, ◌-ℤ◌, ltb_ℤ}
use l4s_poc.Base.Words.{u64, i64, signed64}

pub record BandwidthStats (F : Type 0) : Type 0 where
  pub seq : ℕ
  pub timestamp : ℤ
  pub bytes_recv : ℤ
  pub bitrate_kbps : F
  pub bitrate_mbps : F
  pub nal_count : ℤ
  pub elapsed_ms : ℤ

-- The variables `lastSeq`, `packetsLost`, `packetsReordered`.
pub record Sequence : Type 0 where
  pub last_seq : ℕ
  pub packets_lost : ℤ
  pub packets_reordered : ℤ

-- The variables `latencySum`, `latencyCount`, `latencyMin`, `latencyMax`.
pub record Latency : Type 0 where
  pub latency_sum : ℤ
  pub latency_count : ℤ
  pub latency_min : ℤ
  pub latency_max : ℤ

unfoldable pub new_sequence : Sequence
new_sequence = record { last_seq = 0; packets_lost = pos 0; packets_reordered = pos 0 }

unfoldable pub new_latency : Latency
new_latency = record {
  latency_sum = pos 0;
  latency_count = pos 0;
  latency_min = pos 999_999_999;
  latency_max = negsuc 999_999_998;
}

-- `stats.Seq > lastSeq+1` counts the numbers left out as lost, `stats.Seq <= lastSeq` counts a
-- report as reordered.
pub compare_seq : ℕ → Sequence → Sequence
compare_seq seq s =
    if ltb 0 s.last_seq
    then (if ltb (u64 (s.last_seq + 1)) seq
        then record s {
          packets_lost =
              i64 (s.packets_lost +ℤ signed64 (u64 (u64 (seq + 2 ^ 64 - s.last_seq) + 2 ^ 64 - 1)));
        }
        else if leb seq s.last_seq
        then record s { packets_reordered = i64 (s.packets_reordered +ℤ pos 1) }
        else s)
    else s

-- "Check for packet loss/reordering".
unfoldable pub track_seq : ℕ → Sequence → Sequence
unfolding compare_seq
track_seq seq s = if ltb 0 seq then record (compare_seq seq s) { last_seq = seq } else s

-- "Calculate one-way latency".
unfoldable pub track_latency : ℤ → Latency → Latency
track_latency latency l = record {
  latency_sum = i64 (l.latency_sum +ℤ latency);
  latency_count = i64 (l.latency_count +ℤ pos 1);
  latency_min = if ltb_ℤ latency l.latency_min then latency else l.latency_min;
  latency_max = if ltb_ℤ l.latency_max latency then latency else l.latency_max;
}

-- What the goroutine that reads datagrams keeps.
pub record Channel (F : Type 0) : Type 0 where
  pub is_open : Bool
  pub first : Bool
  pub start_time : ℤ
  pub bytes_recv : ℤ
  pub count : ℤ
  -- `none` is the zero value, before the first report.
  pub last_recv_stats : Option (BandwidthStats F)
  pub latency : Latency
  pub sequence : Sequence

module _ {F : Type 0} where
  -- The variables as they are declared at the time `now`.
  unfoldable pub new_channel : ℤ → Channel F
  unfolding new_latency new_sequence
  new_channel now = record {
    is_open = false;
    first = true;
    start_time = now;
    bytes_recv = pos 0;
    count = pos 0;
    last_recv_stats = none;
    latency = new_latency;
    sequence = new_sequence;
  }

  -- The block that holds the lock `lastRecvStatsMu`.
  unfoldable pub on_stats : ℤ → BandwidthStats F → Channel F → Channel F
  on_stats recv_time stats c = record c {
    last_recv_stats = some stats;
    latency = track_latency (i64 (recv_time -ℤ stats.timestamp)) c.latency;
    sequence = track_seq stats.seq c.sequence;
  }

  -- `dc.OnOpen` of webrtc-send.
  unfoldable pub on_open : ℤ → Channel F → Channel F
  on_open now c = record c { is_open = true; start_time = now }

  -- `parse` is `json.Unmarshal` into a BandwidthStats, `none` where it fails.
  module _ (parse : List ℕ → Option (BandwidthStats F)) where
    -- One round of the loop, on a datagram that `ReadDatagram` read at the time `now`.
    unfoldable pub on_datagram : ℤ → List ℕ → Channel F → Channel F
    on_datagram now bytes c =
        if ltb 0 (length bytes)
        then (let counted : Channel F = record c {
          is_open = if c.first then true else c.is_open;
          start_time = if c.first then now else c.start_time;
          first = false;
          bytes_recv = i64 (c.bytes_recv +ℤ pos (length bytes));
          count = i64 (c.count +ℤ pos 1);
        } in
            elim (parse bytes) [ some stats ↦ on_stats now stats counted | none ↦ counted ])
        else c

    -- `dc.OnMessage` of webrtc-send.
    unfoldable pub on_message : ℤ → List ℕ → Channel F → Channel F
    unfolding on_stats
    on_message now bytes c =
        (let counted : Channel F = record c {
          bytes_recv = i64 (c.bytes_recv +ℤ pos (length bytes));
          count = i64 (c.count +ℤ pos 1);
        } in
          elim (parse bytes) [ some stats ↦ on_stats now stats counted | none ↦ counted ])

    -- The datagrams arrive in this order, each at its time.
    unfoldable pub on_datagrams : List (ℤ × List ℕ) → Channel F → Channel F
    unfolding on_datagram
    on_datagrams [] c = c
    on_datagrams ((now, bytes) ∷ rest) c = on_datagrams rest (on_datagram now bytes c)

    -- The messages of webrtc-send.
    unfoldable pub on_messages : List (ℤ × List ℕ) → Channel F → Channel F
    unfolding on_message
    on_messages [] c = c
    on_messages ((now, bytes) ∷ rest) c = on_messages rest (on_message now bytes c)
