-- ===== src/Webrtc.antt =====
-- The video path over WebRTC: how cmd/webrtc-send/main.go sends the NAL units that it reads, and how
-- the track handler of cmd/webrtc-recv/main.go puts them together again. The codecs of pion are
-- parameters, as are the tracks: `write_rtp` is `videoTrack.WriteRTP`.
pub mod States
pub mod Panics
pub mod Waiting
pub mod Whip
pub mod Offer
pub mod Program
pub mod Sending
pub mod Units
pub mod Reassembly
mod Tests
use l4s_poc.Base.{
  ℕ, zero, suc, ◌+◌, List, [], ◌∷◌, ◌++◌, Bool, ◌||◌, Option, none, some, ◌==◌, ltb, if◌then◌else◌,
  length,
}
use l4s_poc.Base.Int.{ℤ, pos, ◌+ℤ◌}
use l4s_poc.Base.Words.{i64}
use l4s_poc.Io.{IoError, eof, unexpected_eof, fault}
use l4s_poc.Nal.{NalUnit}
use l4s_poc.AnnexB.{Reader, ReadResult, got, stopped, read_nal, write_nal}
use l4s_poc.Rtp.{Packet, Packetizer, next_timestamp, packetize}

-- The variables of the sending loop.
pub record Sender (P W : Type 0) : Type 0 where
  pub reader : Reader
  pub packetizer : Packetizer P
  pub track : W
  pub nal_count : ℤ
  pub total_bytes : ℤ

-- Why the loop ends.
pub data Stop : Type 0 where
  interrupted input_ended : Stop
  input_error : IoError → Stop

pub data Round (P W : Type 0) : Type 0 where
  next : Sender P W → Round P W
  stop : Stop → Sender P W → Round P W

abbrev pub resume :
    {P W : Type 0}
    → (Sender P W → Option (Stop × Sender P W))
    → Round P W
    → Option (Stop × Sender P W)
resume k (next st) = k st
resume k (stop why st) = some (why, st)

module _ {P W : Type 0} (payload : ℕ → List ℕ → P → List (List ℕ) × P)
    (write_rtp : W → Packet → Option IoError × W) (frame_duration_ms : ℕ) where
  -- "Send each RTP packet": the first error ends the inner loop, and is only logged.
  unfoldable pub write_packets : List Packet → W → W
  write_packets [] w = w
  write_packets (k ∷ ks) w =
      let (failed, w') = write_rtp w k in elim failed [ some e ↦ w' | none ↦ write_packets ks w' ]

  -- The loop's body after a unit has been read.
  unfoldable pub send_unit : NalUnit → Sender P W → Sender P W
  unfolding write_packets
  send_unit n st =
      let ((packets, keyframe), p) = packetize payload n st.packetizer in
      record st {
        packetizer =
            if keyframe || n.unit_type == 1 || n.unit_type == 5
            then next_timestamp frame_duration_ms p
            else p;
        track = write_packets packets st.track;
        nal_count = i64 (st.nal_count +ℤ pos 1);
        total_bytes = i64 (st.total_bytes +ℤ pos (length n.payload));
      }

  unfoldable pub on_read : Sender P W → ReadResult × Reader → Round P W
  unfolding send_unit
  on_read st (stopped eof, r) = stop input_ended (record st { reader = r })
  on_read st (stopped unexpected_eof, r) =
      stop (input_error unexpected_eof) (record st { reader = r })
  on_read st (stopped (fault e), r) = stop (input_error (fault e)) (record st { reader = r })
  on_read st (got n, r) = next (send_unit n (record st { reader = r }))

  module _ (signalled : ℕ → Bool) where
    -- The loop from round `k` on. `none` means that the fuel ran out.
    unfoldable pub send_loop : ℕ → ℕ → Sender P W → Option (Stop × Sender P W)
    unfolding on_read
    send_loop zero k st = none
    send_loop (suc f) k st =
        if signalled k
        then some (interrupted, st)
        else resume (send_loop f (k + 1)) (on_read st (read_nal st.reader))

-- The variables of the track handler; `D` is the state of the H264Packet.
pub record Receiver (D W : Type 0) : Type 0 where
  pub depacketizer : D
  pub nal_buffer : List ℕ
  pub out : W
  pub nal_count : ℤ
  pub total_bytes : ℤ

module _ {D W : Type 0} (unmarshal : List ℕ → D → Option (List ℕ) × D)
    (write : W → List ℕ → Option IoError × W) where
  -- The buffer is written as one NAL unit, whose type is left at 0; an error is only logged.
  unfoldable pub write_buffer : Receiver D W → Receiver D W
  write_buffer st =
      let (_, w) = write_nal write st.out (record { unit_type = 0; payload = st.nal_buffer }) in
      record st {
        out = w;
        nal_buffer = [];
        nal_count = i64 (st.nal_count +ℤ pos 1);
        total_bytes = i64 (st.total_bytes +ℤ pos (length st.nal_buffer));
      }

  -- `if len(nalBuffer) > 0`, within the loop and behind it.
  unfoldable pub flush_buffer : Receiver D W → Receiver D W
  unfolding write_buffer
  flush_buffer st = if ltb 0 (length st.nal_buffer) then write_buffer st else st

  -- What becomes of the data that a packet held, or of the error in it.
  unfoldable pub accumulate : Bool → Receiver D W → Option (List ℕ) × D → Receiver D W
  unfolding flush_buffer
  accumulate marker st (none, d) = record st { depacketizer = d }
  accumulate marker st (some nal_data, d) =
      let grown : Receiver D W = record st {
        depacketizer = d;
        nal_buffer = st.nal_buffer ++ nal_data;
      } in
      if marker then flush_buffer grown else grown

  -- The loop's body after `track.ReadRTP()` gave a packet.
  unfoldable pub on_packet : Packet → Receiver D W → Receiver D W
  unfolding accumulate
  on_packet k st = accumulate k.marker st (unmarshal k.payload st.depacketizer)

  -- The loop, over the packets that the track gives until it ends or fails.
  unfoldable pub on_packets : List Packet → Receiver D W → Receiver D W
  unfolding on_packet
  on_packets [] st = st
  on_packets (k ∷ ks) st = on_packets ks (on_packet k st)

  -- The whole handler.
  unfoldable pub on_track : List Packet → Receiver D W → Receiver D W
  unfolding on_packets flush_buffer
  on_track ks st = flush_buffer (on_packets ks st)
