-- ===== src/Pipeline/Tests.antt =====
-- Runs of the sender and the receiver together.
use l4s_poc.Base.{ℕ, ◌≡◌, refl, List, [], ◌∷◌, false, some, All, arith, length}
use l4s_poc.Base.Int.{pos}
use l4s_poc.Base.Words.{i64}
use l4s_poc.Io.{Stream, feed, eof}
use l4s_poc.Nal.{NalUnit}
use l4s_poc.AnnexB.{Reader, write_nal}
use l4s_poc.AnnexB.StartCode.{contains3}
use l4s_poc.AnnexB.Sound.{IsNal}
use l4s_poc.AnnexB.RoundTrip.{append_write, write_all, drain-write_all}
use l4s_poc.QuicSend.{input_ended, new_sender, send_loop}
use l4s_poc.QuicSend.Frames.{frames, payload_bytes, why_stopped}
use l4s_poc.QuicRecv.{Receiver, stream_ended, new_receiver, receive_loop}
use l4s_poc.QuicRecv.Units.{received}
use l4s_poc.Pipeline.{IsShort, receive_loop-send_loop, receive_loop-write_all}

abbrev units : List NalUnit
units =
    record { unit_type = 7; payload = 103 ∷ 66 ∷ [] }
    ∷ record { unit_type = 5; payload = 101 ∷ 8 ∷ 9 ∷ [] }
    ∷ []

units-IsNal : All IsNal units
unfolding contains3
units-IsNal = (
  record { nonempty = omega arith; typed = omega arith; free = refl },
  (record { nonempty = omega arith; typed = omega arith; free = refl }, tt),
)

units-IsShort : All IsShort units
units-IsShort = (omega arith, (omega arith, tt))

-- The bytes `00 00 00 01 67 66 …`, as AnnexBWriter wrote them.
abbrev input : Stream
input = feed (write_all [] units) []

receive_loop-write_all_example :
    (r : Reader) × (sent : List ℕ) × (s : Receiver (List ℕ)) × (send_loop append_write
        (λ _. false)
        20
        0
        (new_sender input [])
      ≡ some (
        input_ended,
        record {
          reader = r;
          conn = sent;
          nal_count = i64 (pos (length units));
          total_bytes = i64 (pos (payload_bytes units));
        },
      ))
    × (receive_loop append_write (λ _. false) 3 0 (new_receiver (feed sent []) [])
        ≡ some (stream_ended, s))
    × (s.out ≡ write_all [] units)
unfolding write_all write_nal
receive_loop-write_all_example =
    receive_loop-write_all units 20 3 units-IsNal units-IsShort (omega arith) (omega arith)

receive_loop-send_loop_example :
    (r : Reader) × (send_loop append_write (λ _. false) 20 0 (new_sender input [])
      ≡ some (
        why_stopped eof,
        record {
          reader = r;
          conn = frames units;
          nal_count = i64 (pos (length units));
          total_bytes = i64 (pos (payload_bytes units));
        },
      ))
    × (receive_loop append_write (λ _. false) 3 0 (new_receiver (feed (frames units) []) [])
        ≡ some (stream_ended, received [] [] units))
unfolding write_all write_nal
receive_loop-send_loop_example =
    receive_loop-send_loop input 20 3 units eof (omega arith)
      (drain-write_all units 20 units-IsNal (omega arith)) units-IsShort (omega arith)
