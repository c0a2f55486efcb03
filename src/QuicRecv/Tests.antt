-- ===== src/QuicRecv/Tests.antt =====
-- Runs of the receiving loop.
use l4s_poc.Base.{◌≡◌, List, [], ◌∷◌, false, some, All, arith}
use l4s_poc.Io.{feed}
use l4s_poc.Nal.{NalUnit}
use l4s_poc.AnnexB.RoundTrip.{append_write}
use l4s_poc.QuicSend.Frames.{frames}
use l4s_poc.QuicRecv.{stream_ended, new_receiver, receive_loop}
use l4s_poc.QuicRecv.Rounds.{IsSendable}
use l4s_poc.QuicRecv.Units.{received, receive_loop-frames}

abbrev units : List NalUnit
units =
    record { unit_type = 7; payload = 103 ∷ 66 ∷ [] }
    ∷ record { unit_type = 5; payload = 101 ∷ 8 ∷ 9 ∷ [] }
    ∷ []

units-IsSendable : All IsSendable units
units-IsSendable = ((omega arith, omega arith), ((omega arith, omega arith), tt))

receive_loop-frames_example :
    receive_loop append_write (λ _. false) 3 0 (new_receiver (feed (frames units) []) [])
    ≡ some (stream_ended, received [] [] units)
receive_loop-frames_example = receive_loop-frames units [] 3 units-IsSendable (omega arith)
