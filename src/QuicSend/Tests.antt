-- ===== src/QuicSend/Tests.antt =====
-- Runs of the sending loop.
use l4s_poc.Base.{◌≡◌, List, [], ◌∷◌, ◌++◌, false, some, ℕ, Option, All, arith, length}
use l4s_poc.Base.Int.{pos}
use l4s_poc.Base.Words.{i64}
use l4s_poc.Io.{Stream, IoError, feed, fail, fault}
use l4s_poc.Nal.{NalUnit}
use l4s_poc.AnnexB.{Reader, new_reader}
use l4s_poc.AnnexB.Sound.{IsNal}
use l4s_poc.AnnexB.Drain.{drain}
use l4s_poc.AnnexB.RoundTrip.{append_write}
use l4s_poc.QuicSend.{new_sender, send_loop}
use l4s_poc.QuicSend.Ends.{Ends, send_loop-Ends}
use l4s_poc.QuicSend.Frames.{frames, payload_bytes, why_stopped, send_loop-drain}

-- Two units, and an error of the input before the third.
abbrev input : Stream
input = feed (0 ∷ 0 ∷ 1 ∷ 103 ∷ 66 ∷ 0 ∷ 0 ∷ 1 ∷ 101 ∷ 8 ∷ 9 ∷ 0 ∷ 0 ∷ 1 ∷ []) (fail 4 ∷ [])

send_loop-drain_example :
    (out : List NalUnit × IoError) × (r : Reader) × (drain 17 (new_reader input) ≡ some out)
    × All IsNal out.0
    × (send_loop append_write (λ _. false) 17 0 (new_sender input [])
        ≡ some (
          why_stopped out.1,
          record {
            reader = r;
            conn = [] ++ frames out.0;
            nal_count = i64 (pos (length out.0));
            total_bytes = i64 (pos (payload_bytes out.0));
          },
        ))
send_loop-drain_example = send_loop-drain input [] 17 (omega arith)

-- A connection that refuses every write.
abbrev refuse : List ℕ → List ℕ → Option IoError × List ℕ
refuse w b = (some (fault 5), w)

send_loop-Ends_example : Ends (send_loop refuse (λ _. false) 17 0 (new_sender input []))
send_loop-Ends_example = send_loop-Ends refuse (λ _. false) input [] 17 (omega arith)
