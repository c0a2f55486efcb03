-- ===== src/Pipeline.antt =====
-- cmd/quic-send/main.go and cmd/quic-recv/main.go together: what the receiver reads from stream 0 is
-- what the sender wrote there. The Makefile's test pipes an Annex B file through the two and compares.
mod Tests
use l4s_poc.Base.{
  ℕ, ◌+◌, ◌<◌, ◌≤◌, ◌≡◌, refl, ap, List, [], ◌∷◌, ◌++◌, false, Option, none, some, arith, length,
  All, length-append,
}
use l4s_poc.Base.Int.{pos}
use l4s_poc.Base.Words.{i64}
use l4s_poc.Io.{IoError, eof, Stream, feed}
use l4s_poc.Nal.{NalUnit, start_code}
use l4s_poc.AnnexB.{Reader, new_reader}
use l4s_poc.AnnexB.Sound.{IsNal}
use l4s_poc.AnnexB.Drain.{drain}
use l4s_poc.AnnexB.RoundTrip.{append_write, write_all, encoded, write_all-encoded, drain-write_all}
use l4s_poc.QuicSend.{input_ended, new_sender, send_loop}
use l4s_poc.QuicSend.Frames.{frames, payload_bytes, why_stopped, send_loop-drain}
use l4s_poc.QuicRecv.{Receiver, stream_ended, max_nal_length, new_receiver, receive_loop}
use l4s_poc.QuicRecv.Rounds.{IsSendable}
use l4s_poc.QuicRecv.Units.{received, receive_loop-frames}

abbrev pub IsShort : NalUnit → Type 0
IsShort n = length n.payload ≤ max_nal_length

sendable : (ns : List NalUnit) → All IsNal ns → All IsShort ns → All IsSendable ns
sendable [] hs short = tt
sendable (n ∷ ns) hs short = ((hs.0.nonempty, short.0), sendable ns hs.1 short.1)

-- If AnnexBReader reads these units from the sender's input, then the sending loop ends, the
-- receiving loop ends on what it has sent, and the receiver has written just these units as
-- AnnexBWriter does; the counters of the two sides agree. The condition is that no unit is above the
-- receiver's 10 MiB; the connection takes every write, there is no signal, and the loops have the
-- fuel that the input's length and the number of units set.
pub receive_loop-send_loop :
    (src : Stream) (f g : ℕ) (ns : List NalUnit) (e : IoError)
    → length src + 1 < f
    → drain f (new_reader src) ≡ some (ns, e)
    → All IsShort ns
    → length ns < g
    → (r : Reader) × (send_loop append_write (λ _. false) f 0 (new_sender src [])
        ≡ some (
          why_stopped e,
          record {
            reader = r;
            conn = frames ns;
            nal_count = i64 (pos (length ns));
            total_bytes = i64 (pos (payload_bytes ns));
          },
        ))
      × (receive_loop append_write (λ _. false) g 0 (new_receiver (feed (frames ns) []) [])
          ≡ some (stream_ended, received [] [] ns))
receive_loop-send_loop src f g ns e enough run short more =
    let (out, r, run', good, sent) = send_loop-drain src [] f enough in
    let eq : out ≡ (ns, e) = cc in
    let good' : All IsNal ns = rw eq at good in
    (r, rw eq at sent, receive_loop-frames ns [] g (sendable ns good' short) more)

length-feed : (bytes : List ℕ) → length (feed bytes []) ≡ length bytes
length-feed [] = refl
length-feed (b ∷ bytes) = rw (length-feed bytes)

length-encoded : (ns : List NalUnit) → length ns ≤ length (encoded ns)
length-encoded [] = omega arith
length-encoded (n ∷ ns) = omega (
  arith,
  length-encoded ns,
  length-append start_code (n.payload ++ encoded ns),
  length-append n.payload (encoded ns),
)

-- An input that AnnexBWriter wrote comes out of the receiver as it was, byte for byte, when its
-- units are not empty, typed by their header bytes, free of start codes and of at most 10 MiB: the
-- output of the receiving loop is the sender's input, and both loops stop for the end of theirs.
pub receive_loop-write_all :
    (ns : List NalUnit) (f g : ℕ)
    → All IsNal ns
    → All IsShort ns
    → length (write_all [] ns) + 1 < f
    → length ns < g
    → (r : Reader) × (sent : List ℕ) × (s : Receiver (List ℕ)) × (send_loop append_write
          (λ _. false)
          f
          0
          (new_sender (feed (write_all [] ns) []) [])
        ≡ some (
          input_ended,
          record {
            reader = r;
            conn = sent;
            nal_count = i64 (pos (length ns));
            total_bytes = i64 (pos (payload_bytes ns));
          },
        ))
      × (receive_loop append_write (λ _. false) g 0 (new_receiver (feed sent []) [])
          ≡ some (stream_ended, s))
      × (s.out ≡ write_all [] ns)
receive_loop-write_all ns f g hs short enough more =
    let fuel : length ns + 1 < f =
      omega (arith, length-encoded ns, ap length (write_all-encoded [] ns), enough) in
    let run = drain-write_all ns f hs fuel in
    let big : length (feed (write_all [] ns) []) + 1 < f =
      rw (length-feed (write_all [] ns)) enough in
    let (r, sent, got) =
      receive_loop-send_loop (feed (write_all [] ns) []) f g ns eof big run short more in
    (r, frames ns, received [] [] ns, sent, got, refl)
