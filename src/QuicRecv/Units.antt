-- ===== src/QuicRecv/Units.antt =====
-- What the receiving loop makes of the frames on stream 0.
use l4s_poc.Base.{
  ℕ, zero, suc, ◌+◌, ◌^◌, ◌<◌, ◌≡◌, refl, sym, ap, ◌∙◌, List, [], true, false, ◌||◌, some, arith,
  ◌==◌, ltb, length, All,
}
use l4s_poc.Base.Int.{pos}
use l4s_poc.Base.Words.{i64}
use l4s_poc.Io.{Stream, feed, read_full}
use l4s_poc.Nal.{NalUnit}
use l4s_poc.AnnexB.RoundTrip.{append_write, write_all, write_all-encoded}
use l4s_poc.Frame.{put_uint32}
use l4s_poc.QuicSend.Frames.{frames, payload_bytes}
use l4s_poc.QuicRecv.{
  Receiver, stream_ended, invalid_length, stop, resume, max_nal_length, new_receiver, on_length,
  on_prefix, receive_loop,
}
use l4s_poc.QuicRecv.Rounds.{IsSendable, quiet_loop, on_prefix-length, opens-first, rounds}

-- What the receiver has written and counted after these units, with this of the stream left.
abbrev pub received : Stream → List ℕ → List NalUnit → Receiver (List ℕ)
received rest w ns = record {
  conn = rest;
  out = write_all w ns;
  nal_count = i64 (pos (length ns));
  total_bytes = i64 (pos (payload_bytes ns));
  is_open = ltb 0 (length ns);
}

from_start :
    (ns : List NalUnit) (rest : Stream) (w : List ℕ) (f : ℕ)
    → All IsSendable ns
    → length ns < f
    → (g : ℕ) × (j : ℕ) × (quiet_loop f 0 (new_receiver (feed (frames ns) rest) w)
        ≡ quiet_loop (suc g) j (received rest w ns))
unfolding new_receiver i64
from_start ns rest w f hs h =
    let (g, j, fuel, loop) = rounds ns rest f 0 w 0 0 false hs (omega arith) in
    positive g j fuel (
      loop ∙ (λ i. quiet_loop g j (record {
        conn = rest;
        out = sym (write_all-encoded w ns) i;
        nal_count = i64 (pos (zero_less (length ns) i));
        total_bytes = i64 (pos (zero_less (payload_bytes ns) i));
        is_open = opens-first ns i;
      })))
  where
    zero_less : (x : ℕ) → 0 + x ≡ x
    zero_less x = omega arith

    positive :
        (g j : ℕ)
        → g + length ns ≡ f
        → quiet_loop f 0 (new_receiver (feed (frames ns) rest) w)
          ≡ quiet_loop g j (received rest w ns)
        → (g : ℕ) × (j : ℕ) × (quiet_loop f 0 (new_receiver (feed (frames ns) rest) w)
            ≡ quiet_loop (suc g) j (received rest w ns))
    positive zero j fuel loop = absurd (omega arith)
    positive (suc g) j fuel loop = (g, j, loop)

ends_with_stream :
    (ns : List NalUnit) (w : List ℕ) (g j : ℕ)
    → quiet_loop (suc g) j (received [] w ns) ≡ some (stream_ended, received [] w ns)
unfolding receive_loop on_prefix read_full
ends_with_stream ns w g j = refl

-- The receiving loop, with no signal and an output that takes every write, reads from a stream that
-- holds the frames of units which are not empty and have at most 10 MiB each, and then ends: it
-- writes just these units, in order, as AnnexBWriter does, counts them and their bytes as int64
-- values, opens the data channel if there is one unit at least, and stops because the stream ended.
pub receive_loop-frames :
    (ns : List NalUnit) (w : List ℕ) (f : ℕ)
    → All IsSendable ns
    → length ns < f
    → receive_loop append_write (λ _. false) f 0 (new_receiver (feed (frames ns) []) w)
      ≡ some (stream_ended, received [] w ns)
receive_loop-frames ns w f hs h =
    let (g, j, loop) = from_start ns [] w f hs h in loop ∙ ends_with_stream ns w g j

-- A length prefix of 0 or of more than 10 MiB, behind such frames, stops the loop with the units
-- before it written and counted, and nothing read behind the prefix.
pub receive_loop-refused :
    (ns : List NalUnit) (n : ℕ) (rest : Stream) (w : List ℕ) (f : ℕ)
    → All IsSendable ns
    → (n == 0 || ltb max_nal_length n) ≡ true
    → n < 2 ^ 32
    → length ns < f
    → receive_loop append_write
        (λ _. false)
        f
        0
        (new_receiver (feed (frames ns) (feed (put_uint32 n) rest)) w)
      ≡ some (invalid_length n, received rest w ns)
unfolding receive_loop on_length
receive_loop-refused ns n rest w f hs bad fits h =
    let (g, j, loop) = from_start ns (feed (put_uint32 n) rest) w f hs h in
    loop ∙ ap (resume (quiet_loop g (j + 1))) (prefix ∙ refused)
  where
    refused :
        on_length append_write (received rest w ns) n ≡ stop (invalid_length n) (received rest w ns)
    refused = rw bad refl

    prefix :
        on_prefix append_write
          (received (feed (put_uint32 n) rest) w ns)
          (read_full 4 (feed (put_uint32 n) rest))
        ≡ on_length append_write (received rest w ns) n
    prefix =
        on_prefix-length n rest (feed (put_uint32 n) rest) (write_all w ns) (length ns)
          (payload_bytes ns) (ltb 0 (length ns)) fits
