-- ===== src/QuicSend/Frames.antt =====
-- What the sending loop puts on stream 0, and its counters.
use mathlib.Core.Option
use l4s_poc.Base.{
  ℕ, zero, suc, ◌+◌, ◌<◌, ◌≡◌, refl, sym, ap, ◌∙◌, List, [], ◌∷◌, ◌++◌, append-nil, append_assoc,
  false, ◌⊎◌, inl, inr, Option, some, arith, length, All,
}
use l4s_poc.Base.Int.{pos, ◌+ℤ◌, int_laws}
use l4s_poc.Base.Words.{i64, i64-add_i64}
use l4s_poc.Io.{IoError, eof, unexpected_eof, fault, Stream}
use l4s_poc.Nal.{NalUnit}
use l4s_poc.AnnexB.{Reader, ReadResult, got, stopped, read_nal, new_reader}
use l4s_poc.AnnexB.Sound.{
  IsNal, IsValid, Holds, remaining, read_nal_lem, read_nal-remaining, new_reader-IsValid,
  remaining-new_reader,
}
use l4s_poc.AnnexB.Drain.{drain, prepend, drain-got, drain-stop, drain_total}
use l4s_poc.AnnexB.RoundTrip.{append_write}
use l4s_poc.Frame.{put_uint32}
use l4s_poc.Frame.RoundTrip.{frame}
use l4s_poc.QuicSend.{
  Sender, Stop, input_ended, input_error, next, stop, resume, new_sender, on_data, on_length,
  on_read, send_loop,
}

-- The frames of these units.
abbrev pub frames : List NalUnit → List ℕ
frames [] = []
frames (n ∷ ns) = frame n.payload ++ frames ns

abbrev pub payload_bytes : List NalUnit → ℕ
payload_bytes [] = 0
payload_bytes (n ∷ ns) = length n.payload + payload_bytes ns

-- Why the loop stops on this error of the reader.
abbrev pub why_stopped : IoError → Stop
why_stopped eof = input_ended
why_stopped unexpected_eof = input_error unexpected_eof
why_stopped (fault e) = input_error (fault e)

-- A sender that has sent `a` units of `b` bytes.
abbrev pub progress : {W : Type 0} → Reader → W → ℕ → ℕ → Sender W
progress r w a b = record {
  reader = r;
  conn = w;
  nal_count = i64 (pos a);
  total_bytes = i64 (pos b);
}

pub count_up : (a b : ℕ) → i64 (i64 (pos a) +ℤ pos b) ≡ i64 (pos (a + b))
count_up a b = i64-add_i64 (pos a) (pos b) ∙ ap i64 (omega int_laws)

on_read-got :
    (r r' : Reader) (w : List ℕ) (a b : ℕ) (n : NalUnit)
    → on_read append_write (progress r w a b) (got n, r')
      ≡ next (progress r' (w ++ frame n.payload) (a + 1) (b + length n.payload))
unfolding on_read on_length on_data
on_read-got r r' w a b n = λ i. next (record {
  reader = r';
  conn = append_assoc w (put_uint32 (length n.payload)) n.payload i;
  nal_count = count_up a 1 i;
  total_bytes = count_up b (length n.payload) i;
})

on_read-stopped :
    (r r' : Reader) (w : List ℕ) (a b : ℕ) (e : IoError)
    → on_read append_write (progress r w a b) (stopped e, r')
      ≡ stop (why_stopped e) (progress r' w a b)
unfolding on_read
on_read-stopped r r' w a b eof = refl
on_read-stopped r r' w a b unexpected_eof = refl
on_read-stopped r r' w a b (fault e) = refl

abbrev quiet_loop : ℕ → ℕ → Sender (List ℕ) → Option (Stop × Sender (List ℕ))
quiet_loop = send_loop append_write (λ _. false)

-- The loop's end: the units that were read, and what became of them.
abbrev Sent : ℕ → ℕ → Reader → List ℕ → ℕ → ℕ → Type 0
Sent f k r w a b =
    (out : List NalUnit × IoError) × (r' : Reader) × (drain f r ≡ some out)
    × (quiet_loop f k (progress r w a b)
        ≡ some (
          why_stopped out.1,
          progress r' (w ++ frames out.0) (a + length out.0) (b + payload_bytes out.0),
        ))

Sent-none :
    (f k : ℕ) (r r' : Reader) (w : List ℕ) (a b : ℕ) (e : IoError)
    → read_nal r ≡ (stopped e, r')
    → Sent (suc f) k r w a b
unfolding send_loop
Sent-none f k r r' w a b e eq = (
  ([], e),
  r',
  drain-stop f r r' e eq,
  ap (λ p. resume (quiet_loop f (k + 1)) (on_read append_write (progress r w a b) p)) eq
      ∙ ap (resume (quiet_loop f (k + 1))) (on_read-stopped r r' w a b e)
      ∙ (λ i.
          some (why_stopped e, progress r' (sym (append-nil w) i) (zero_more a i) (zero_more b i))),
)
  where
    zero_more : (x : ℕ) → x ≡ x + 0
    zero_more x = omega arith

Sent-more :
    (f k : ℕ) (r r' : Reader) (w : List ℕ) (a b : ℕ) (n : NalUnit)
    → read_nal r ≡ (got n, r')
    → Sent f (k + 1) r' (w ++ frame n.payload) (a + 1) (b + length n.payload)
    → Sent (suc f) k r w a b
unfolding send_loop
Sent-more f k r r' w a b n eq (out, last, run, loop) = (
  (n ∷ out.0, out.1),
  last,
  drain-got f r r' n eq ∙ ap (Option.map (prepend n)) run,
  ap (λ p. resume (quiet_loop f (k + 1)) (on_read append_write (progress r w a b) p)) eq
      ∙ ap (resume (quiet_loop f (k + 1))) (on_read-got r r' w a b n)
      ∙ loop
      ∙ (λ i. some (
        why_stopped out.1,
        progress last (append_assoc w (frame n.payload) (frames out.0) i)
            (one_more a (length out.0) i) (assoc b (length n.payload) (payload_bytes out.0) i),
      )),
)
  where
    assoc : (x y z : ℕ) → x + y + z ≡ x + (y + z)
    assoc x y z = omega arith

    one_more : (x z : ℕ) → x + 1 + z ≡ x + suc z
    one_more x z = omega arith

loop_lem :
    (f k : ℕ) (r : Reader) (w : List ℕ) (a b : ℕ) → IsValid r → remaining r < f → Sent f k r w a b
loop_lem zero k r w a b v h = elim h [ ]
loop_lem (suc f) k r w a b v h =
    go (read_nal r) refl (read_nal_lem r v) (read_nal-remaining r v)
      (λ r' w' a' b'. loop_lem f (k + 1) r' w' a' b')
  where
    go :
        (p : ReadResult × Reader)
        → read_nal r ≡ p
        → Holds p
        → (p.0 ≡ stopped eof) ⊎ (remaining p.1 < remaining r)
        → ((r' : Reader) (w' : List ℕ) (a' b' : ℕ)
            → IsValid r'
            → remaining r' < f
            → Sent f (k + 1) r' w' a' b')
        → Sent (suc f) k r w a b
    go (stopped x, r') e ok less rec = Sent-none f k r r' w a b x e
    go (got n, r') e ok (inl end) rec = cc
    go (got n, r') e ok (inr less) rec =
        Sent-more f k r r' w a b n e (rec r' _ _ _ ok.1 (omega arith))

-- The sending loop, over a connection that takes every write and with no signal, ends whatever the
-- input stream gives, in fewer rounds than the stream has bytes and errors and two more. By then
-- the connection has got, after what it held, the frames of just the units that AnnexBReader reads
-- from the input, in order; the counters are their number and their bytes as int64 values; and the
-- loop has stopped for the reader's last answer.
pub send_loop-drain :
    (src : Stream) (w : List ℕ) (f : ℕ)
    → length src + 1 < f
    → (out : List NalUnit × IoError) × (r : Reader) × (drain f (new_reader src) ≡ some out)
      × All IsNal out.0
      × (send_loop append_write (λ _. false) f 0 (new_sender src w)
          ≡ some (
            why_stopped out.1,
            record {
              reader = r;
              conn = w ++ frames out.0;
              nal_count = i64 (pos (length out.0));
              total_bytes = i64 (pos (payload_bytes out.0));
            },
          ))
unfolding new_sender i64
send_loop-drain src w f enough =
    let v = new_reader-IsValid src in
    let h : remaining (new_reader src) < f = rw (remaining-new_reader src) enough in
    let (out, r, run, loop) = loop_lem f 0 (new_reader src) w 0 0 v h in
    let (out', run', good) = drain_total f (new_reader src) v h in
    let eq : out' ≡ out = cc in
    (
      out,
      r,
      run,
      rw (sym eq) good,
      loop ∙ (λ i. some (
        why_stopped out.1,
        progress r (w ++ frames out.0) (zero_less (length out.0) i)
            (zero_less (payload_bytes out.0) i),
      )),
    )
  where
    zero_less : (x : ℕ) → 0 + x ≡ x
    zero_less x = omega arith
