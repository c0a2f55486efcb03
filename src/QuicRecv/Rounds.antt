-- ===== src/QuicRecv/Rounds.antt =====
-- Rounds of the receiving loop on frames that it takes.
use l4s_poc.Base.{
  ℕ, zero, suc, ◌+◌, ◌^◌, ◌≤◌, ◌<◌, ◌≡◌, refl, sym, ap, ◌∙◌, List, [], ◌∷◌, ◌++◌, append-nil,
  append_assoc, Bool, true, false, ◌||◌, Option, arith, ◌==◌, ltb, length, All,
}
use l4s_poc.Base.Int.{ℤ, pos, negsuc}
use l4s_poc.Base.Words.{i64}
use l4s_poc.Io.{Stream, feed, ok, read_full}
use l4s_poc.Io.ReadFull.{feed-append, read_full-feed}
use l4s_poc.Nal.{NalUnit, nal_of, start_code}
use l4s_poc.AnnexB.{write_nal}
use l4s_poc.AnnexB.RoundTrip.{append_write, encoded}
use l4s_poc.Frame.{put_uint32, get_uint32}
use l4s_poc.Frame.RoundTrip.{get_uint32-put_uint32, length-put_uint32, frame}
use l4s_poc.QuicSend.Frames.{frames, payload_bytes, count_up}
use l4s_poc.QuicRecv.{
  Receiver, Stop, next, resume, max_nal_length, opened, on_write, on_data, on_length, on_prefix,
  receive_loop,
}

-- A unit that the receiver takes: not empty, and of at most 10 MiB.
abbrev pub IsSendable : NalUnit → Type 0
IsSendable n = (0 < length n.payload) × (length n.payload ≤ max_nal_length)

-- A receiver that has got `a` units of `b` bytes.
abbrev pub progress : {W : Type 0} → Stream → W → ℕ → ℕ → Bool → Receiver W
progress src w a b is_open = record {
  conn = src;
  out = w;
  nal_count = i64 (pos a);
  total_bytes = i64 (pos b);
  is_open = is_open;
}

abbrev pub quiet_loop : ℕ → ℕ → Receiver (List ℕ) → Option (Stop × Receiver (List ℕ))
quiet_loop = receive_loop append_write (λ _. false)

-- The loop's state once a length prefix is there.
pub on_prefix-length :
    (n : ℕ) (src src' : Stream) (w : List ℕ) (a b : ℕ) (o : Bool)
    → n < 2 ^ 32
    → on_prefix append_write (progress src' w a b o) (read_full 4 (feed (put_uint32 n) src))
      ≡ on_length append_write (progress src w a b o) n
unfolding on_prefix
on_prefix-length n src src' w a b o fits =
    let same : get_uint32 (put_uint32 n) ≡ n = get_uint32-put_uint32 n ∙ omega arith in
    ap (on_prefix append_write (progress src' w a b o))
      (read_full-feed (put_uint32 n) 4 src (sym (length-put_uint32 n)))
    ∙ ap (on_length append_write (progress src w a b o)) same

on_data-ok :
    (bytes : List ℕ) (src src' : Stream) (w : List ℕ) (a b : ℕ) (o : Bool)
    → on_data append_write (progress src' w a b o) (length bytes) (ok bytes, src)
      ≡ next (
          progress src
            (w ++ (start_code ++ bytes))
            (a + 1)
            (b + length bytes)
            (opened (i64 (pos (a + 1))) o))
unfolding on_data on_write write_nal nal_of
on_data-ok bytes src src' w a b o = λ i. next (record {
  conn = src;
  out = append_assoc w start_code bytes i;
  nal_count = count_up a 1 i;
  total_bytes = count_up b (length bytes) i;
  is_open = opened (count_up a 1 i) o;
})

on_length-accepted :
    (bytes : List ℕ) (src : Stream) (w : List ℕ) (a b : ℕ) (o : Bool)
    → 0 < length bytes
    → length bytes ≤ max_nal_length
    → on_length append_write (progress (feed bytes src) w a b o) (length bytes)
      ≡ next (
          progress src
            (w ++ (start_code ++ bytes))
            (a + 1)
            (b + length bytes)
            (opened (i64 (pos (a + 1))) o))
unfolding on_length
on_length-accepted bytes src w a b o some_byte small =
    let accepted : (length bytes == 0 || ltb max_nal_length (length bytes)) ≡ false =
      ground arith in
    rw accepted (
      ap (on_data append_write (progress (feed bytes src) w a b o) (length bytes))
        (read_full-feed bytes (length bytes) src refl)
      ∙ on_data-ok bytes src (feed bytes src) w a b o)

-- Whether the data channel is open after these units.
abbrev pub opens : ℕ → List NalUnit → Bool → Bool
opens a [] o = o
opens a (n ∷ ns) o = opens (a + 1) ns (opened (i64 (pos (a + 1))) o)

opened-true : (c : ℤ) → opened c true ≡ true
opened-true (pos zero) = refl
opened-true (pos (suc zero)) = refl
opened-true (pos (suc (suc n))) = refl
opened-true (negsuc n) = refl

opens-true : (a : ℕ) (ns : List NalUnit) → opens a ns true ≡ true
opens-true a [] = refl
opens-true a (n ∷ ns) = rw (opened-true (i64 (pos (a + 1)))) (opens-true (a + 1) ns)

pub opens-first : (ns : List NalUnit) → opens 0 ns false ≡ ltb 0 (length ns)
unfolding i64
opens-first [] = refl
opens-first (n ∷ ns) = opens-true 1 ns ∙ ground arith

-- The loop takes sendable units off the stream, whatever comes behind them.
pub rounds :
    (ns : List NalUnit) (rest : Stream) (f k : ℕ) (w : List ℕ) (a b : ℕ) (o : Bool)
    → All IsSendable ns
    → length ns ≤ f
    → (g : ℕ) × (j : ℕ) × (g + length ns ≡ f)
      × (quiet_loop f k (progress (feed (frames ns) rest) w a b o)
          ≡ quiet_loop g j (
              progress rest
                (w ++ encoded ns)
                (a + length ns)
                (b + payload_bytes ns)
                (opens a ns o)))
unfolding receive_loop
rounds [] rest f k w a b o hs h = (
  f,
  k,
  omega arith,
  λ i. quiet_loop f k (progress rest (sym (append-nil w) i) (zero_more a i) (zero_more b i) o),
)
  where
    zero_more : (x : ℕ) → x ≡ x + 0
    zero_more x = omega arith
rounds (n ∷ ns) rest zero k w a b o hs h = elim h [ ]
rounds (n ∷ ns) rest (suc f) k w a b o hs h =
    let w' = w ++ (start_code ++ n.payload) in
    let src = feed n.payload (feed (frames ns) rest) in
    let whole = feed (frames (n ∷ ns)) rest in
    let split : whole ≡ feed (put_uint32 (length n.payload)) src =
      feed-append (frame n.payload) (frames ns) rest
      ∙ feed-append (put_uint32 (length n.payload)) n.payload (feed (frames ns) rest) in
    let (g, j, fuel, loop) =
      rounds ns rest f (k + 1) w' (a + 1) (b + length n.payload) (opened (i64 (pos (a + 1))) o) hs.1
        (omega arith) in
    (
      g,
      j,
      omega arith,
      ap
            (λ s.
              resume (quiet_loop f (k + 1))
                (on_prefix append_write (progress whole w a b o) (read_full 4 s)))
            split
          ∙ ap (resume (quiet_loop f (k + 1))) (
              on_prefix-length (length n.payload) src whole w a b o (omega (arith, hs.0.1))
              ∙ on_length-accepted n.payload (feed (frames ns) rest) w a b o hs.0.0 hs.0.1)
          ∙ loop
          ∙ (λ i. quiet_loop g j (
              progress rest (joined i) (one_more a (length ns) i)
                (assoc b (length n.payload) (payload_bytes ns) i) (opens a (n ∷ ns) o))),
    )
  where
    joined :
        ((w ++ (start_code ++ n.payload)) ++ encoded ns)
        ≡ w ++ (start_code ++ (n.payload ++ encoded ns))
    joined = simp append_assoc

    assoc : (x y z : ℕ) → x + y + z ≡ x + (y + z)
    assoc x y z = omega arith

    one_more : (x z : ℕ) → x + 1 + z ≡ x + suc z
    one_more x z = omega arith
