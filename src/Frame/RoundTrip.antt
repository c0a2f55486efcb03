-- ===== src/Frame/RoundTrip.antt =====
-- Frames that are written are read back; frames that are cut short are errors.
use l4s_poc.Base.{
  ℕ, zero, suc, ◌%◌, ◌^◌, ◌<◌, ◌≤◌, ◌≡◌, refl, sym, ap, ◌∙◌, List, [], ◌∷◌, ◌++◌, arith, length,
  take, ◌==◌, if◌then◌else◌, length-append, length-take,
}
use native.Mathlib.Decide.{dec_lt}
use l4s_poc.Io.{eof, unexpected_eof, Stream, feed, ok, err, read_full}
use l4s_poc.Io.ReadFull.{feed-append, read_full-feed, read_full-short, cut_short}
use l4s_poc.Nal.{nal_of}
use l4s_poc.Frame.{put_uint32, get_uint32, accept, read_data, read_nal}

-- The prefix gives the length back, up to 2 ^ 32.
pub get_uint32-put_uint32 : (n : ℕ) → get_uint32 (put_uint32 n) ≡ n % 2 ^ 32
unfolding get_uint32 put_uint32
get_uint32-put_uint32 n = omega arith

pub length-put_uint32 : (n : ℕ) → length (put_uint32 n) ≡ 4
unfolding put_uint32
length-put_uint32 n = refl

-- The bytes of a frame.
abbrev pub frame : List ℕ → List ℕ
frame payload = put_uint32 (length payload) ++ payload

-- ReadNAL, once the length prefix is there.
read_nal-prefix :
    (n : ℕ) (src : Stream)
    → n < 2 ^ 32
    → read_nal (feed (put_uint32 n) src) ≡ accept (read_full n src)
unfolding read_nal
read_nal-prefix n src h =
    ap read_data (read_full-feed (put_uint32 n) 4 src (sym (length-put_uint32 n)))
    ∙ ap (λ k. accept (read_full k src)) (get_uint32-put_uint32 n ∙ omega arith)

accept-nonempty :
    (bytes : List ℕ) (rest : Stream)
    → 0 < length bytes
    → accept (ok bytes, rest) ≡ (ok (nal_of bytes), rest)
unfolding accept
accept-nonempty [] rest h = elim h [ ]
accept-nonempty (b ∷ bytes) rest h = refl

-- A frame is read back as the unit that its bytes make, with whatever follows it left unread, if it
-- is not empty and its length fits in 32 bits.
pub read_nal-frame :
    (bytes : List ℕ) (rest : Stream)
    → 0 < length bytes
    → length bytes < 2 ^ 32
    → read_nal (feed (frame bytes) rest) ≡ (ok (nal_of bytes), rest)
read_nal-frame bytes rest some_byte fits =
    ap read_nal (feed-append (put_uint32 (length bytes)) bytes rest)
    ∙ read_nal-prefix (length bytes) (feed bytes rest) fits
    ∙ ap accept (read_full-feed bytes (length bytes) rest refl)
    ∙ accept-nonempty bytes rest some_byte

-- An empty unit is written as a frame which its reader refuses, as if the stream had broken off;
-- what follows the frame is left unread.
pub read_nal-frame_empty :
    (rest : Stream) → read_nal (feed (frame []) rest) ≡ (err unexpected_eof, rest)
unfolding read_nal put_uint32 get_uint32 read_full
read_nal-frame_empty rest = refl

cut_short-take :
    (bytes : List ℕ) (k : ℕ)
    → k < length bytes
    → cut_short (take k bytes) ≡ (
        if suc (suc (suc (suc k))) == 0
        then eof
        else if suc (suc (suc (suc k))) == 4
        then eof
        else unexpected_eof)
cut_short-take bytes zero h = refl
cut_short-take [] (suc k) h = elim h [ ]
cut_short-take (b ∷ bytes) (suc k) h = ground arith

-- The stream breaks off within the prefix.
in_prefix :
    (bytes : List ℕ) (k : ℕ)
    → k < 4
    → read_nal (feed (take k (frame bytes)) [])
      ≡ (err (if k == 0 then eof else if k == 4 then eof else unexpected_eof), [])
unfolding read_nal put_uint32 read_full
in_prefix bytes zero h = refl
in_prefix bytes (suc zero) h = refl
in_prefix bytes (suc (suc zero)) h = refl
in_prefix bytes (suc (suc (suc zero))) h = refl
in_prefix bytes (suc (suc (suc (suc k)))) h = absurd (omega arith)

take-frame :
    (bytes : List ℕ) (k : ℕ)
    → take (suc (suc (suc (suc k)))) (frame bytes) ≡ put_uint32 (length bytes) ++ take k bytes
unfolding put_uint32
take-frame bytes k = refl

-- It breaks off behind the prefix.
in_data :
    (bytes : List ℕ) (k : ℕ)
    → length bytes < 2 ^ 32
    → 4 ≤ k
    → k < length (frame bytes)
    → read_nal (feed (take k (frame bytes)) [])
      ≡ (err (if k == 0 then eof else if k == 4 then eof else unexpected_eof), [])
in_data bytes zero fits low h = absurd (omega arith)
in_data bytes (suc zero) fits low h = absurd (omega arith)
in_data bytes (suc (suc zero)) fits low h = absurd (omega arith)
in_data bytes (suc (suc (suc zero))) fits low h = absurd (omega arith)
in_data bytes (suc (suc (suc (suc k)))) fits low h =
    let inside : k < length bytes =
      omega (
        arith,
        length-append (put_uint32 (length bytes)) bytes,
        length-put_uint32 (length bytes),
      ) in
    let short : length (take k bytes) < length bytes = omega (arith, length-take k bytes) in
    ap (λ l. read_nal (feed l [])) (take-frame bytes k)
    ∙ ap read_nal (feed-append (put_uint32 (length bytes)) (take k bytes) [])
    ∙ read_nal-prefix (length bytes) (feed (take k bytes) []) fits
    ∙ ap accept (read_full-short (take k bytes) (length bytes) short)
    ∙ unfold accept in ap (λ e. (err e, [])) (cut_short-take bytes k inside)

-- A stream that breaks off within a frame. The error is `io.EOF` if nothing of the frame is there,
-- but also if its length prefix is there and nothing more; else it is `io.ErrUnexpectedEOF`.
pub read_nal-cut :
    (bytes : List ℕ) (k : ℕ)
    → length bytes < 2 ^ 32
    → k < length (frame bytes)
    → read_nal (feed (take k (frame bytes)) [])
      ≡ (err (if k == 0 then eof else if k == 4 then eof else unexpected_eof), [])
read_nal-cut bytes k fits cut = elim (dec_lt k 4) [
  | yes early ↦ in_prefix bytes k early
  | no late ↦ in_data bytes k fits (omega arith) cut
]
