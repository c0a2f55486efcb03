-- ===== src/Frame.antt =====
-- LengthPrefixedReader and LengthPrefixedWriter, pkg/h264/annexb.go lines 169 to 234: a NAL unit as
-- its length in four bytes, big endian, and its bytes.
pub mod RoundTrip
mod Tests
use l4s_poc.Base.{ℕ, ◌+◌, ◌*◌, ◌/◌, ◌%◌, ◌^◌, List, [], ◌∷◌, Option, none, some, length}
use l4s_poc.Base.Words.{u8, u32}
use l4s_poc.Io.{IoError, unexpected_eof, Stream, Result, ok, err, read_full}
use l4s_poc.Nal.{NalUnit, nal_of}

-- `binary.BigEndian.PutUint32(b, uint32(n))`.
unfoldable pub put_uint32 : ℕ → List ℕ
put_uint32 n = u8 (u32 n / 2 ^ 24) ∷ u8 (u32 n / 2 ^ 16) ∷ u8 (u32 n / 2 ^ 8) ∷ u8 (u32 n) ∷ []

-- `binary.BigEndian.Uint32(b)`, of four bytes.
unfoldable pub get_uint32 : List ℕ → ℕ
get_uint32 (a ∷ b ∷ c ∷ d ∷ []) = u32 (a * 2 ^ 24 + b * 2 ^ 16 + c * 2 ^ 8 + d)
get_uint32 _ = 0

-- What ReadNAL makes of the data that it read, or of the error.
pub accept : Result (List ℕ) × Stream → Result NalUnit × Stream
accept (err e, src) = (err e, src)
accept (ok [], src) = (err unexpected_eof, src)
accept (ok (b ∷ bytes), src) = (ok (nal_of (b ∷ bytes)), src)

-- ReadNAL after the length has been read, or not.
pub read_data : Result (List ℕ) × Stream → Result NalUnit × Stream
read_data (err e, src) = (err e, src)
read_data (ok prefix, src) = accept (read_full (get_uint32 prefix) src)

unfoldable pub read_nal : Stream → Result NalUnit × Stream
unfolding read_data accept
read_nal src = read_data (read_full 4 src)

module _ {W : Type 0} (write : W → List ℕ → Option IoError × W) where
  unfoldable pub write_nal_data : W → List ℕ → Option IoError × W
  write_nal_data w bytes =
      let (failed, w') = write w (put_uint32 (length bytes)) in
      elim failed [ some e ↦ (some e, w') | none ↦ write w' bytes ]

  unfoldable pub write_nal : W → NalUnit → Option IoError × W
  write_nal w n =
      let (failed, w') = write w (put_uint32 (length n.payload)) in
      elim failed [ some e ↦ (some e, w') | none ↦ write w' n.payload ]
