-- ===== src/Io.antt =====
-- Readers and writers of the Go standard library, as pkg/h264/annexb.go and cmd/ use them.
-- A source is the list of what its next reads give: a byte, or an error other than `io.EOF`; where
-- the list ends the source answers `io.EOF`. `io.ReadFull` is modelled by its documentation.
pub mod ReadFull
use l4s_poc.Base.{ℕ, zero, suc, List, [], ◌∷◌, ◌++◌, map, Option, none, some}

pub data IoError : Type 0 where
  eof : IoError
  unexpected_eof : IoError
  fault : ℕ → IoError

pub data ReadEvent : Type 0 where
  byte : ℕ → ReadEvent
  fail : ℕ → ReadEvent

abbrev pub Stream : Type 0
Stream = List ReadEvent

-- A source that gives these bytes, and then goes on as `rest`.
abbrev pub feed : List ℕ → Stream → Stream
feed [] rest = rest
feed (b ∷ bs) rest = byte b ∷ feed bs rest

pub data Result {ℓ} (A : Type ℓ) : Type ℓ where
  ok : A → Result A
  err : IoError → Result A

-- `io.ReadFull` into a buffer of `n` bytes, of which those in `got` have been read: `io.EOF` if
-- none could be read, `io.ErrUnexpectedEOF` if some but not all, and any other error as it is.
pub read_full_from : List ℕ → ℕ → Stream → Result (List ℕ) × Stream
read_full_from got zero src = (ok got, src)
read_full_from [] (suc n) [] = (err eof, [])
read_full_from (g ∷ got) (suc n) [] = (err unexpected_eof, [])
read_full_from got (suc n) (fail e ∷ src) = (err (fault e), src)
read_full_from got (suc n) (byte b ∷ src) = read_full_from (got ++ (b ∷ [])) n src

unfoldable pub read_full : ℕ → Stream → Result (List ℕ) × Stream
unfolding read_full_from
read_full n src = read_full_from [] n src
