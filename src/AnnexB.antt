-- ===== src/AnnexB.antt =====
-- AnnexBReader (`ReadNAL` byte by byte) and AnnexBWriter, pkg/h264/annexb.go.
pub mod StartCode
pub mod Steps
pub mod Sound
pub mod Drain
pub mod RoundTrip
pub mod Resume
pub mod Split
pub mod Pieces
mod Tests
use l4s_poc.Base.{
  ℕ, ◌-◌, List, [], ◌∷◌, ◌++◌, Bool, true, false, ◌&&◌, Option, none, some, ◌==◌, ltb, leb,
  if◌then◌else◌, length, take, drop, equal,
}
use l4s_poc.Io.{IoError, eof, fault, Stream, byte, fail}
use l4s_poc.Nal.{NalUnit, nal_of, start_code, start_code3}

-- `bytes.HasPrefix(buf, code)`.
pub has_prefix : List ℕ → List ℕ → Bool
has_prefix buf code = leb (length code) (length buf) && equal (take (length code) buf) code

-- `len(buf) >= len(code) && bytes.Equal(buf[len(buf)-len(code):], code)`.
pub at_end : List ℕ → List ℕ → Bool
at_end code buf = leb (length code) (length buf) && equal (drop (length buf - length code) buf) code

-- `r` of the bufio.Reader is `source`.
pub record Reader : Type 0 where
  pub source : Stream
  pub buf : List ℕ
  pub has_eof : Bool

pub data ReadResult : Type 0 where
  got : NalUnit → ReadResult
  stopped : IoError → ReadResult

-- What one more byte does: a NAL unit is complete and the start code is kept, or the loop goes on.
pub data Scan : Type 0 where
  emit : List ℕ → List ℕ → Scan
  keep : List ℕ → Scan

-- The branch taken where `code` ends the buffer.
pub found : List ℕ → List ℕ → Scan
found code buf =
    let nal_data = take (length buf - length code) buf in
    if ltb (length code) (length buf)
    then (if ltb 0 (length nal_data) then emit nal_data code else keep [])
    else keep []

-- The loop's body after `ReadByte` gave `b`.
pub scan_byte : List ℕ → ℕ → Scan
scan_byte buf b =
    let grown = buf ++ (b ∷ []) in
    if at_end start_code grown
    then found start_code grown
    else if at_end start_code3 grown
    then found start_code3 grown
    else keep grown

-- After the loop: what is buffered is the last NAL unit.
pub flush : Stream → List ℕ → ReadResult × Reader
flush src buf =
    if ltb 0 (length buf)
    then (got (nal_of buf), record { source = src; buf = []; has_eof = true })
    else (stopped eof, record { source = src; buf = buf; has_eof = true })

-- The loop.
pub scan : Stream → List ℕ → ReadResult × Reader
scan [] buf = flush [] buf
scan (fail e ∷ src) buf = (stopped (fault e), record { source = src; buf = buf; has_eof = false })
scan (byte b ∷ src) buf = elim (scan_byte buf b) [
  | emit bytes code ↦ (got (nal_of bytes), record { source = src; buf = code; has_eof = false })
  | keep grown ↦ scan src grown
]

-- The start code that the previous call left in the buffer is dropped.
pub strip : List ℕ → List ℕ
strip buf =
    if has_prefix buf start_code
    then drop 4 buf
    else if has_prefix buf start_code3
    then drop 3 buf
    else buf

pub new_reader : Stream → Reader
new_reader src = record { source = src; buf = []; has_eof = false }

pub read_nal : Reader → ReadResult × Reader
read_nal r =
    if r.has_eof && length r.buf == 0
    then (stopped eof, r)
    else if r.has_eof
    then flush r.source (strip r.buf)
    else scan r.source (strip r.buf)

-- The writers take the `io.Writer` as its `Write` method, which gives the error, if any, and the
-- writer's new state.
module _ {W : Type 0} (write : W → List ℕ → Option IoError × W) where
  unfoldable pub write_nal_data : W → List ℕ → Option IoError × W
  write_nal_data w bytes =
      let (failed, w') = write w start_code in
      elim failed [ some e ↦ (some e, w') | none ↦ write w' bytes ]

  unfoldable pub write_nal : W → NalUnit → Option IoError × W
  write_nal w n =
      let (failed, w') = write w start_code in
      elim failed [ some e ↦ (some e, w') | none ↦ write w' n.payload ]
