-- ===== src/AnnexB/Sound.antt =====
-- What ReadNAL returns, from any stream: NAL units, the end, or the stream's error; and that its
-- calls come to an end.
use l4s_poc.Base.{
  ℕ, suc, ◌+◌, ◌-◌, ◌%◌, ◌≤◌, ◌<◌, ◌≡◌, refl, List, [], ◌∷◌, ◌++◌, true, false, arith,
  if◌then◌else◌, length, get_or, take, length-append, take-append_le, Bool-cases, ◌⊎◌, inl, inr,
}
use l4s_poc.Io.{Stream, byte, fail, eof}
use l4s_poc.Nal.{NalUnit, nal_of, start_code, start_code3}
use l4s_poc.AnnexB.{
  has_prefix, Reader, ReadResult, got, stopped, Scan, emit, keep, at_end, found, scan_byte, flush,
  scan, strip, new_reader, read_nal,
}
use l4s_poc.AnnexB.Steps.{flush-nil, flush-cons, scan-nil, scan-fail, scan-emit, scan-keep}
use l4s_poc.AnnexB.StartCode.{
  contains3, contains3-nil, contains3-concat, contains3-take, strip_free,
}

-- A NAL unit with a header byte, typed by it, that holds no start code.
pub record IsNal (n : NalUnit) : Type 0 where
  pub nonempty : 0 < length n.payload
  pub typed : n.unit_type ≡ get_or n.payload 0 0 % 32
  pub free : contains3 n.payload ≡ false

-- No start code but one to be dropped is buffered; nothing is buffered after the end.
pub record IsValid (r : Reader) : Type 0 where
  pub free : contains3 (strip r.buf) ≡ false
  pub drained : r.has_eof ≡ true → r.buf ≡ []

abbrev pub IsStep : Scan → Type 0
IsStep (emit d code) = (0 < length d) × (contains3 d ≡ false) × (strip code ≡ [])
IsStep (keep g) = contains3 g ≡ false

found-IsStep :
    (code buf : List ℕ) (b : ℕ)
    → 0 < length code
    → strip code ≡ []
    → contains3 buf ≡ false
    → IsStep (found code (buf ++ (b ∷ [])))
unfolding found contains3
found-IsStep code buf b pos_code dropped h =
    let grown = buf ++ (b ∷ []) in
    let n = length grown - length code in
    let short : n ≤ length buf = omega (arith, length-append buf (b ∷ [])) in
    let same : take n grown ≡ take n buf = take-append_le n buf (b ∷ []) short in
    let clean : contains3 (take n grown) ≡ false = rw same (contains3-take n buf h) in ground arith

pub strip-start_code : strip start_code ≡ []
unfolding strip has_prefix
strip-start_code = refl

pub strip-start_code3 : strip start_code3 ≡ []
unfolding strip has_prefix
strip-start_code3 = refl

pub scan_byte-IsStep : (buf : List ℕ) (b : ℕ) → contains3 buf ≡ false → IsStep (scan_byte buf b)
unfolding scan_byte
scan_byte-IsStep buf b h =
    let grown = buf ++ (b ∷ []) in
    elim (Bool-cases (at_end start_code grown)) [
      | inl four ↦ rw four (found-IsStep start_code buf b (omega arith) strip-start_code h)
      | inr other ↦ elim (Bool-cases (at_end start_code3 grown)) [
        | inl three ↦
            rw (other, three) (found-IsStep start_code3 buf b (omega arith) strip-start_code3 h)
        | inr none_here ↦ rw (other, none_here) (rw (contains3-concat buf b, h) none_here)
      ]
    ]

-- What the loop returns and leaves behind.
abbrev pub IsResult : ReadResult → Type 0
IsResult (got n) = IsNal n
IsResult (stopped e) = Unit

nal_of-IsNal : (d : List ℕ) → 0 < length d → contains3 d ≡ false → IsNal (nal_of d)
unfolding nal_of
nal_of-IsNal d p h = record { nonempty = p; typed = refl; free = h }

abbrev pub Holds : ReadResult × Reader → Type 0
Holds (res, r) = IsResult res × IsValid r

flush_lem : (src : Stream) (buf : List ℕ) → contains3 buf ≡ false → Holds (flush src buf)
flush_lem src [] h = rw (flush-nil src) (tt, record { free = strip_free [] h; drained = λ _. refl })
flush_lem src (x ∷ buf) h = rw (flush-cons src x buf) (
  nal_of-IsNal (x ∷ buf) (omega arith) h,
  record { free = strip_free [] contains3-nil; drained = λ _. refl },
)

scan_lem : (src : Stream) (buf : List ℕ) → contains3 buf ≡ false → Holds (scan src buf)
scan_lem [] buf h = rw (scan-nil buf) (flush_lem [] buf h)
scan_lem (fail e ∷ src) buf h =
    rw (scan-fail e src buf) (tt, record { free = strip_free buf h; drained = λ q. cc })
scan_lem (byte b ∷ src) buf h =
    go (scan_byte buf b) refl (scan_byte-IsStep buf b h) (λ g. scan_lem src g)
  where
    go :
        (s : Scan)
        → scan_byte buf b ≡ s
        → IsStep s
        → ((g : List ℕ) → contains3 g ≡ false → Holds (scan src g))
        → Holds (scan (byte b ∷ src) buf)
    go (emit d code) e st rec =
        rw (scan-emit src buf b e)
          (nal_of-IsNal d st.0 st.1, record { free = rw (st.2) contains3-nil; drained = λ q. cc })
    go (keep g) e st rec = rw (scan-keep src buf b e) (rec g st)

-- The call keeps the reader's invariant, and a unit that it returns is not empty, is typed by its
-- header byte and contains no start code.
pub read_nal_lem : (r : Reader) → IsValid r → Holds (read_nal r)
unfolding read_nal
read_nal_lem r v = elim (Bool-cases r.has_eof) [
  | inl over ↦
      rw (over, v.drained over)
        (tt, record { free = strip_free [] contains3-nil; drained = λ _. refl })
  | inr open_ ↦ rw open_ (scan_lem r.source (strip r.buf) v.free)
]

pub new_reader-IsValid : (src : Stream) → IsValid (new_reader src)
unfolding new_reader
new_reader-IsValid src = record { free = strip_free [] contains3-nil; drained = λ q. refl }

-- What a reader can still take from its stream, its end included.
abbrev pub remaining : Reader → ℕ
remaining r = length r.source + (if r.has_eof then 0 else 1)

pub remaining-new_reader : (src : Stream) → remaining (new_reader src) ≡ length src + 1
unfolding new_reader
remaining-new_reader src = refl

remaining-flush : (src : Stream) (buf : List ℕ) → remaining (flush src buf).1 ≤ length src
remaining-flush src [] = rw (flush-nil src) (omega arith)
remaining-flush src (x ∷ buf) = rw (flush-cons src x buf) (omega arith)

remaining-scan : (src : Stream) (buf : List ℕ) → remaining (scan src buf).1 ≤ length src
remaining-scan [] buf = rw (scan-nil buf) (remaining-flush [] buf)
remaining-scan (fail e ∷ src) buf = rw (scan-fail e src buf) (omega arith)
remaining-scan (byte b ∷ src) buf = go (scan_byte buf b) refl (λ g. remaining-scan src g)
  where
    go :
        (s : Scan)
        → scan_byte buf b ≡ s
        → ((g : List ℕ) → remaining (scan src g).1 ≤ length src)
        → remaining (scan (byte b ∷ src) buf).1 ≤ suc (length src)
    go (emit d code) e rec = rw (scan-emit src buf b e) (omega arith)
    go (keep g) e rec = rw (scan-keep src buf b e) (omega (arith, rec g))

-- A call that does not answer `io.EOF` takes something from the stream.
pub read_nal-remaining :
    (r : Reader)
    → IsValid r
    → ((read_nal r).0 ≡ stopped eof) ⊎ (remaining (read_nal r).1 < remaining r)
unfolding read_nal
read_nal-remaining r v = elim (Bool-cases r.has_eof) [
  | inl over ↦ inl (rw (over, v.drained over) refl)
  | inr open_ ↦ inr (rw open_ (omega (arith, remaining-scan r.source (strip r.buf))))
]
