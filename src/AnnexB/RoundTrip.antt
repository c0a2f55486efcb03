-- ===== src/AnnexB/RoundTrip.antt =====
-- Reading back what AnnexBWriter wrote.
use l4s_poc.Base.{
  ℕ, zero, suc, ◌+◌, ◌-◌, ◌<◌, ◌≡◌, refl, sym, ap, ◌∙◌, List, [], ◌∷◌, ◌++◌, append_assoc, true,
  false, arith, length, length-append, take-append, or-eq_false, Bool-cases, inl, inr, Option, none,
  some, All, ap₂, append-nil,
}
use mathlib.Core.Bool.{false≢true}
use l4s_poc.Io.{Stream, byte, feed, IoError, eof}
use l4s_poc.Io.ReadFull.{feed-append}
use l4s_poc.Nal.{NalUnit, nal_type, nal_of, start_code, start_code3}
use l4s_poc.AnnexB.{
  write_nal, has_prefix, Reader, got, stopped, emit, keep, at_end, found, scan_byte, scan, strip,
  read_nal, new_reader,
}
use l4s_poc.AnnexB.Drain.{drain, drain-got, drain-stop, drain_same, drain_total}
use l4s_poc.AnnexB.Sound.{IsNal, strip-start_code, new_reader-IsValid, remaining-new_reader}
use l4s_poc.AnnexB.Steps.{scan-nil, scan-emit, scan-keep, flush-nil, flush_nonempty, read_nal_open}
use l4s_poc.AnnexB.StartCode.{
  contains3, at_end4-at_end3, at_end-append, contains3-concat, contains3-append_left,
  contains3-concat_ne,
}

-- A byte that completes no start code is buffered.
scan_byte-free :
    (buf : List ℕ) (b : ℕ)
    → contains3 (buf ++ (b ∷ [])) ≡ false
    → scan_byte buf b ≡ keep (buf ++ (b ∷ []))
unfolding scan_byte
scan_byte-free buf b h =
    let grown = buf ++ (b ∷ []) in
    let (_, three) =
      or-eq_false (contains3 buf) (at_end start_code3 grown) (sym (contains3-concat buf b) ∙ h) in
    let four : at_end start_code grown ≡ false = elim (Bool-cases (at_end start_code grown)) [
      | inl is ↦ absurd (false≢true (sym three ∙ at_end4-at_end3 grown is))
      | inr isnt ↦ isnt
    ] in
    rw (four, three)

pub found-append :
    (code : List ℕ) (x : ℕ) (d : List ℕ) → found code (x ∷ d ++ code) ≡ emit (x ∷ d) code
unfolding found
found-append code x d =
    let n : length (x ∷ d ++ code) - length code ≡ length (x ∷ d) =
      omega (arith, length-append d code) in
    rw n (ground (arith, take-append (x ∷ d) code, length-append d code))

-- The last byte of a start code completes what is buffered before the code.
scan_byte-code :
    (x : ℕ) (d : List ℕ) → scan_byte (x ∷ d ++ (0 ∷ 0 ∷ 0 ∷ [])) 1 ≡ emit (x ∷ d) start_code
unfolding scan_byte
scan_byte-code x d =
    rw (append_assoc (x ∷ d) (0 ∷ 0 ∷ 0 ∷ []) (1 ∷ []), at_end-append start_code (x ∷ d))
      (found-append start_code x d)

-- Bytes with no start code among them go to the buffer.
scan_free :
    (d : List ℕ) (rest : Stream) (buf : List ℕ)
    → contains3 (buf ++ d) ≡ false
    → scan (feed d rest) buf ≡ scan rest (buf ++ d)
scan_free [] rest buf h = rw (append-nil buf)
scan_free (b ∷ d) rest buf h =
    let h' : contains3 ((buf ++ (b ∷ [])) ++ d) ≡ false = rw (append_assoc buf (b ∷ []) d) h in
    scan-keep (feed d rest) buf b
      (scan_byte-free buf b (contains3-append_left (buf ++ (b ∷ [])) d h'))
    ∙ scan_free d rest (buf ++ (b ∷ [])) h'
    ∙ ap (scan rest) (append_assoc buf (b ∷ []) d)

contains3-zeros : (d : List ℕ) → contains3 d ≡ false → contains3 (d ++ (0 ∷ 0 ∷ 0 ∷ [])) ≡ false
contains3-zeros d h =
    let one = contains3-concat_ne d 0 (omega arith) h in
    let two = contains3-concat_ne (d ++ (0 ∷ [])) 0 (omega arith) one in
    let three = contains3-concat_ne ((d ++ (0 ∷ [])) ++ (0 ∷ [])) 0 (omega arith) two in
    simp append_assoc at three

-- A start code ends a unit that is not empty, and stays in the buffer.
scan_code :
    (d : List ℕ) (rest : Stream)
    → 0 < length d
    → contains3 d ≡ false
    → scan (feed start_code rest) d
      ≡ (got (nal_of d), record { source = rest; buf = start_code; has_eof = false })
scan_code [] rest p h = elim p [ ]
scan_code (x ∷ d) rest p h =
    let zeros : List ℕ = 0 ∷ 0 ∷ 0 ∷ [] in
    scan_free zeros (byte 1 ∷ rest) (x ∷ d) (contains3-zeros (x ∷ d) h)
    ∙ scan-emit rest (x ∷ d ++ zeros) 1 (scan_byte-code x d)

-- Before the first unit it is dropped.
scan_first : (rest : Stream) → scan (feed start_code rest) [] ≡ scan rest []
unfolding scan scan_byte at_end found
scan_first rest = refl

-- What AnnexBWriter writes to a buffer that takes everything.
abbrev pub append_write : List ℕ → List ℕ → Option IoError × List ℕ
append_write w bytes = (none, w ++ bytes)

unfoldable pub write_all : List ℕ → List NalUnit → List ℕ
write_all w [] = w
write_all w (n ∷ ns) = write_all (write_nal append_write w n).1 ns

abbrev pub encoded : List NalUnit → List ℕ
encoded [] = []
encoded (n ∷ ns) = start_code ++ (n.payload ++ encoded ns)

pub write_all-encoded : (w : List ℕ) (ns : List NalUnit) → write_all w ns ≡ w ++ encoded ns
unfolding write_all write_nal
write_all-encoded w [] = sym (append-nil w)
write_all-encoded w (n ∷ ns) =
    write_all-encoded ((w ++ start_code) ++ n.payload) ns ∙ simp append_assoc

nal_of-id : (n : NalUnit) → IsNal n → nal_of n.payload ≡ n
unfolding nal_of nal_type
nal_of-id n v = λ i. record { unit_type = sym v.typed i; payload = n.payload }

pub read_nal_ended :
    let ended : Reader = record { source = []; buf = []; has_eof = true } in
    read_nal ended ≡ (stopped eof, ended)
unfolding read_nal
read_nal_ended = refl

strip-nil : strip [] ≡ []
unfolding strip has_prefix
strip-nil = refl

pub read_nal_start : (src : Stream) → read_nal (new_reader src) ≡ scan src []
unfolding read_nal new_reader strip has_prefix
read_nal_start src = refl

-- A reader that has dropped the start code before the unit `n`.
record Stands (n : NalUnit) (ns : List NalUnit) (r : Reader) : Type 0 where
  open_ : r.has_eof ≡ false
  clean : strip r.buf ≡ []
  ahead : r.source ≡ feed (n.payload ++ encoded ns) []

new_reader-Stands :
    (ns : List NalUnit) (n : NalUnit) → Stands n ns (new_reader (feed (n.payload ++ encoded ns) []))
unfolding new_reader
new_reader-Stands ns n = record { open_ = refl; clean = strip-nil; ahead = refl }

read_nal-scan :
    (ns : List NalUnit) (n : NalUnit) (r : Reader)
    → IsNal n
    → Stands n ns r
    → read_nal r ≡ scan (feed (encoded ns) []) n.payload
read_nal-scan ns n r hn st =
    read_nal_open r st.open_
    ∙ ap₂ scan (st.ahead ∙ feed-append n.payload (encoded ns) []) st.clean
    ∙ scan_free n.payload (feed (encoded ns) []) [] hn.free

drain-encoded :
    (ns : List NalUnit) (n : NalUnit) (r : Reader) (f : ℕ)
    → IsNal n
    → All IsNal ns
    → Stands n ns r
    → length ns + 1 < f
    → drain f r ≡ some (n ∷ ns, eof)
drain-encoded _ n r zero hn hs st enough = absurd (omega arith)
drain-encoded _ n r (suc zero) hn hs st enough = absurd (omega arith)
drain-encoded [] n r (suc (suc f)) hn hs st enough =
    let ended : Reader = record { source = []; buf = []; has_eof = true } in
    let read =
      read_nal-scan [] n r hn st ∙ scan-nil n.payload ∙ flush_nonempty [] n.payload hn.nonempty in
    drain-got (suc f) r ended (nal_of n.payload) read
    ∙ rw (drain-stop f ended ended eof read_nal_ended, nal_of-id n hn)
drain-encoded (m ∷ ns) n r (suc (suc f)) hn hs st enough =
    let next : Reader = record {
      source = feed (m.payload ++ encoded ns) [];
      buf = start_code;
      has_eof = false;
    } in
    let read =
      read_nal-scan (m ∷ ns) n r hn st
      ∙ scan_code n.payload (feed (m.payload ++ encoded ns) []) hn.nonempty hn.free in
    drain-got (suc f) r next (nal_of n.payload) read
    ∙ rw (
      drain-encoded ns m next (suc f) hs.0 hs.1
          (record { open_ = refl; clean = strip-start_code; ahead = refl }) (omega arith),
      nal_of-id n hn,
    )

-- Whatever units AnnexBWriter writes, if each has a header byte, has the type that this byte gives, and
-- contains no start code, then AnnexBReader reads them back in order, with their types, and then
-- answers `io.EOF`; this for all fuel above the number of units and one.
pub drain-write_all :
    (ns : List NalUnit) (f : ℕ)
    → All IsNal ns
    → length ns + 1 < f
    → drain f (new_reader (feed (write_all [] ns) [])) ≡ some (ns, eof)
drain-write_all [] zero hs enough = elim enough [ ]
drain-write_all (n ∷ ns) zero hs enough = elim enough [ ]
drain-write_all [] (suc f) hs enough =
    rw (write_all-encoded [] [])
      (drain-stop f (new_reader []) _ eof (read_nal_start [] ∙ scan-nil [] ∙ flush-nil []))
drain-write_all (n ∷ ns) (suc f) hs enough =
    let first = new_reader (feed (n.payload ++ encoded ns) []) in
    let same =
      read_nal_start _ ∙ scan_first (feed (n.payload ++ encoded ns) []) ∙ sym (read_nal_start _) in
    rw (write_all-encoded [] (n ∷ ns)) (
      drain_same f _ first same
      ∙ drain-encoded ns n first (suc f) hs.0 hs.1 (new_reader-Stands ns n) (omega arith))

-- Units that the reader got from any stream, well formed or not and with errors in it or not, are
-- written by AnnexBWriter so that reading them again gives the same units.
pub drain-write_all-drain :
    (src : Stream) (f g : ℕ) (ns : List NalUnit) (e : IoError)
    → length src + 1 < f
    → drain f (new_reader src) ≡ some (ns, e)
    → length ns + 1 < g
    → drain g (new_reader (feed (write_all [] ns) [])) ≡ some (ns, eof)
drain-write_all-drain src f g ns e enough run more =
    let (out, same, good) =
      drain_total f (new_reader src) (new_reader-IsValid src)
        (rw (remaining-new_reader src) enough) in
    let eq : ns ≡ out.0 = cc in drain-write_all ns g (rw eq good) more
