-- ===== src/AnnexB/Resume.antt =====
-- An error of the stream in the middle of a NAL unit loses nothing: ReadNAL keeps what it has
-- buffered, and the next call goes on from there.
use l4s_poc.Base.{ℕ, ◌≡◌, refl, sym, ap, ◌∙◌, List, [], ◌∷◌, false, Bool-cases, inl, inr}
use l4s_poc.Io.{Stream, byte, fail, fault}
use l4s_poc.AnnexB.{Reader, stopped, Scan, emit, keep, scan_byte, scan, strip, read_nal}
use l4s_poc.AnnexB.StartCode.{contains3, strip_same}
use l4s_poc.AnnexB.Steps.{
  flush-not_fault, read_nal_over, scan-nil, scan-fail, scan-emit, scan-keep, read_nal_open,
}
use l4s_poc.AnnexB.Sound.{IsValid, IsStep, scan_byte-IsStep}

-- The stream without its first error.
abbrev pub without_fault : Stream → Stream
without_fault [] = []
without_fault (fail e ∷ src) = src
without_fault (byte b ∷ src) = byte b ∷ without_fault src

scan_resume :
    (src : Stream) (buf : List ℕ) (x : ℕ)
    → contains3 buf ≡ false
    → (scan src buf).0 ≡ stopped (fault x)
    → read_nal (scan src buf).1 ≡ scan (without_fault src) buf
scan_resume [] buf x free h =
    absurd (flush-not_fault [] buf x (ap (λ p. p.0) (sym (scan-nil buf)) ∙ h))
scan_resume (fail e ∷ src) buf x free h = rw (scan-fail e src buf) (
    read_nal_open (record { source = src; buf = buf; has_eof = false }) refl
    ∙ ap (scan src) (strip_same buf free))
scan_resume (byte b ∷ src) buf x free h =
    go (scan_byte buf b) refl (scan_byte-IsStep buf b free) (λ g. scan_resume src g x)
  where
    go :
        (s : Scan)
        → scan_byte buf b ≡ s
        → IsStep s
        → ((g : List ℕ)
            → contains3 g ≡ false
            → (scan src g).0 ≡ stopped (fault x)
            → read_nal (scan src g).1 ≡ scan (without_fault src) g)
        → read_nal (scan (byte b ∷ src) buf).1 ≡ scan (byte b ∷ without_fault src) buf
    go (emit d code) e st rec = cc (ap (λ p. p.0) (scan-emit src buf b e), h)
    go (keep g) e st rec =
        rw (scan-keep src buf b e, scan-keep (without_fault src) buf b e)
          (rec g st (ap (λ p. p.0) (sym (scan-keep src buf b e)) ∙ h))

-- If ReadNAL returns an error of the stream, calling it again gives what it would have given, and
-- leaves the reader as it would have left it, had the error not been there.
pub read_nal_resume :
    (r : Reader) (x : ℕ)
    → IsValid r
    → (read_nal r).0 ≡ stopped (fault x)
    → read_nal (read_nal r).1 ≡ read_nal (record r { source = without_fault r.source })
read_nal_resume r x v h = elim (Bool-cases r.has_eof) [
  | inl over ↦ cc (read_nal_over r over (v.drained over), h)
  | inr open_ ↦
      rw (read_nal_open r open_, read_nal_open (record r { source = without_fault r.source }) open_)
        (scan_resume r.source (strip r.buf) x v.free
          (ap (λ p. p.0) (sym (read_nal_open r open_)) ∙ h))
]
