-- ===== src/AnnexB/Steps.antt =====
-- The equations of the reader's loop, one for each way that it goes on.
use l4s_poc.Base.{ℕ, ◌≢◌, ap, ◌≡◌, refl, List, [], ◌∷◌, true, false, arith, ◌<◌, length}
use l4s_poc.Io.{Stream, byte, fail, fault, eof}
use l4s_poc.Nal.{nal_of}
use l4s_poc.AnnexB.{Reader, got, stopped, emit, keep, scan_byte, flush, scan, read_nal, strip}

pub flush-nil :
    (src : Stream) → flush src [] ≡ (stopped eof, record { source = src; buf = []; has_eof = true })
unfolding flush
flush-nil src = refl

pub flush-cons :
    (src : Stream) (x : ℕ) (buf : List ℕ)
    → flush src (x ∷ buf)
      ≡ (got (nal_of (x ∷ buf)), record { source = src; buf = []; has_eof = true })
unfolding flush
flush-cons src x buf = ground arith

pub flush_nonempty :
    (src : Stream) (buf : List ℕ)
    → 0 < length buf
    → flush src buf ≡ (got (nal_of buf), record { source = src; buf = []; has_eof = true })
flush_nonempty src [] h = elim h [ ]
flush_nonempty src (x ∷ buf) h = flush-cons src x buf

pub read_nal_open : (r : Reader) → r.has_eof ≡ false → read_nal r ≡ scan r.source (strip r.buf)
unfolding read_nal
read_nal_open r h = rw h

pub read_nal_over : (r : Reader) → r.has_eof ≡ true → r.buf ≡ [] → (read_nal r).0 ≡ stopped eof
unfolding read_nal
read_nal_over r over drained = rw (over, drained)

pub flush-not_fault : (src : Stream) (buf : List ℕ) (x : ℕ) → (flush src buf).0 ≢ stopped (fault x)
flush-not_fault src [] x h = cc (ap (λ p. p.0) (flush-nil src), h)
flush-not_fault src (b ∷ buf) x h = cc (ap (λ p. p.0) (flush-cons src b buf), h)

pub scan-nil : (buf : List ℕ) → scan [] buf ≡ flush [] buf
unfolding scan
scan-nil buf = refl

pub scan-fail :
    (e : ℕ) (src : Stream) (buf : List ℕ)
    → scan (fail e ∷ src) buf
      ≡ (stopped (fault e), record { source = src; buf = buf; has_eof = false })
unfolding scan
scan-fail e src buf = refl

module _ (src : Stream) (buf : List ℕ) (b : ℕ) where
  pub scan-emit :
      {d code : List ℕ}
      → scan_byte buf b ≡ emit d code
      → scan (byte b ∷ src) buf
        ≡ (got (nal_of d), record { source = src; buf = code; has_eof = false })
  unfolding scan
  scan-emit e = rw (e, scan)

  pub scan-keep : {g : List ℕ} → scan_byte buf b ≡ keep g → scan (byte b ∷ src) buf ≡ scan src g
  unfolding scan
  scan-keep e = rw (e, scan)
