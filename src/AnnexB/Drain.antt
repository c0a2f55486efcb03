-- ===== src/AnnexB/Drain.antt =====
-- Calling ReadNAL until it stops, as the senders do.
use mathlib.Core.Option
use l4s_poc.Base.{
  ℕ, zero, suc, ◌<◌, ◌≡◌, refl, ap, ◌∙◌, List, [], ◌∷◌, ◌⊎◌, inl, inr, Option, none, some, arith,
  All,
}
use l4s_poc.Io.{IoError, eof}
use l4s_poc.Nal.{NalUnit}
use l4s_poc.AnnexB.{Reader, ReadResult, got, stopped, read_nal}
use l4s_poc.AnnexB.Sound.{IsNal, IsValid, Holds, remaining, read_nal_lem, read_nal-remaining}

abbrev pub Outcome : Type 0
Outcome = Option (List NalUnit × IoError)

abbrev pub prepend : NalUnit → List NalUnit × IoError → List NalUnit × IoError
prepend n out = (n ∷ out.0, out.1)

abbrev follow : (Reader → Outcome) → ReadResult × Reader → Outcome
follow k (got n, r') = Option.map (prepend n) (k r')
follow k (stopped e, r') = some ([], e)

-- The units read, and the error that stops the loop. `none` means that the fuel ran out.
unfoldable pub drain : ℕ → Reader → Outcome
drain zero r = none
drain (suc f) r = follow (drain f) (read_nal r)

pub drain-got :
    (f : ℕ) (r r' : Reader) (n : NalUnit)
    → read_nal r ≡ (got n, r')
    → drain (suc f) r ≡ Option.map (prepend n) (drain f r')
unfolding drain
drain-got f r r' n e = ap (follow (drain f)) e

pub drain-stop :
    (f : ℕ) (r r' : Reader) (x : IoError)
    → read_nal r ≡ (stopped x, r')
    → drain (suc f) r ≡ some ([], x)
unfolding drain
drain-stop f r r' x e = ap (follow (drain f)) e

pub drain_same :
    (f : ℕ) (r s : Reader) → read_nal r ≡ read_nal s → drain (suc f) r ≡ drain (suc f) s
unfolding drain
drain_same f r s e = ap (follow (drain f)) e

-- From a valid reader the loop stops within as many calls as the stream has bytes and errors, and
-- one more; all that it has read are NAL units.
pub drain_total :
    (f : ℕ) (r : Reader)
    → IsValid r
    → remaining r < f
    → (out : List NalUnit × IoError) × (drain f r ≡ some out) × All IsNal out.0
drain_total zero r v h = elim h [ ]
drain_total (suc f) r v h =
    go (read_nal r) refl (read_nal_lem r v) (read_nal-remaining r v) (λ r'. drain_total f r')
  where
    go :
        (p : ReadResult × Reader)
        → read_nal r ≡ p
        → Holds p
        → (p.0 ≡ stopped eof) ⊎ (remaining p.1 < remaining r)
        → ((r' : Reader)
            → IsValid r'
            → remaining r' < f
            → (out : List NalUnit × IoError) × (drain f r' ≡ some out) × All IsNal out.0)
        → (out : List NalUnit × IoError) × (drain (suc f) r ≡ some out) × All IsNal out.0
    go (stopped x, r') e ok less rec = (([], x), drain-stop f r r' x e, tt)
    go (got n, r') e ok (inl end) rec = cc
    go (got n, r') e ok (inr less) rec =
        let (out, run, good) = rec r' ok.1 (omega arith) in
        ((n ∷ out.0, out.1), drain-got f r r' n e ∙ ap (Option.map (prepend n)) run, (ok.0, good))
