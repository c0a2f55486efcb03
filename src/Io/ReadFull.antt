-- ===== src/Io/ReadFull.antt =====
-- `io.ReadFull` on a source that has, or has not, the bytes that are asked for.
use l4s_poc.Base.{
  ℕ, zero, suc, ◌<◌, ◌≡◌, refl, ap, ◌∙◌, List, [], ◌∷◌, ◌++◌, append-nil, append_assoc, arith,
  length,
}
use l4s_poc.Io.{
  IoError, eof, unexpected_eof, Stream, byte, feed, ok, err, read_full_from, read_full,
}

pub feed-append : (xs ys : List ℕ) (rest : Stream) → feed (xs ++ ys) rest ≡ feed xs (feed ys rest)
feed-append [] ys rest = refl
feed-append (x ∷ xs) ys rest = ap (◌∷◌ (byte x)) (feed-append xs ys rest)

read_full_from-byte :
    (got : List ℕ) (n : ℕ) (b : ℕ) (src : Stream)
    → read_full_from got (suc n) (byte b ∷ src) ≡ read_full_from (got ++ (b ∷ [])) n src
unfolding read_full_from
read_full_from-byte [] n b src = refl
read_full_from-byte (g ∷ got) n b src = refl

read_full_from-feed :
    (bs got : List ℕ) (rest : Stream)
    → read_full_from got (length bs) (feed bs rest) ≡ (ok (got ++ bs), rest)
unfolding read_full_from
read_full_from-feed [] got rest = rw (append-nil got) (ended got)
  where
    ended : (got : List ℕ) → read_full_from got zero rest ≡ (ok got, rest)
    ended [] = refl
    ended (g ∷ got) = refl
read_full_from-feed (b ∷ bs) got rest =
    read_full_from-byte got (length bs) b (feed bs rest)
    ∙ read_full_from-feed bs (got ++ (b ∷ [])) rest
    ∙ ap (λ l. (ok l, rest)) (append_assoc got (b ∷ []) bs)

-- All the bytes are there: they are read, and no more.
pub read_full-feed :
    (bs : List ℕ) (n : ℕ) (rest : Stream)
    → n ≡ length bs
    → read_full n (feed bs rest) ≡ (ok bs, rest)
unfolding read_full
read_full-feed bs n rest e =
    ap (λ k. read_full_from [] k (feed bs rest)) e ∙ read_full_from-feed bs [] rest

-- The error of a read that finds the source's end after these bytes.
abbrev pub cut_short : List ℕ → IoError
cut_short [] = eof
cut_short (b ∷ bs) = unexpected_eof

cut_short-concat : (bs : List ℕ) (b : ℕ) → cut_short (bs ++ (b ∷ [])) ≡ unexpected_eof
cut_short-concat [] b = refl
cut_short-concat (x ∷ bs) b = refl

read_full_from-short :
    (bs got : List ℕ) (n : ℕ)
    → length bs < n
    → read_full_from got n (feed bs []) ≡ (err (cut_short (got ++ bs)), [])
unfolding read_full_from
read_full_from-short [] got zero h = elim h [ ]
read_full_from-short (b ∷ bs) got zero h = elim h [ ]
read_full_from-short [] [] (suc n) h = refl
read_full_from-short [] (g ∷ got) (suc n) h = refl
read_full_from-short (b ∷ bs) got (suc n) h =
    read_full_from-byte got n b (feed bs [])
    ∙ read_full_from-short bs (got ++ (b ∷ [])) n (omega arith)
    ∙ ap (λ l. (err (cut_short l), [])) (append_assoc got (b ∷ []) bs)

-- The source ends too soon.
pub read_full-short :
    (bs : List ℕ) (n : ℕ) → length bs < n → read_full n (feed bs []) ≡ (err (cut_short bs), [])
unfolding read_full
read_full-short bs n h = read_full_from-short bs [] n h
