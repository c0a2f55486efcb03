-- ===== src/Session/Totals.antt =====
-- The totals that quic-bench and quic-test print.
use l4s_poc.Base.{
  ℕ, zero, suc, ◌+◌, ◌*◌, ◌<◌, ◌≡◌, refl, sym, ap, ◌∙◌, List, [], ◌∷◌, some, arith, ◌==◌, length,
  Bool-cases, inl, inr, ==_iff,
}
use l4s_poc.Base.Int.{ℤ, pos, ◌+ℤ◌, int_laws}
use l4s_poc.Base.Words.{i64, i64-add_i64}
use l4s_poc.Picoquic.{Api, Connection, QuicError, Result, ok, err, counted, write, read}
use l4s_poc.SideChannel.Spread.{sum_ℤ}
use l4s_poc.QuicSend.Frames.{count_up}
use l4s_poc.Session.Bench.{on_written, write_loop, chunk_from}
use l4s_poc.Session.Loopback.{on_block, discard_loop}

pub length-chunk_from : (i n : ℕ) → length (chunk_from i n) ≡ n
unfolding chunk_from
length-chunk_from i zero = refl
length-chunk_from i (suc n) = ap suc (length-chunk_from (i + 1) n)

module _ {S Ctx Cnx : Type 0} (api : Api S Ctx Cnx) where
  -- The C side takes all that is sent.
  abbrev pub TakesAll : Type 0
  TakesAll =
      (cnx : Cnx) (bytes : List ℕ) (s : S) → (api.pq_send_stream cnx bytes s).0 ≡ pos (length bytes)

  write-all :
      TakesAll
      → (conn : Connection Ctx Cnx) (bytes : List ℕ) (s : S)
      → (write api conn bytes s).0 ≡ ok (pos (length bytes))
  unfolding write counted
  write-all takes conn bytes s = elim (Bool-cases (length bytes == 0)) [
    | inl z ↦ rw z (ap (λ n. ok (pos n)) (sym ((==_iff (length bytes) 0).0 z)))
    | inr z ↦ rw (z, takes conn.conn bytes s) refl
  ]

  on_written-ok :
      (go_on : ℤ → S → ℤ × S) (total n : ℤ) (r : Result ℤ × S)
      → r.0 ≡ ok n
      → on_written go_on total r ≡ go_on (i64 (total +ℤ n)) r.1
  on_written-ok go_on total n (ok m, s) e =
      let same : m ≡ n = cc in ap (λ k. go_on (i64 (total +ℤ k)) s) same
  on_written-ok go_on total n (err x, s) e = cc

  write_loop-from :
      TakesAll
      → (conn : Connection Ctx Cnx) (bytes : List ℕ) (rounds a : ℕ) (s : S)
      → (write_loop api conn bytes rounds (i64 (pos a)) s).0 ≡ i64 (pos (a + rounds * length bytes))
  unfolding write_loop
  write_loop-from takes conn bytes zero a s = ap (λ n. i64 (pos n)) (omega arith)
  write_loop-from takes conn bytes (suc rounds) a s =
      ap (λ r. r.0)
        (on_written-ok (write_loop api conn bytes rounds) (i64 (pos a)) (pos (length bytes))
          (write api conn bytes s) (write-all takes conn bytes s))
      ∙ ap (λ n. (write_loop api conn bytes rounds n (write api conn bytes s).1).0)
          (count_up a (length bytes))
      ∙ write_loop-from takes conn bytes rounds (a + length bytes) (write api conn bytes s).1
      ∙ ap (λ n. i64 (pos n)) (grind arith)

  -- The total of quic-bench, where the C side takes all that is sent: the number of rounds times the
  -- size of the chunk, as an int64.
  pub write_loop-total :
      TakesAll
      → (conn : Connection Ctx Cnx) (size rounds : ℕ) (s : S)
      → (write_loop api conn (chunk_from 0 size) rounds (pos 0) s).0 ≡ i64 (pos (rounds * size))
  unfolding i64
  write_loop-total takes conn size rounds s =
      write_loop-from takes conn (chunk_from 0 size) rounds 0 s
      ∙ ap (λ n. i64 (pos (0 + rounds * n))) (length-chunk_from 0 size)
      ∙ ap (λ n. i64 (pos n)) (omega arith)

  -- The reads that succeed one after another, with their counts, until one fails.
  pub data Reads (conn : Connection Ctx Cnx) : S → List ℤ → S → Type 0 where
    ends : {s s' : S} {e : QuicError} → read api conn 65_536 s ≡ (err e, s') → Reads conn s [] s'
    block :
        {s s' t : S} {n : ℤ} {b : List ℕ} {ns : List ℤ}
        → read api conn 65_536 s ≡ (ok (n, b), s')
        → Reads conn s' ns t
        → Reads conn s (n ∷ ns) t

  discard_loop-from :
      (conn : Connection Ctx Cnx) (fuel : ℕ) (a : ℤ) {s t : S} {ns : List ℤ}
      → Reads conn s ns t
      → length ns < fuel
      → discard_loop api conn fuel (i64 a) s ≡ (some (i64 (a +ℤ sum_ℤ ns)), t)
  unfolding discard_loop
  discard_loop-from conn zero a r h = absurd (omega arith)
  discard_loop-from conn (suc fuel) a {t = t} (ends e) h =
      ap (on_block api (discard_loop api conn fuel) (i64 a)) e
      ∙ (λ i. (some (i64 (zero_more a i)), t))
    where
      zero_more : (z : ℤ) → z ≡ z +ℤ pos 0
      zero_more z = omega int_laws
  discard_loop-from conn (suc fuel) a {t = t} (block {s' = s'} {n = n} {ns = ns} e rest) h =
      ap (on_block api (discard_loop api conn fuel) (i64 a)) e
      ∙ ap (λ k. discard_loop api conn fuel k s') (i64-add_i64 a n)
      ∙ discard_loop-from conn fuel (a +ℤ n) rest (omega arith)
      ∙ (λ i. (some (i64 (assoc a n (sum_ℤ ns) i)), t))
    where
      assoc : (x y z : ℤ) → x +ℤ y +ℤ z ≡ x +ℤ (y +ℤ z)
      assoc x y z = omega int_laws

  -- The total of the server of quic-test, once a read fails: the sum of the counts before it, as an
  -- int64. The loop ends with that read.
  pub discard_loop-Reads :
      (conn : Connection Ctx Cnx) (s t : S) (ns : List ℤ) (fuel : ℕ)
      → Reads conn s ns t
      → length ns < fuel
      → discard_loop api conn fuel (pos 0) s ≡ (some (i64 (sum_ℤ ns)), t)
  unfolding i64
  discard_loop-Reads conn s t ns fuel reads enough =
      discard_loop-from conn fuel (pos 0) reads enough
      ∙ (λ i. (some (i64 (none_before (sum_ℤ ns) i)), t))
    where
      none_before : (z : ℤ) → pos 0 +ℤ z ≡ z
      none_before z = omega int_laws
