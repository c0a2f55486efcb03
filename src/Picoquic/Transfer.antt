-- ===== src/Picoquic/Transfer.antt =====
-- Reading and writing on a connection.
use l4s_poc.Base.{ℕ, zero, suc, ◌≤◌, ◌<◌, ◌≡◌, refl, sym, ◌∙◌, List, false, arith, ◌==◌}
use l4s_poc.Base.Int.{ℤ, pos, negsuc, pos_part}
use l4s_poc.Picoquic.{
  receive, end_of_stream, Api, Connection, Result, ok, err, filled, stream_end, read,
}

-- What a read of `size` bytes may answer: a count of 1 to `size` bytes, the end of the stream, or a
-- failure; a count of 0 only where nothing was asked for.
abbrev pub IsAnswer : {S : Type 0} → ℕ → Result (ℤ × List ℕ) × S → Type 0
IsAnswer size (ok (pos n, b), s) = (n ≤ size) × ((n == 0) ≡ (size == 0))
IsAnswer size (ok (negsuc n, b), s) = ⊥
IsAnswer size (err end_of_stream, s) = 0 < size
IsAnswer size (err receive, s) = 0 < size
IsAnswer size (err e, s) = ⊥

module _ {S Ctx Cnx : Type 0} (api : Api S Ctx Cnx) where
  answer :
      (size : ℕ) (r : (ℤ × List ℕ) × S)
      → 0 < size
      → pos_part r.0.0 ≤ size
      → IsAnswer size (stream_end (filled r))
  unfolding stream_end filled
  answer size ((negsuc n, b), s) some_space bounded = some_space
  answer size ((pos zero, b), s) some_space bounded = some_space
  answer size ((pos (suc n), b), s) some_space bounded =
      let some_bytes : (suc n == 0) ≡ false = ground arith in
      rw some_bytes (bounded, some_bytes ∙ sym none_asked)
    where
      none_asked : (size == 0) ≡ false
      none_asked = ground arith

  -- Read keeps the contract of `io.Reader`, if `pq_recv_stream` never gives more bytes than it has
  -- space for: it answers 1 to `size` bytes, `io.EOF` or ErrReceive, and 0 bytes only for an empty
  -- buffer; so `io.ReadFull` over it always gets on.
  pub read-IsAnswer :
      ((cnx : Cnx) (size : ℕ) (s : S) → pos_part (api.pq_recv_stream cnx size s).0.0 ≤ size)
      → (c : Connection Ctx Cnx) (size : ℕ) (s : S) → IsAnswer size (read api c size s)
  unfolding read
  read-IsAnswer law c zero s = (omega arith, refl)
  read-IsAnswer law c (suc size) s =
      let some_space : (suc size == 0) ≡ false = ground arith in
      rw some_space (
        answer (suc size) (api.pq_recv_stream c.conn (suc size) s) (omega arith)
          (law c.conn (suc size) s))
