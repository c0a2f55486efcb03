-- ===== src/Session/Transfers.antt =====
-- Each call on a connection, and the closing calls, on a monitored C side.
use l4s_poc.Base.{
  ℕ, zero, suc, ◌∙◌, ◌≡◌, refl, sym, ap, List, Bool-cases, inl, inr, some, length, ◌==◌,
}
use l4s_poc.Base.Int.{ℤ}
use l4s_poc.Picoquic.{
  Api, Context, Connection, QuicError, Result, ok, err, is_zero, is_negative, check, counted,
  filled, stream_end, send, timeout, close_context, write, read, finish_stream,
  wait_stream_complete, close_connection, read_datagram,
}
use l4s_poc.Session.{close_both}
use l4s_poc.Session.Sending.{after_read, read_times}
use l4s_poc.Session.Protocol.{
  Phase, listening, live, finished, closed, gone, monitored, after_close, after_destroy, after_send,
  after_receive, after_datagram, after_finish, after_wait,
}
use l4s_poc.Session.Rules.{InPhase}

check-state : {W : Type 0} (e : QuicError) (n : ℤ) (w : W) → (check e (n, w)).1 ≡ w
unfolding check
check-state e n w = elim (Bool-cases (is_zero n)) [ inl z ↦ rw z refl | inr z ↦ rw z refl ]

counted-state : {W : Type 0} (e : QuicError) (n : ℤ) (w : W) → (counted e (n, w)).1 ≡ w
unfolding counted
counted-state e n w = elim (Bool-cases (is_negative n)) [ inl z ↦ rw z refl | inr z ↦ rw z refl ]

stream_end-state : {W : Type 0} (r : Result (ℤ × List ℕ) × W) → (stream_end r).1 ≡ r.1
unfolding stream_end
stream_end-state (err e, w) = refl
stream_end-state (ok (n, b), w) = elim (Bool-cases (is_zero n)) [
  | inl z ↦ rw z refl
  | inr z ↦ rw z refl
]

filled-state : {W : Type 0} (r : ℤ × List ℕ) (w : W) → (filled (r, w)).1 ≡ w
unfolding filled
filled-state (n, b) w = elim (Bool-cases (is_negative n)) [ inl z ↦ rw z refl | inr z ↦ rw z refl ]

module _ {S Ctx Cnx : Type 0} (api : Api S Ctx Cnx) where
  -- A write in an open connection leaves it so; an empty one does not reach the C side.
  pub write-live :
      (conn : Connection Ctx Cnx) (bytes : List ℕ) (w : S × Phase)
      → w.1 ≡ live
      → (write (monitored api) conn bytes w).1.1 ≡ live
  unfolding write
  write-live conn bytes (s, p) e = elim (Bool-cases (length bytes == 0)) [
    | inl z ↦ rw z e
    | inr z ↦ rw z (
        ap (λ (v : S × Phase). v.1)
          (counted-state send (api.pq_send_stream conn.conn bytes s).0
            ((api.pq_send_stream conn.conn bytes s).1, after_send p))
        ∙ ap after_send e)
  ]

  pub read-live :
      (conn : Connection Ctx Cnx) (size : ℕ) (w : S × Phase)
      → w.1 ≡ live
      → (read (monitored api) conn size w).1.1 ≡ live
  unfolding read
  read-live conn size (s, p) e = elim (Bool-cases (size == 0)) [
    | inl z ↦ rw z e
    | inr z ↦
        (let (block, s') = api.pq_recv_stream conn.conn size s in
          rw z (
            ap (λ (v : S × Phase). v.1)
              (stream_end-state (filled (block, (s', after_receive p)))
                ∙ filled-state block (s', after_receive p))
            ∙ ap after_receive e))
  ]

  pub finish_stream-finished :
      (conn : Connection Ctx Cnx) (w : S × Phase)
      → w.1 ≡ live
      → (finish_stream (monitored api) conn w).1.1 ≡ finished
  unfolding finish_stream
  finish_stream-finished conn (s, p) e =
      let (n, s') = api.pq_finish_stream conn.conn s in
      ap (λ (v : S × Phase). v.1) (check-state send n (s', after_finish p)) ∙ ap after_finish e

  pub wait_stream_complete-finished :
      (conn : Connection Ctx Cnx) (ms : ℤ) (w : S × Phase)
      → w.1 ≡ finished
      → (wait_stream_complete (monitored api) conn ms w).1.1 ≡ finished
  unfolding wait_stream_complete
  wait_stream_complete-finished conn ms (s, p) e =
      let (n, s') = api.pq_wait_stream_complete conn.conn ms s in
      ap (λ (v : S × Phase). v.1) (check-state timeout n (s', after_wait p)) ∙ ap after_wait e

  after_read-phase :
      (p : Phase) (go_on : S × Phase → S × Phase) (r : Result (ℤ × List ℕ) × (S × Phase))
      → r.1.1 ≡ p
      → ((w : S × Phase) → w.1 ≡ p → (go_on w).1 ≡ p)
      → (after_read go_on r).1 ≡ p
  after_read-phase p go_on (ok b, w) e k = k w e
  after_read-phase p go_on (err x, w) e k = e

  read_datagram-phase :
      (conn : Connection Ctx Cnx) (size : ℕ) (w : S × Phase)
      → after_datagram w.1 ≡ w.1
      → (read_datagram (monitored api) conn size w).1.1 ≡ w.1
  unfolding read_datagram
  read_datagram-phase conn size (s, p) stays = elim (Bool-cases (size == 0)) [
    | inl z ↦ rw z refl
    | inr z ↦
        (let (block, s') = api.pq_recv_datagram conn.conn size s in
          rw z (ap (λ (v : S × Phase). v.1) (filled-state block (s', after_datagram p)) ∙ stays))
  ]

  -- The goroutine of quic-send leaves a phase in which datagrams may be received as it is.
  pub read_times-phase :
      (n : ℕ) (conn : Connection Ctx Cnx) (p : Phase) (w : S × Phase)
      → after_datagram p ≡ p
      → w.1 ≡ p
      → (read_times (monitored api) n conn w).1 ≡ p
  unfolding read_times
  read_times-phase zero conn p w stays e = e
  read_times-phase (suc n) conn p w stays e =
      after_read-phase p (read_times (monitored api) n conn)
        (read_datagram (monitored api) conn 1500 w)
        (read_datagram-phase conn 1500 w (ap after_datagram e ∙ stays ∙ sym e) ∙ e)
        (λ v f. read_times-phase n conn p v stays f)

  pub close_context-phase :
      (ctx : Context Ctx) (w : S × Phase) (c : Ctx)
      → ctx.ctx ≡ some c
      → (close_context (monitored api) ctx w).1.1 ≡ after_destroy w.1
  unfolding close_context
  close_context-phase ctx (s, p) c is_open = rw (is_open, close_context) refl

  pub close_context-gone :
      (ctx : Context Ctx) (w : S × Phase)
      → InPhase listening ctx w
      → (close_context (monitored api) ctx w).1.1 ≡ gone
  close_context-gone ctx w ((c, is_open), e) =
      close_context-phase ctx w c is_open ∙ ap after_destroy e

  pub close_both-gone :
      (ctx : Context Ctx) (conn : Connection Ctx Cnx) (w : S × Phase)
      → (c : Ctx) × (ctx.ctx ≡ some c)
      → after_close w.1 ≡ closed
      → (close_both (monitored api) ctx conn w).1.1 ≡ gone
  unfolding close_both close_connection
  close_both-gone ctx conn (s, p) (c, is_open) e =
      close_context-phase ctx (api.pq_close_connection conn.conn s, after_close p) c is_open
      ∙ ap after_destroy e
