-- ===== src/Session/Beside.antt =====
-- The sending loop and the end of quic-send, with the goroutine that reads datagrams in between, keep the
-- protocol of the C wrapper.
use l4s_poc.Base.{ℕ, ◌+◌, ◌<◌, length, ◌≡◌, refl, ap, ◌∙◌, List, Bool, some}
use l4s_poc.Base.Int.{ℤ, pos}
use l4s_poc.Picoquic.{
  Api, Context, Connection, write, finish_stream, wait_stream_complete, close_connection,
  close_context,
}
use l4s_poc.Session.Protocol.{
  Phase, live, finished, closed, gone, monitored, after_close, after_destroy,
}
use mathlib.Core.Path.{subst}
use l4s_poc.Io.{Stream}
use l4s_poc.QuicSend.{new_sender}
use l4s_poc.QuicSend.Ends.{send_loop-Ends, send_loop-Kept, Kept}
use l4s_poc.Session.Sending.{
  error_of-state, counts_of, write_error, goroutine, send_all, finish_session,
}
use l4s_poc.Session.Rules.{Holds, Left, InPhase}
use l4s_poc.Session.Transfers.{
  write-live, read_times-phase, close_context-phase, finish_stream-finished,
  wait_stream_complete-finished,
}

module _ {S Ctx Cnx : Type 0} (api : Api S Ctx Cnx) where
  -- The loop of quic-send writes on the open connection only, whatever its goroutine does.
  pub write_error-live :
      (reads : S × Phase → ℕ) (conn : Connection Ctx Cnx) (w : S × Phase) (bytes : List ℕ)
      → w.1 ≡ live
      → (write_error (monitored api) reads conn w bytes).1.1 ≡ live
  write_error-live reads conn w bytes e =
      let v = goroutine (monitored api) reads conn w in
      ap (λ u. u.1) (error_of-state (write (monitored api) conn bytes v))
      ∙ write-live api conn bytes v (read_times-phase api (reads w) conn live w refl e)

  -- The sending loop, in an open connection.
  pub send_all-Holds :
      (reads : S × Phase → ℕ) (signalled : ℕ → Bool) (input : Stream) (fuel : ℕ) (ctx : Context Ctx)
      (conn : Connection Ctx Cnx) (v : S × Phase)
      → length input + 1 < fuel
      → InPhase live ctx v
      → Holds
          (λ counts u. ((c : ℤ × ℤ) × (counts ≡ some c)) × InPhase live ctx u)
          Left
          (send_all (monitored api) reads signalled conn input fuel v)
  unfolding new_sender
  send_all-Holds reads signalled input fuel ctx conn v enough (is_open, e) =
      let write = write_error (monitored api) reads conn in
      let IsLive = λ (w : S × Phase). w.1 ≡ live in
      let (out, ran) = send_loop-Ends write signalled input v fuel enough in
      let kept =
        send_loop-Kept write signalled IsLive (write_error-live reads conn) fuel 0
          (new_sender input v) e in
      rw (ran, counts_of) ((_, refl), (is_open, subst (Kept IsLive) ran kept))

  -- The end of quic-send, with its goroutine in between.
  pub finish_session-gone :
      (reads : S × Phase → ℕ) (ctx : Context Ctx) (conn : Connection Ctx Cnx) (w : S × Phase)
      → InPhase live ctx w
      → Holds (λ a u. u.1 ≡ gone) Left (finish_session (monitored api) reads ctx conn w)
  unfolding finish_session close_connection
  finish_session-gone reads ctx conn w ((c, is_open), e) =
      let read = λ (v : S × Phase). goroutine (monitored api) reads conn v in
      let w1 = read w in
      let w2 = (finish_stream (monitored api) conn w1).1 in
      let w3 = read w2 in
      let w4 = (wait_stream_complete (monitored api) conn (pos 30_000) w3).1 in
      let w5 = read w4 in
      let w6 = close_connection (monitored api) conn w5 in
      let w7 = read w6 in
      let w8 = (close_context (monitored api) ctx w7).1 in
      let e1 = read_times-phase api (reads w) conn live w refl e in
      let e2 = finish_stream-finished api conn w1 e1 in
      let e3 = read_times-phase api (reads w2) conn finished w2 refl e2 in
      let e4 = wait_stream_complete-finished api conn (pos 30_000) w3 e3 in
      let e5 = read_times-phase api (reads w4) conn finished w4 refl e4 in
      let e6 : w6.1 ≡ closed = ap after_close e5 in
      let e7 = read_times-phase api (reads w6) conn closed w6 refl e6 in
      let e8 : w8.1 ≡ gone = close_context-phase api ctx w7 c is_open ∙ ap after_destroy e7 in
      read_times-phase api (reads w8) conn gone w8 refl e8
