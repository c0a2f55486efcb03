-- ===== src/Session/Receiving.antt =====
-- cmd/quic-recv/main.go, `main`, before the receiving loop: lines 50 to 102.
use l4s_poc.Base.{ℕ, List, Bool, true, false, Option, none, some}
use l4s_poc.Base.Words.{u16}
use l4s_poc.Picoquic.{
  Api, Context, Connection, new_server_context, set_congestion_algorithm, listen_on, accept,
  close_context,
}
use l4s_poc.Session.{
  Outcome, returns, context_failed, algorithm_failed, listen_failed, accept_failed, M, ◌>>=◌, ◌>>◌,
  return, or_fatal,
}

module _ {S Ctx Cnx : Type 0} (api : Api S Ctx Cnx) where
  -- The `select` over the signal and the goroutine in `Accept`; the signal closes the context.
  unfoldable pub await_connection :
      Bool → Context Ctx → S → Outcome (Option (Context Ctx × Connection Ctx Cnx)) × S
  await_connection true ctx s = (returns none, (close_context api ctx s).1)
  await_connection false ctx s =
      (do conn ← or_fatal accept_failed (accept api ctx); return (some (ctx, conn))) s

  -- `none` if a signal came before a connection. `uint16` cuts the port.
  unfoldable pub open_server :
      Bool → List ℕ → List ℕ → List ℕ → ℕ → M S (Option (Context Ctx × Connection Ctx Cnx))
  unfolding await_connection
  open_server signalled cert key algo port = do
    ctx ← or_fatal context_failed (new_server_context api cert key)
    or_fatal algorithm_failed (set_congestion_algorithm api ctx algo)
    or_fatal listen_failed (listen_on api ctx (u16 port))
    await_connection signalled ctx
