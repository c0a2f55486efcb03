-- ===== src/Session/Servers.antt =====
-- The servers keep the protocol of the C wrapper: the server of quic-test, and how quic-recv begins.
use l4s_poc.Base.{ℕ, zero, suc, ◌≡◌, refl, ap, List, Bool, true, false, Option, none, some}
use l4s_poc.Base.Int.{ℤ, pos, ◌+ℤ◌}
use l4s_poc.Base.Words.{i64, u16}
use l4s_poc.Picoquic.{
  Api, Context, Connection, Result, ok, err, new_server_context, set_congestion_algorithm,
  listen_on, accept, read,
}
use l4s_poc.Session.{context_failed, algorithm_failed, listen_failed, accept_failed, or_fatal}
use l4s_poc.Session.Loopback.{on_block, discard_loop, run_server}
use l4s_poc.Session.Receiving.{await_connection, open_server}
use l4s_poc.Session.Protocol.{Phase, fresh, opened, listening, live, gone, monitored, after_close}
use l4s_poc.Session.Rules.{Holds, and_then-Holds, Left, InPhase}
use l4s_poc.Session.Calls.{
  new_server_context-Holds, set_congestion_algorithm-Holds, listen_on-Holds, accept-Holds,
}
use l4s_poc.Session.Transfers.{read-live, close_context-gone, close_both-gone}

-- What quic-recv goes on with.
abbrev pub Began :
    {S Ctx Cnx : Type 0} → Option (Context Ctx × Connection Ctx Cnx) → S × Phase → Type 0
Began none w = w.1 ≡ gone
Began (some (ctx, conn)) w = InPhase live ctx w

module _ {S Ctx Cnx : Type 0} (api : Api S Ctx Cnx) where
  on_block-live :
      (go_on : ℤ → S × Phase → Option ℤ × (S × Phase)) (total : ℤ)
      (r : Result (ℤ × List ℕ) × (S × Phase))
      → r.1.1 ≡ live
      → ((t : ℤ) (w : S × Phase) → w.1 ≡ live → (go_on t w).1.1 ≡ live)
      → (on_block (monitored api) go_on total r).1.1 ≡ live
  on_block-live go_on total (ok (n, block), w) e k = k (i64 (total +ℤ n)) w e
  on_block-live go_on total (err x, w) e k = e

  discard_loop-live :
      (conn : Connection Ctx Cnx) (fuel : ℕ) (total : ℤ) (w : S × Phase)
      → w.1 ≡ live
      → (discard_loop (monitored api) conn fuel total w).1.1 ≡ live
  unfolding discard_loop
  discard_loop-live conn zero total w e = e
  discard_loop-live conn (suc fuel) total w e =
      on_block-live (discard_loop (monitored api) conn fuel) total
        (read (monitored api) conn 65_536 w) (read-live api conn 65_536 w e)
        (λ t v f. discard_loop-live conn fuel t v f)

  -- The server of quic-test keeps it too, and never finishes a stream.
  pub run_server-Holds :
      (cert key : List ℕ) (fuel : ℕ) (s : S)
      → Holds (λ total w. w.1 ≡ gone) Left (run_server (monitored api) cert key fuel (s, fresh))
  unfolding run_server
  run_server-Holds cert key fuel s =
      and_then-Holds (InPhase opened) _ Left _
        (or_fatal context_failed (new_server_context (monitored api) cert key) (s, fresh))
        (new_server_context-Holds api cert key (s, fresh) refl)
        (λ ctx v h.
          and_then-Holds (λ a. InPhase listening ctx) _ Left _
            (or_fatal listen_failed (listen_on (monitored api) ctx 29_999) v)
            (listen_on-Holds api ctx 29_999 v h)
            (λ a u k.
              and_then-Holds (λ c. InPhase live ctx) _ Left _
                (or_fatal accept_failed (accept (monitored api) ctx) u) (accept-Holds api ctx u k)
                (λ conn x l.
                  close_both-gone api ctx conn (discard_loop (monitored api) conn fuel (pos 0) x).1
                    l.0 (ap after_close (discard_loop-live conn fuel (pos 0) x l.1)))))

  await_connection-Holds :
      (signalled : Bool) (ctx : Context Ctx) (w : S × Phase)
      → InPhase listening ctx w
      → Holds Began Left (await_connection (monitored api) signalled ctx w)
  unfolding await_connection
  await_connection-Holds true ctx w h = close_context-gone api ctx w h
  await_connection-Holds false ctx w h =
      and_then-Holds (λ c. InPhase live ctx) _ Left _
        (or_fatal accept_failed (accept (monitored api) ctx) w) (accept-Holds api ctx w h)
        (λ conn v k. k)

  -- quic-recv keeps the protocol of the C wrapper up to its receiving loop: it has an open connection,
  -- or a signal came first, and then the context is destroyed.
  pub open_server-Holds :
      (signalled : Bool) (cert key algo : List ℕ) (port : ℕ) (s : S)
      → Holds Began Left (open_server (monitored api) signalled cert key algo port (s, fresh))
  unfolding open_server
  open_server-Holds signalled cert key algo port s =
      and_then-Holds (InPhase opened) _ Left _
        (or_fatal context_failed (new_server_context (monitored api) cert key) (s, fresh))
        (new_server_context-Holds api cert key (s, fresh) refl)
        (λ ctx v h.
          and_then-Holds (λ a. InPhase opened ctx) _ Left _
            (or_fatal algorithm_failed (set_congestion_algorithm (monitored api) ctx algo) v)
            (set_congestion_algorithm-Holds api ctx algo v h)
            (λ a u k.
              and_then-Holds (λ b. InPhase listening ctx) _ Left _
                (or_fatal listen_failed (listen_on (monitored api) ctx (u16 port)) u)
                (listen_on-Holds api ctx (u16 port) u k)
                (λ b x l. await_connection-Holds signalled ctx x l)))
