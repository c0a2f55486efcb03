-- ===== src/Session/Calls.antt =====
-- Each call by which a session is set up, on a monitored C side.
use l4s_poc.Base.{ℕ, ◌≡◌, refl, sym, ap, List, true, false, none, some}
use mathlib.Core.Path.{subst}
use l4s_poc.Picoquic.{
  Api, Context, err, is_zero, check, wrap, made, not_a_server, not_a_client, set_algorithm, listen,
  new_client_context, new_server_context, set_congestion_algorithm, listen_on, accept, connect,
}
use l4s_poc.Session.{
  context_failed, algorithm_failed, listen_failed, accept_failed, connect_failed, fatal_on,
  or_fatal,
}
use l4s_poc.Session.Protocol.{
  Phase, fresh, opened, listening, live, monitored, is_some, after_create, after_set_up,
  after_listen, after_accept, after_connect,
}
use l4s_poc.Session.Rules.{Holds, Left, InPhase, made-Holds, check-Holds, wrap-Holds, role-Holds}

module _ {S Ctx Cnx : Type 0} (api : Api S Ctx Cnx) where
  pub new_client_context-Holds :
      (w : S × Phase)
      → w.1 ≡ fresh
      → Holds (InPhase opened) Left (or_fatal context_failed (new_client_context (monitored api)) w)
  unfolding new_client_context
  new_client_context-Holds (s, p) e =
      let (o, s') = api.pq_create_context false none s in
      subst
        (λ q.
          Holds (InPhase opened) Left
            (fatal_on context_failed (made false (o, (s', after_create (is_some o) q)))))
        (sym e) (made-Holds false o s')

  pub new_server_context-Holds :
      (cert key : List ℕ) (w : S × Phase)
      → w.1 ≡ fresh
      → Holds
          (InPhase opened)
          Left
          (or_fatal context_failed (new_server_context (monitored api) cert key) w)
  unfolding new_server_context
  new_server_context-Holds cert key (s, p) e =
      let (o, s') = api.pq_create_context true (some (cert, key)) s in
      subst
        (λ q.
          Holds (InPhase opened) Left
            (fatal_on context_failed (made true (o, (s', after_create (is_some o) q)))))
        (sym e) (made-Holds true o s')

  pub set_congestion_algorithm-Holds :
      (ctx : Context Ctx) (algo : List ℕ) (w : S × Phase)
      → InPhase opened ctx w
      → Holds
          (λ a. InPhase opened ctx)
          Left
          (or_fatal algorithm_failed (set_congestion_algorithm (monitored api) ctx algo) w)
  unfolding set_congestion_algorithm
  set_congestion_algorithm-Holds ctx algo (s, p) (is_open, e) =
      let (n, s') = api.pq_set_congestion_algorithm ctx.ctx algo s in
      check-Holds algorithm_failed set_algorithm (λ a. InPhase opened ctx) n (s', after_set_up p)
        (λ z. (is_open, ap after_set_up e)) (λ z. ap after_set_up e)

  pub listen_on-Holds :
      (ctx : Context Ctx) (port : ℕ) (w : S × Phase)
      → InPhase opened ctx w
      → Holds
          (λ a. InPhase listening ctx)
          Left
          (or_fatal listen_failed (listen_on (monitored api) ctx port) w)
  unfolding listen_on
  listen_on-Holds ctx port (s, p) (is_open, e) =
      let (n, s') = api.pq_listen ctx.ctx port s in
      role-Holds listen_failed (λ a. InPhase listening ctx) ctx.is_server
        (check listen (n, (s', after_listen (is_zero n) p))) (err not_a_server, (s, p))
        (check-Holds listen_failed listen (λ a. InPhase listening ctx) n
          (s', after_listen (is_zero n) p) (λ z. (is_open, rw (z, e) refl)) (λ z. rw (z, e) refl))
        e

  pub accept-Holds :
      (ctx : Context Ctx) (w : S × Phase)
      → InPhase listening ctx w
      → Holds (λ c. InPhase live ctx) Left (or_fatal accept_failed (accept (monitored api) ctx) w)
  unfolding accept
  accept-Holds ctx (s, p) (is_open, e) =
      let (o, s') = api.pq_accept ctx.ctx s in
      role-Holds accept_failed (λ c. InPhase live ctx) ctx.is_server
        (wrap ctx (o, (s', after_accept (is_some o) p))) (err not_a_server, (s, p))
        (wrap-Holds accept_failed ctx (λ c. InPhase live ctx) o (s', after_accept (is_some o) p)
          (λ c z. (is_open, rw (z, e) refl)) (λ z. rw (z, e) refl))
        e

  pub connect-Holds :
      (ctx : Context Ctx) (host : List ℕ) (port : ℕ) (w : S × Phase)
      → InPhase opened ctx w
      → Holds
          (λ c. InPhase live ctx)
          Left
          (or_fatal connect_failed (connect (monitored api) ctx host port) w)
  unfolding connect
  connect-Holds ctx host port (s, p) (is_open, e) =
      let (o, s') = api.pq_connect ctx.ctx host port s in
      role-Holds connect_failed (λ c. InPhase live ctx) ctx.is_server (err not_a_client, (s, p))
        (wrap ctx (o, (s', after_connect (is_some o) p))) e
        (wrap-Holds connect_failed ctx (λ c. InPhase live ctx) o (s', after_connect (is_some o) p)
          (λ c z. (is_open, rw (z, e) refl)) (λ z. rw (z, e) refl))
