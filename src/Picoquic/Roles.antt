-- ===== src/Picoquic/Roles.antt =====
-- Contexts: what each role may do, and closing.
use l4s_poc.Base.{ℕ, ◌≡◌, refl, ap, List, Bool, true, false, Option, none, some}
use l4s_poc.Picoquic.{
  not_a_server, not_a_client, Api, Context, Result, ok, err, made, new_server_context,
  new_client_context, listen_on, accept, connect, close_context,
}

-- A context with its pointer, in this role.
abbrev pub Opened : {S Ctx Cnx : Type 0} → Api S Ctx Cnx → Bool → Context Ctx → Type 0
Opened {Ctx = Ctx} api role c = (p : Ctx) × (c ≡ record { ctx = some p; is_server = role })

module _ {S Ctx Cnx : Type 0} (api : Api S Ctx Cnx) where
  abbrev Holds : Bool → Result (Context Ctx) × S → Type 0
  Holds role (ok c, s) = Opened api role c
  Holds role (err e, s) = Unit

  server-Holds : (cert key : List ℕ) (s : S) → Holds true (new_server_context api cert key s)
  unfolding new_server_context made
  server-Holds cert key s = go (api.pq_create_context true (some (cert, key)) s)
    where
      go : (p : Option Ctx × S) → Holds true (made true p)
      go (none, s') = tt
      go (some ctx, s') = (ctx, refl)

  client-Holds : (s : S) → Holds false (new_client_context api s)
  unfolding new_client_context made
  client-Holds s = go (api.pq_create_context false none s)
    where
      go : (p : Option Ctx × S) → Holds false (made false p)
      go (none, s') = tt
      go (some ctx, s') = (ctx, refl)

  server_refuses :
      (c : Context Ctx) (server : List ℕ) (port : ℕ) (t : S)
      → Opened api true c
      → connect api c server port t ≡ (err not_a_client, t)
  unfolding connect
  server_refuses c server port t (p, e) = rw (ap (λ c'. c'.is_server) e) refl

  client_refuses :
      (c : Context Ctx) (port : ℕ) (t : S)
      → Opened api false c
      → (listen_on api c port t ≡ (err not_a_server, t)) × (accept api c t ≡ (err not_a_server, t))
  unfolding listen_on accept
  client_refuses c port t (p, e) =
      (rw (ap (λ c'. c'.is_server) e) refl, rw (ap (λ c'. c'.is_server) e) refl)

  -- A context that NewServerContext made can never connect: the call is an error, at any later
  -- time, and does not reach the C side.
  pub connect-new_server_context :
      (cert key : List ℕ) (s s' : S) (c : Context Ctx)
      → new_server_context api cert key s ≡ (ok c, s')
      → (server : List ℕ) (port : ℕ) (t : S) → connect api c server port t ≡ (err not_a_client, t)
  connect-new_server_context cert key s s' c made server port t =
      server_refuses c server port t (rw made at (server-Holds cert key s))

  -- A context that NewClientContext made can neither listen nor accept: both calls are errors, at
  -- any later time, and do not reach the C side.
  pub accept-new_client_context :
      (s s' : S) (c : Context Ctx)
      → new_client_context api s ≡ (ok c, s')
      → (port : ℕ) (t : S)
      → (listen_on api c port t ≡ (err not_a_server, t)) × (accept api c t ≡ (err not_a_server, t))
  accept-new_client_context s s' c made port t =
      client_refuses c port t (rw made at (client-Holds s))

  -- Closing a context a second time does nothing: the C context is destroyed once.
  pub close_context-close_context :
      (c : Context Ctx) (s t : S)
      → close_context api (close_context api c s).0 t ≡ ((close_context api c s).0, t)
  unfolding close_context
  close_context-close_context c s t = go c.ctx refl
    where
      go :
          (p : Option Ctx)
          → c.ctx ≡ p
          → close_context api (close_context api c s).0 t ≡ ((close_context api c s).0, t)
      go none e = rw e refl
      go (some p) e = rw e refl
