-- ===== src/Session.antt =====
-- The programs around the picoquic wrapper: cmd/quic-bench/main.go, cmd/quic-test/main.go, and how
-- cmd/quic-send/main.go and cmd/quic-recv/main.go begin and end. `log.Fatalf` ends the process where it
-- stands, without the deferred calls; what it ends with is a `Fatal`.
pub mod Address
pub mod Bench
pub mod Loopback
pub mod Sending
pub mod Receiving
pub mod Protocol
pub mod Rules
pub mod Calls
pub mod Transfers
pub mod Beside
pub mod Clients
pub mod Servers
pub mod Totals
mod Tests
use l4s_poc.Base.{ℕ, List, Bool}
use l4s_poc.Picoquic.{
  Api, Context, Connection, QuicError, Result, ok, err, new_client_context,
  set_congestion_algorithm, connect, close_context, close_connection,
}

pub data Fatal : Type 0 where
  invalid_address invalid_port : Fatal
  context_failed algorithm_failed listen_failed accept_failed connect_failed : QuicError → Fatal

pub data Outcome (A : Type 0) : Type 0 where
  returns : A → Outcome A
  exits : Fatal → Outcome A

-- A part of a program, over the state `S` of the C side.
abbrev pub M : Type 0 → Type 0 → Type 0
M S A = S → Outcome A × S

abbrev pub and_then : {S A B : Type 0} → (A → S → Outcome B × S) → Outcome A × S → Outcome B × S
and_then f (returns a, s) = f a s
and_then f (exits why, s) = (exits why, s)

infixl 5 ◌>>=◌ ◌>>◌
abbrev pub ◌>>=◌ :
    {S A B : Type 0} → (S → Outcome A × S) → (A → S → Outcome B × S) → S → Outcome B × S
◌>>=◌ m f s = and_then f (m s)

abbrev pub ◌>>◌ :
    {S B : Type 0} → (S → Outcome (Unit {0}) × S) → (S → Outcome B × S) → S → Outcome B × S
◌>>◌ m k s = and_then (λ _. k) (m s)

abbrev pub return : {S A : Type 0} → A → S → Outcome A × S
return a s = (returns a, s)

-- `if err != nil { log.Fatalf(…) }`.
abbrev pub fatal_on : {S A : Type 0} → (QuicError → Fatal) → Result A × S → Outcome A × S
fatal_on why (ok a, s) = (returns a, s)
fatal_on why (err e, s) = (exits (why e), s)

abbrev pub or_fatal : {S A : Type 0} → (QuicError → Fatal) → (S → Result A × S) → S → Outcome A × S
or_fatal why m s = fatal_on why (m s)

-- `if err != nil { log.Printf(…) }`, or an error that is not looked at.
abbrev pub or_log : {S A : Type 0} → (S → Result A × S) → S → Outcome (Unit {0}) × S
or_log m s = (returns tt, (m s).1)

module _ {S Ctx Cnx : Type 0} (api : Api S Ctx Cnx) where
  -- How the three clients begin.
  unfoldable pub open_client : List ℕ → List ℕ → ℕ → M S (Context Ctx × Connection Ctx Cnx)
  open_client algo host port = do
    ctx ← or_fatal context_failed (new_client_context api)
    or_fatal algorithm_failed (set_congestion_algorithm api ctx algo)
    conn ← or_fatal connect_failed (connect api ctx host port)
    return (ctx, conn)

  -- The deferred calls, the last first.
  unfoldable pub close_both : Context Ctx → Connection Ctx Cnx → M S (Unit {0})
  close_both ctx conn s = (returns tt, (close_context api ctx (close_connection api conn s)).1)
