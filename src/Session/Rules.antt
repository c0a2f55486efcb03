-- ===== src/Session/Rules.antt =====
-- A rule for each call of the wrapper on a monitored C side, and one for the sequence.
use l4s_poc.Base.{
  ◌≡◌, refl, Bool, true, false, Bool-cases, inl, inr, Option, none, some, if◌then◌else◌,
}
use l4s_poc.Base.Int.{ℤ}
use l4s_poc.Picoquic.{
  Context, Connection, QuicError, Result, is_zero, check, wrap, made, create_connection,
}
use l4s_poc.Session.{
  Fatal, invalid_address, invalid_port, context_failed, algorithm_failed, listen_failed,
  accept_failed, connect_failed, Outcome, returns, exits, and_then, fatal_on,
}
use l4s_poc.Session.Protocol.{Phase, fresh, opened, listening, is_some, after_create}

-- A program part has returned with `R`, or ended the process with `E`.
abbrev pub Holds : {S A : Type 0} → (A → S → Type 0) → (Fatal → S → Type 0) → Outcome A × S → Type 0
Holds R E (returns a, s) = R a s
Holds R E (exits why, s) = E why s

pub and_then-Holds :
    {S A B : Type 0} (R : A → S → Type 0) (Q : B → S → Type 0) (E : Fatal → S → Type 0)
    (f : A → S → Outcome B × S) (x : Outcome A × S)
    → Holds R E x
    → ((a : A) (s : S) → R a s → Holds Q E (f a s))
    → Holds Q E (and_then f x)
and_then-Holds R Q E f (returns a, s) h k = k a s h
and_then-Holds R Q E f (exits why, s) h k = h

-- The phase in which a program leaves the C side when it exits so.
abbrev pub phase_left : Fatal → Phase
phase_left invalid_address = fresh
phase_left invalid_port = fresh
phase_left (context_failed e) = fresh
phase_left (algorithm_failed e) = opened
phase_left (listen_failed e) = opened
phase_left (accept_failed e) = listening
phase_left (connect_failed e) = opened

abbrev pub Left : {S : Type 0} → Fatal → S × Phase → Type 0
Left why w = w.1 ≡ phase_left why

-- A context that has not been closed, in this phase.
abbrev pub InPhase : {S Ctx : Type 0} → Phase → Context Ctx → S × Phase → Type 0
InPhase {Ctx} p ctx w = ((c : Ctx) × (ctx.ctx ≡ some c)) × (w.1 ≡ p)

pub made-Holds :
    {S Ctx : Type 0} (server : Bool) (o : Option Ctx) (s : S)
    → Holds
        (InPhase opened)
        Left
        (fatal_on context_failed (made server (o, (s, after_create (is_some o) fresh))))
unfolding made
made-Holds server none s = refl
made-Holds server (some c) s = ((c, refl), refl)

pub check-Holds :
    {S : Type 0} (why : QuicError → Fatal) (e : QuicError) (Q : Unit {0} → S × Phase → Type 0)
    (n : ℤ) (w : S × Phase)
    → (is_zero n ≡ true → Q tt w)
    → (is_zero n ≡ false → Left (why e) w)
    → Holds Q Left (fatal_on why (check e (n, w)))
unfolding check
check-Holds why e Q n w good bad = elim (Bool-cases (is_zero n)) [
  | inl z ↦ rw z (good z)
  | inr z ↦ rw z (bad z)
]

pub wrap-Holds :
    {S Ctx Cnx : Type 0} (why : QuicError → Fatal) (ctx : Context Ctx)
    (Q : Connection Ctx Cnx → S × Phase → Type 0) (o : Option Cnx) (w : S × Phase)
    → ((c : Cnx) → o ≡ some c → Q (record { conn = c; context = ctx }) w)
    → (o ≡ none → Left (why create_connection) w)
    → Holds Q Left (fatal_on why (wrap ctx (o, w)))
unfolding wrap
wrap-Holds why ctx Q none w good bad = bad refl
wrap-Holds why ctx Q (some c) w good bad = good c refl

-- A call that is refused in the wrong role.
pub role-Holds :
    {S A : Type 0} (why : QuicError → Fatal) (Q : A → S × Phase → Type 0) (role : Bool)
    (x y : Result A × (S × Phase))
    → Holds Q Left (fatal_on why x)
    → Holds Q Left (fatal_on why y)
    → Holds Q Left (fatal_on why (if role then x else y))
role-Holds why Q true x y hx hy = hx
role-Holds why Q false x y hx hy = hy
