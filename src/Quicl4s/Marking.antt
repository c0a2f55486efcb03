-- ===== src/Quicl4s/Marking.antt =====
-- What EnableL4S does: a program that uses the package by any calls, each chosen by the answers so far.
use l4s_poc.Base.{
  ℕ, zero, suc, ◌≡◌, refl, ap, ◌∙◌, List, [], ◌∷◌, ◌++◌, Bool, Option, none, some, get_elem?,
}
use l4s_poc.Quicl4s.{
  Api, Config, Server, Connection, Stream, Result, ok, err, Error, TlsConfig, and_then, or_return,
  new_client, connect, new_server, accept_connection, open_stream, accept_stream, send_datagram,
  receive_datagram, close_connection, read_stream, write_stream, close_stream, client_tls_config,
  quic_config_or_default, failed_to_dial, failed_to_listen, failed_to_generate, server_tls_config,
}

-- A call on a connection, or on one of the streams that it has given, by number.
pub data Call : Type 0 where
  open_new close_all : Call
  accept_next await_datagram : ℕ → Call
  send : List ℕ → Call
  read_from : ℕ → ℕ → Call
  write_to : ℕ → List ℕ → Call
  finish : ℕ → Call

pub data Answer (E : Type 0) : Type 0 where
  done no_stream : Answer E
  failed : E → Answer E
  failed_to_start : Error E → Answer E
  bytes : List ℕ → Answer E
  count : ℕ → Answer E

-- The streams given so far, and the state.
abbrev pub Held : Type 0 → Type 0 → Type 0
Held T S = List (Stream T) × S

module _ {E T S : Type 0} where
  abbrev pub given : List (Stream T) → Result E (Stream T) × S → Answer E × Held T S
  given ts (ok t, s) = (done, (ts ++ (t ∷ []), s))
  given ts (err e, s) = (failed e, (ts, s))

  abbrev pub told : List (Stream T) → Option E × S → Answer E × Held T S
  told ts (none, s) = (done, (ts, s))
  told ts (some e, s) = (failed e, (ts, s))

  abbrev pub read : List (Stream T) → Result E (List ℕ) × S → Answer E × Held T S
  read ts (ok b, s) = (bytes b, (ts, s))
  read ts (err e, s) = (failed e, (ts, s))

  abbrev pub wrote : List (Stream T) → Result E ℕ × S → Answer E × Held T S
  wrote ts (ok n, s) = (count n, (ts, s))
  wrote ts (err e, s) = (failed e, (ts, s))

  -- On the stream of this number, if there is one.
  abbrev pub on_stream :
      Option (Stream T) → Held T S → (Stream T → Answer E × Held T S) → Answer E × Held T S
  on_stream none h f = (no_stream, h)
  on_stream (some t) h f = f t

-- The call that the program makes, or its end.
abbrev pub next_call : {B : Type 0} → (Call → B) → B → Option Call → B
next_call make end none = end
next_call make end (some call) = make call

next_call-cong :
    {B : Type 0} (f g : Call → B) (end : B) (next : Option Call)
    → ((call : Call) → f call ≡ g call)
    → next_call f end next ≡ next_call g end next
next_call-cong f g end none same = refl
next_call-cong f g end (some call) same = same call

module _ {S E L Q T A Key Der C : Type 0} (api : Api S E L Q T A Key Der C) where
  unfoldable pub answer : Connection Q → Call → Held T S → Answer E × Held T S
  answer c Call.open_new (ts, s) = given ts (open_stream api c s)
  answer c Call.close_all (ts, s) = told ts (close_connection api c s)
  answer c (Call.accept_next ctx) (ts, s) = given ts (accept_stream api c ctx s)
  answer c (Call.await_datagram ctx) (ts, s) = read ts (receive_datagram api c ctx s)
  answer c (Call.send b) (ts, s) = told ts (send_datagram api c b s)
  answer c (Call.read_from k n) (ts, s) =
      on_stream (get_elem? ts k) (ts, s) (λ t. read ts (read_stream api t n s))
  answer c (Call.write_to k b) (ts, s) =
      on_stream (get_elem? ts k) (ts, s) (λ t. wrote ts (write_stream api t b s))
  answer c (Call.finish k) (ts, s) =
      on_stream (get_elem? ts k) (ts, s) (λ t. told ts (close_stream api t s))

  -- So many calls of a program, which ends where it has no next one.
  unfoldable pub run :
      (List (Answer E) → Option Call)
      → ℕ
      → Connection Q
      → List (Answer E)
      → Held T S
      → List (Answer E) × Held T S
  run user zero c log h = (log, h)
  run user (suc n) c log h =
      next_call (λ call. run user n c (log ++ ((answer c call h).0 ∷ [])) (answer c call h).1)
        (log, h) (user log)

  abbrev pub on_connected :
      (List (Answer E) → Option Call)
      → ℕ
      → Result (Error E) (Connection Q) × S
      → List (Answer E) × Held T S
  on_connected user n (ok c, s) = run user n c [] ([], s)
  on_connected user n (err e, s) = (failed_to_start e ∷ [], ([], s))

  abbrev pub on_accepted :
      (List (Answer E) → Option Call) → ℕ → Result E (Connection Q) × S → List (Answer E) × Held T S
  on_accepted user n (ok c, s) = run user n c [] ([], s)
  on_accepted user n (err e, s) = (failed e ∷ [], ([], s))

  -- A client, and a server that accepts one connection.
  unfoldable pub use_client :
      (List (Answer E) → Option Call) → ℕ → Config C → ℕ → S → List (Answer E) × Held T S
  use_client user n config ctx s = on_connected user n (connect api (new_client config) ctx s)

  abbrev pub on_served :
      (List (Answer E) → Option Call)
      → ℕ
      → ℕ
      → Result (Error E) (Server L C) × S
      → List (Answer E) × Held T S
  on_served user n ctx (ok server, s) = on_accepted user n (accept_connection api server ctx s)
  on_served user n ctx (err e, s) = (failed_to_start e ∷ [], ([], s))

  unfoldable pub use_server :
      (List (Answer E) → Option Call) → ℕ → Config C → ℕ → S → List (Answer E) × Held T S
  use_server user n config ctx s = on_served user n ctx (new_server api config s)

  abbrev marked : Bool → Q → Connection Q
  marked b q = record { conn = q; enable_l4s = b }

  answer-marked :
      (b b' : Bool) (q : Q) (call : Call) (h : Held T S)
      → answer (marked b q) call h ≡ answer (marked b' q) call h
  unfolding answer open_stream close_connection accept_stream receive_datagram send_datagram
  answer-marked b b' q open_new h = refl
  answer-marked b b' q close_all h = refl
  answer-marked b b' q (accept_next ctx) h = refl
  answer-marked b b' q (await_datagram ctx) h = refl
  answer-marked b b' q (send x) h = refl
  answer-marked b b' q (read_from k n) h = refl
  answer-marked b b' q (write_to k x) h = refl
  answer-marked b b' q (finish k) h = refl

  run-marked :
      (user : List (Answer E) → Option Call) (n : ℕ) (b b' : Bool) (q : Q) (log : List (Answer E))
      (h : Held T S)
      → run user n (marked b q) log h ≡ run user n (marked b' q) log h
  unfolding run
  run-marked user zero b b' q log h = refl
  run-marked user (suc n) b b' q log h =
      next_call-cong _ _ (log, h) (user log)
        (λ call.
          ap (λ r. run user n (marked b q) (log ++ (r.0 ∷ [])) r.1) (answer-marked b b' q call h)
          ∙ run-marked user n b b' q (log ++ ((answer (marked b' q) call h).0 ∷ []))
              (answer (marked b' q) call h).1)

  connected-marked :
      (user : List (Answer E) → Option Call) (n : ℕ) (b b' : Bool) (r : Result E Q × S)
      → on_connected user n (and_then failed_to_dial (λ q s. (ok (marked b q), s)) r)
        ≡ on_connected user n (and_then failed_to_dial (λ q s. (ok (marked b' q), s)) r)
  connected-marked user n b b' (ok q, s) = run-marked user n b b' q [] ([], s)
  connected-marked user n b b' (err e, s) = refl

  accepted-marked :
      (user : List (Answer E) → Option Call) (n : ℕ) (b b' : Bool) (r : Result E Q × S)
      → on_accepted user n (or_return (λ q s. (ok (marked b q), s)) r)
        ≡ on_accepted user n (or_return (λ q s. (ok (marked b' q), s)) r)
  accepted-marked user n b b' (ok q, s) = run-marked user n b b' q [] ([], s)
  accepted-marked user n b b' (err e, s) = refl

  abbrev with_flag : Config C → Bool → Config C
  with_flag config b = record config { enable_l4s = b }

  abbrev serving : Config C → L → S → Result (Error E) (Server L C) × S
  serving config listener s = (ok (record { listener = listener; config = config }), s)

  listened-marked :
      (user : List (Answer E) → Option Call) (n ctx : ℕ) (config : Config C) (b b' : Bool)
      (r : Result E L × S)
      → on_served user n ctx (and_then failed_to_listen (serving (with_flag config b)) r)
        ≡ on_served user n ctx (and_then failed_to_listen (serving (with_flag config b')) r)
  unfolding accept_connection
  listened-marked user n ctx config b b' (ok l, s) =
      accepted-marked user n b b' (api.accept l ctx s)
  listened-marked user n ctx config b b' (err e, s) = refl

  -- The configuration's EnableL4S has no effect: with it and without it a client, and a server that
  -- accepts a connection, get the same answers to the same calls and leave quic-go in the same state,
  -- whatever calls they make.
  pub use_client-enable_l4s :
      (user : List (Answer E) → Option Call) (n : ℕ) (config : Config C) (b b' : Bool) (ctx : ℕ)
      (s : S)
      → (use_client user n (record config { enable_l4s = b }) ctx s
          ≡ use_client user n (record config { enable_l4s = b' }) ctx s)
        × (use_server user n (record config { enable_l4s = b }) ctx s
            ≡ use_server user n (record config { enable_l4s = b' }) ctx s)
  unfolding use_client use_server connect new_client new_server
  use_client-enable_l4s user n config b b' ctx s = (
    connected-marked user n b b' (
        api.dial_addr ctx config.address (client_tls_config config.tls_config)
          (quic_config_or_default config.quic_config) s),
    served (server_tls_config api config.tls_config s),
  )
    where
      served :
          (r : Result E (TlsConfig C) × S)
          → on_served user n ctx (
              and_then failed_to_generate
                (λ tls s1. and_then failed_to_listen (serving (with_flag config b)) (
                  api.listen_addr config.address tls
                    (quic_config_or_default config.quic_config)
                    s1))
                r)
            ≡ on_served user n ctx (
                and_then failed_to_generate
                  (λ tls s1. and_then failed_to_listen (serving (with_flag config b')) (
                    api.listen_addr config.address tls
                      (quic_config_or_default config.quic_config)
                      s1))
                  r)
      served (ok tls, s1) =
          listened-marked user n ctx config b b'
            (api.listen_addr config.address tls (quic_config_or_default config.quic_config) s1)
      served (err e, s1) = refl
