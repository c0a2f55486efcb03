-- ===== src/Picoquic.antt =====
-- The Go wrapper of picoquic, pkg/picoquic/picoquic.go. The functions of picoquic_wrapper.h that it
-- calls are the record `Api`, over the state `S` of the C side; a C `int` is an integer, a pointer
-- that may be NULL is an option.
pub mod Roles
pub mod Transfer
mod Tests
use l4s_poc.Base.{
  ℕ, ◌%◌, ◌^◌, List, [], ◌∷◌, Bool, true, false, Option, none, some, ◌==◌, if◌then◌else◌, length,
  take,
}
use l4s_poc.Base.Int.{ℤ, pos, negsuc, ltb_ℤ}

pub data QuicError : Type 0 where
  create_context create_connection listen send receive : QuicError
  end_of_stream timeout set_algorithm : QuicError
  not_a_server not_a_client : QuicError

pub record Api (S Ctx Cnx : Type 0) : Type 0 where
  pub pq_create_context : Bool → Option (List ℕ × List ℕ) → S → Option Ctx × S
  pub pq_set_congestion_algorithm : Option Ctx → List ℕ → S → ℤ × S
  pub pq_listen : Option Ctx → ℕ → S → ℤ × S
  pub pq_accept : Option Ctx → S → Option Cnx × S
  pub pq_connect : Option Ctx → List ℕ → ℕ → S → Option Cnx × S
  pub pq_destroy_context : Ctx → S → S
  pub pq_send_stream : Cnx → List ℕ → S → ℤ × S
  pub pq_finish_stream : Cnx → S → ℤ × S
  pub pq_wait_stream_complete : Cnx → ℤ → S → ℤ × S
  -- With a buffer of so many bytes: the result, and the bytes put into the buffer.
  pub pq_recv_stream : Cnx → ℕ → S → (ℤ × List ℕ) × S
  pub pq_send_datagram : Cnx → List ℕ → S → ℤ × S
  pub pq_recv_datagram : Cnx → ℕ → S → (ℤ × List ℕ) × S
  pub pq_is_connected : Cnx → S → ℤ
  pub pq_close_connection : Cnx → S → S

-- `ctx` is `none` once the context is closed.
pub record Context (Ctx : Type 0) : Type 0 where
  pub ctx : Option Ctx
  pub is_server : Bool

pub record Connection (Ctx Cnx : Type 0) : Type 0 where
  pub conn : Cnx
  pub context : Context Ctx

pub data Result (A : Type 0) : Type 0 where
  ok : A → Result A
  err : QuicError → Result A

-- `n < 0` and `n == 0` on a C int.
abbrev pub is_negative : ℤ → Bool
is_negative (pos n) = false
is_negative (negsuc n) = true

abbrev pub is_zero : ℤ → Bool
is_zero (pos n) = n == 0
is_zero (negsuc n) = false

-- A status that is not 0 is the error `e`.
unfoldable pub check : {S : Type 0} → QuicError → ℤ × S → Result (Unit {0}) × S
check e (status, s) = if is_zero status then (ok tt, s) else (err e, s)

-- A count below 0 is the error `e`.
unfoldable pub counted : {S : Type 0} → QuicError → ℤ × S → Result ℤ × S
counted e (n, s) = if is_negative n then (err e, s) else (ok n, s)

-- What a read put into the buffer.
unfoldable pub filled : {S : Type 0} → (ℤ × List ℕ) × S → Result (ℤ × List ℕ) × S
filled ((n, b), s) = if is_negative n then (err receive, s) else (ok (n, b), s)

-- A read of 0 bytes is the end of the stream.
unfoldable pub stream_end : {S : Type 0} → Result (ℤ × List ℕ) × S → Result (ℤ × List ℕ) × S
stream_end (err e, s) = (err e, s)
stream_end (ok (n, b), s) = if is_zero n then (err end_of_stream, s) else (ok (n, b), s)

-- The context that `pq_create_context` gave, or not.
unfoldable pub made : {S Ctx : Type 0} → Bool → Option Ctx × S → Result (Context Ctx) × S
made is_server (none, s) = (err create_context, s)
made is_server (some ctx, s) = (ok (record { ctx = some ctx; is_server = is_server }), s)

module _ {S Ctx Cnx : Type 0} where
  -- The connection that `pq_accept` or `pq_connect` gave, or not.
  unfoldable pub wrap : Context Ctx → Option Cnx × S → Result (Connection Ctx Cnx) × S
  wrap c (none, s) = (err create_connection, s)
  wrap c (some conn, s) = (ok (record { conn = conn; context = c }), s)

module _ {S Ctx Cnx : Type 0} (api : Api S Ctx Cnx) where
  unfoldable pub new_server_context : List ℕ → List ℕ → S → Result (Context Ctx) × S
  unfolding made
  new_server_context cert key s = made true (api.pq_create_context true (some (cert, key)) s)

  unfoldable pub new_client_context : S → Result (Context Ctx) × S
  unfolding made
  new_client_context s = made false (api.pq_create_context false none s)

  unfoldable pub set_congestion_algorithm : Context Ctx → List ℕ → S → Result (Unit {0}) × S
  unfolding check
  set_congestion_algorithm c algo s =
      check set_algorithm (api.pq_set_congestion_algorithm c.ctx algo s)

  unfoldable pub listen_on : Context Ctx → ℕ → S → Result (Unit {0}) × S
  unfolding check
  listen_on c port s =
      if c.is_server then check listen (api.pq_listen c.ctx port s) else (err not_a_server, s)

  unfoldable pub accept : Context Ctx → S → Result (Connection Ctx Cnx) × S
  unfolding wrap
  accept c s = if c.is_server then wrap c (api.pq_accept c.ctx s) else (err not_a_server, s)

  unfoldable pub connect : Context Ctx → List ℕ → ℕ → S → Result (Connection Ctx Cnx) × S
  unfolding wrap
  connect c server port s =
      if c.is_server then (err not_a_client, s) else wrap c (api.pq_connect c.ctx server port s)

  -- `Close` of a context.
  unfoldable pub close_context : Context Ctx → S → Context Ctx × S
  close_context c s = elim c.ctx [
    | none ↦ (c, s)
    | some p ↦ (record c { ctx = none }, api.pq_destroy_context p s)
  ]

  unfoldable pub write : Connection Ctx Cnx → List ℕ → S → Result ℤ × S
  unfolding counted
  write c bytes s =
      if length bytes == 0
      then (ok (pos 0), s)
      else counted send (api.pq_send_stream c.conn bytes s)

  unfoldable pub finish_stream : Connection Ctx Cnx → S → Result (Unit {0}) × S
  unfolding check
  finish_stream c s = check send (api.pq_finish_stream c.conn s)

  unfoldable pub wait_stream_complete : Connection Ctx Cnx → ℤ → S → Result (Unit {0}) × S
  unfolding check
  wait_stream_complete c timeout_ms s =
      check timeout (api.pq_wait_stream_complete c.conn timeout_ms s)

  unfoldable pub read : Connection Ctx Cnx → ℕ → S → Result (ℤ × List ℕ) × S
  unfolding stream_end filled
  read c size s =
      if size == 0
      then (ok (pos 0, []), s)
      else stream_end (filled (api.pq_recv_stream c.conn size s))

  unfoldable pub write_datagram : Connection Ctx Cnx → List ℕ → S → Result ℤ × S
  unfolding counted
  write_datagram c bytes s =
      if length bytes == 0
      then (ok (pos 0), s)
      else counted send (api.pq_send_datagram c.conn bytes s)

  unfoldable pub read_datagram : Connection Ctx Cnx → ℕ → S → Result (ℤ × List ℕ) × S
  unfolding filled
  read_datagram c size s =
      if size == 0 then (ok (pos 0, []), s) else filled (api.pq_recv_datagram c.conn size s)

  unfoldable pub is_connected : Connection Ctx Cnx → S → Bool
  is_connected c s = if is_zero (api.pq_is_connected c.conn s) then false else true

  -- `Close` of a connection, whose pointer is never nil here.
  unfoldable pub close_connection : Connection Ctx Cnx → S → S
  close_connection c s = api.pq_close_connection c.conn s
