-- ===== src/Session/Sending.antt =====
-- cmd/quic-send/main.go, `main`: lines 61 to 116 before the sending loop, and 332 to 349 after it. The
-- loop is that of QuicSend, on the connection. The goroutine that reads the reports, lines 144 to 209,
-- is never waited for: its calls of ReadDatagram come between those of `main`, and after them; each call
-- is one step. They come in rounds: `reads` says of the state of the C side, which may hold the order of
-- the two goroutines, how many calls come in the round at hand. A call that waits is not made yet. The
-- first error ends the loop: the rounds after it are empty in the code, and any here. What the goroutine
-- makes of the datagrams is SideChannel.
use l4s_poc.Base.{ℕ, zero, suc, List, Bool, Option, none, some, ◌≡◌, refl}
use l4s_poc.Base.Int.{ℤ, pos}
use l4s_poc.Io.{IoError, fault, Stream}
use l4s_poc.Picoquic.{
  Api, Connection, Result, ok, err, Context, write, read_datagram, finish_stream,
  wait_stream_complete, close_connection, close_context,
}
use l4s_poc.QuicSend.{Sender, Stop, new_sender, send_loop}
use l4s_poc.Session.{Outcome, returns, M, ◌>>=◌, ◌>>◌, return, or_log, open_client}
use l4s_poc.Session.Address.{target}

-- The error of a write alone, as the sending loop sees it.
abbrev pub error_of : {S : Type 0} → Result ℤ × S → Option IoError × S
error_of (ok n, s) = (none, s)
error_of (err e, s) = (some (fault 0), s)

pub error_of-state : {S : Type 0} (r : Result ℤ × S) → (error_of r).1 ≡ r.1
error_of-state (ok n, s) = refl
error_of-state (err e, s) = refl

abbrev pub counts_of : {S : Type 0} → S → Option (Stop × Sender S) → Outcome (Option (ℤ × ℤ)) × S
counts_of s none = (returns none, s)
counts_of s (some (why, st)) = (returns (some (st.nal_count, st.total_bytes)), st.conn)

abbrev pub after_read : {S A : Type 0} → (S → S) → Result A × S → S
after_read go_on (ok a, s) = go_on s
after_read go_on (err e, s) = s

module _ {S Ctx Cnx : Type 0} (api : Api S Ctx Cnx) where
  -- At most so many calls of ReadDatagram with the goroutine's buffer: the first error ends its loop.
  unfoldable pub read_times : ℕ → Connection Ctx Cnx → S → S
  unfolding read_datagram
  read_times zero conn s = s
  read_times (suc n) conn s = after_read (read_times n conn) (read_datagram api conn 1500 s)

  module _ (reads : S → ℕ) where
    -- A round of the goroutine.
    abbrev pub goroutine : Connection Ctx Cnx → S → S
    goroutine conn s = read_times (reads s) conn s

    -- The same as a part of the program.
    abbrev pub beside : Connection Ctx Cnx → S → Outcome (Unit {0}) × S
    beside conn s = (returns tt, goroutine conn s)

    abbrev pub write_error : Connection Ctx Cnx → S → List ℕ → Option IoError × S
    write_error conn s bytes = error_of (write api conn bytes (goroutine conn s))

    -- The sending loop as a part of the program: the numbers of units and bytes, `none` if the fuel ran
    -- out.
    abbrev pub send_all :
        (ℕ → Bool) → Connection Ctx Cnx → Stream → ℕ → S → Outcome (Option (ℤ × ℤ)) × S
    send_all signalled conn input fuel s =
        counts_of s (send_loop (write_error conn) signalled fuel 0 (new_sender input s))

    -- The end of `main`, with its deferred calls, the last first.
    unfoldable pub finish_session : Context Ctx → Connection Ctx Cnx → M S (Unit {0})
    unfolding read_times
    finish_session ctx conn = do
      beside conn
      or_log (finish_stream api conn)
      beside conn
      or_log (wait_stream_complete api conn (pos 30_000))
      beside conn
      (λ s. (returns tt, close_connection api conn s))
      beside conn
      (λ s. (returns tt, (close_context api ctx s).1))
      beside conn

    unfoldable pub send_session : (ℕ → Bool) → List ℕ → List ℕ → Stream → ℕ → M S (Option (ℤ × ℤ))
    unfolding open_client target finish_session
    send_session signalled addr algo input fuel = do
      to ← λ s. (target addr, s)
      opened ← open_client api algo to.0 to.1
      counts ← send_all signalled opened.1 input fuel
      finish_session opened.0 opened.1
      return counts
