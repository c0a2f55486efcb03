-- ===== src/Session/Loopback.antt =====
-- cmd/quic-test/main.go: a server and a client, each with its own context. `fuel` bounds the reads of
-- the server, `rounds` is how often the client finds that the deadline has not come.
use l4s_poc.Base.{ℕ, zero, suc, List, Option, none, some, replicate}
use l4s_poc.Base.Int.{ℤ, pos, ◌+ℤ◌}
use l4s_poc.Base.Words.{i64}
use l4s_poc.Picoquic.{
  Api, Connection, Result, ok, err, new_server_context, listen_on, accept, read, finish_stream,
  wait_stream_complete,
}
use l4s_poc.Session.{
  Outcome, returns, context_failed, listen_failed, accept_failed, M, ◌>>=◌, ◌>>◌, return, or_fatal,
  or_log, open_client, close_both,
}
use l4s_poc.Session.Bench.{write_loop, write_all}

module _ {S Ctx Cnx : Type 0} (api : Api S Ctx Cnx) where
  -- After `conn.Read(buf)`, on a buffer of 65536 bytes.
  abbrev pub on_block : (ℤ → S → Option ℤ × S) → ℤ → Result (ℤ × List ℕ) × S → Option ℤ × S
  on_block go_on total (ok (n, block), s) = go_on (i64 (total +ℤ n)) s
  on_block go_on total (err e, s) = (some total, s)

  -- The total when a read fails. `none` means that the fuel ran out.
  unfoldable pub discard_loop : Connection Ctx Cnx → ℕ → ℤ → S → Option ℤ × S
  discard_loop conn zero total s = (none, s)
  discard_loop conn (suc fuel) total s =
      on_block (discard_loop conn fuel) total (read api conn 65_536 s)

  -- The loop as a part of a program.
  abbrev pub discard_all : Connection Ctx Cnx → ℕ → S → Outcome (Option ℤ) × S
  discard_all conn fuel s =
      let (total, s') = discard_loop conn fuel (pos 0) s in (returns total, s')

  -- `runServer`, up to the channel by which it says that it listens.
  unfoldable pub run_server : List ℕ → List ℕ → ℕ → M S (Option ℤ)
  unfolding discard_loop close_both
  run_server cert key fuel = do
    ctx ← or_fatal context_failed (new_server_context api cert key)
    or_fatal listen_failed (listen_on api ctx 29_999)
    conn ← or_fatal accept_failed (accept api ctx)
    total ← discard_all conn fuel
    close_both api ctx conn
    return total

  -- `runClient`; the errors of the last two calls are not looked at.
  unfoldable pub run_client : List ℕ → List ℕ → ℕ → M S ℤ
  unfolding write_loop open_client close_both
  run_client algo localhost rounds = do
    opened ← open_client api algo localhost 29_999
    total ← write_all api opened.1 (replicate 16_384 0) rounds
    or_log (finish_stream api opened.1)
    or_log (wait_stream_complete api opened.1 (pos 10_000))
    close_both api opened.0 opened.1
    return total
