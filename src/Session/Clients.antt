-- ===== src/Session/Clients.antt =====
-- The clients keep the protocol of the C wrapper: quic-bench, the client of quic-test, and quic-send.
use l4s_poc.Base.{
  ℕ, zero, suc, ◌+◌, ◌<◌, length, ◌≡◌, refl, ap, List, [], ◌∷◌, Bool, Option, none, some, replicate,
}
use l4s_poc.Base.Int.{ℤ, pos, ◌+ℤ◌}
use l4s_poc.Base.Words.{i64}
use l4s_poc.Picoquic.{
  Api, Context, Connection, Result, ok, err, new_client_context, set_congestion_algorithm, connect,
  write, finish_stream, wait_stream_complete,
}
use l4s_poc.Session.{
  context_failed, algorithm_failed, connect_failed, or_fatal, open_client, close_both, return,
}
use l4s_poc.Session.Address.{
  checked_port, target_of, target, unchecked_target_of, unchecked_target, split, parse_uint16,
  NumError,
}
use l4s_poc.Session.Bench.{on_written, write_loop, chunk_from, bench}
use l4s_poc.Session.Loopback.{run_client}
use l4s_poc.Session.Protocol.{Phase, fresh, opened, live, gone, monitored, after_close}
use l4s_poc.Io.{Stream}
use l4s_poc.Session.Sending.{send_all, finish_session, send_session}
use l4s_poc.Session.Rules.{Holds, and_then-Holds, Left, InPhase}
use l4s_poc.Session.Calls.{new_client_context-Holds, set_congestion_algorithm-Holds, connect-Holds}
use l4s_poc.Session.Transfers.{
  write-live, finish_stream-finished, wait_stream_complete-finished, close_both-gone,
}
use l4s_poc.Session.Beside.{send_all-Holds, finish_session-gone}

module _ {S Ctx Cnx : Type 0} (api : Api S Ctx Cnx) where
  pub open_client-Holds :
      (algo host : List ℕ) (port : ℕ) (w : S × Phase)
      → w.1 ≡ fresh
      → Holds (λ o. InPhase live o.0) Left (open_client (monitored api) algo host port w)
  unfolding open_client
  open_client-Holds algo host port w e =
      and_then-Holds (InPhase opened) _ Left _
        (or_fatal context_failed (new_client_context (monitored api)) w)
        (new_client_context-Holds api w e)
        (λ ctx v h.
          and_then-Holds (λ a. InPhase opened ctx) _ Left _
            (or_fatal algorithm_failed (set_congestion_algorithm (monitored api) ctx algo) v)
            (set_congestion_algorithm-Holds api ctx algo v h)
            (λ a u k.
              and_then-Holds (λ c. InPhase live ctx) _ Left _
                (or_fatal connect_failed (connect (monitored api) ctx host port) u)
                (connect-Holds api ctx host port u k) (λ conn x l. l)))

  on_written-live :
      (go_on : ℤ → S × Phase → ℤ × (S × Phase)) (total : ℤ) (r : Result ℤ × (S × Phase))
      → r.1.1 ≡ live
      → ((t : ℤ) (w : S × Phase) → w.1 ≡ live → (go_on t w).1.1 ≡ live)
      → (on_written go_on total r).1.1 ≡ live
  on_written-live go_on total (ok n, w) e k = k (i64 (total +ℤ n)) w e
  on_written-live go_on total (err x, w) e k = e

  write_loop-live :
      (conn : Connection Ctx Cnx) (chunk : List ℕ) (rounds : ℕ) (total : ℤ) (w : S × Phase)
      → w.1 ≡ live
      → (write_loop (monitored api) conn chunk rounds total w).1.1 ≡ live
  unfolding write_loop
  write_loop-live conn chunk zero total w e = e
  write_loop-live conn chunk (suc rounds) total w e =
      on_written-live (write_loop (monitored api) conn chunk rounds) total
        (write (monitored api) conn chunk w) (write-live api conn chunk w e)
        (λ t v f. write_loop-live conn chunk rounds t v f)

  -- How every client ends.
  finishing :
      (ctx : Context Ctx) (conn : Connection Ctx Cnx) (ms : ℤ) (w : S × Phase)
      → InPhase live ctx w
      → (close_both
          (monitored api)
          ctx
          conn
          (wait_stream_complete
            (monitored api)
            conn
            ms
            (finish_stream (monitored api) conn w).1).1).1.1
        ≡ gone
  finishing ctx conn ms w (is_open, e) = close_both-gone api ctx conn _ is_open (
      ap after_close
        (wait_stream_complete-finished api conn ms _ (finish_stream-finished api conn w e)))

  unchecked_target_of-Holds :
      (parts : List (List ℕ)) (w : S × Phase)
      → w.1 ≡ fresh
      → Holds (λ to v. v.1 ≡ fresh) Left (unchecked_target_of parts, w)
  unchecked_target_of-Holds [] w e = e
  unchecked_target_of-Holds (a ∷ []) w e = e
  unchecked_target_of-Holds (a ∷ b ∷ []) w e = e
  unchecked_target_of-Holds (a ∷ b ∷ c ∷ ps) w e = e

  target_of-Holds :
      (parts : List (List ℕ)) (w : S × Phase)
      → w.1 ≡ fresh
      → Holds (λ to v. v.1 ≡ fresh) Left (target_of parts, w)
  unfolding parse_uint16
  target_of-Holds [] w e = e
  target_of-Holds (a ∷ []) w e = e
  target_of-Holds (a ∷ b ∷ []) w e = go (parse_uint16 b)
    where
      go : (p : ℕ × Option NumError) → Holds (λ to v. v.1 ≡ fresh) Left (checked_port a p, w)
      go (port, none) = e
      go (port, some x) = e
  target_of-Holds (a ∷ b ∷ c ∷ ps) w e = e

  -- quic-bench keeps the protocol of the C wrapper, whatever the C side answers: every call comes in
  -- its turn. Where the program returns, it has closed the connection and then destroyed the context;
  -- where it exits, the phase is the one in which the failing step found the C side, with nothing
  -- closed.
  pub bench-Holds :
      (addr algo : List ℕ) (size rounds : ℕ) (s : S)
      → Holds (λ total w. w.1 ≡ gone) Left (bench (monitored api) addr algo size rounds (s, fresh))
  unfolding bench unchecked_target
  bench-Holds addr algo size rounds s =
      and_then-Holds (λ to w. w.1 ≡ fresh) _ Left _ (unchecked_target addr, (s, fresh))
        (unchecked_target_of-Holds (split b':' addr) (s, fresh) refl)
        (λ to w e.
          and_then-Holds (λ o. InPhase live o.0) _ Left _
            (open_client (monitored api) algo to.0 to.1 w) (open_client-Holds algo to.0 to.1 w e)
            (λ o v h.
              finishing o.0 o.1 (pos 30_000)
                (write_loop (monitored api) o.1 (chunk_from 0 size) rounds (pos 0) v).1
                (h.0, write_loop-live o.1 (chunk_from 0 size) rounds (pos 0) v h.1)))

  -- The client of quic-test keeps it too.
  pub run_client-Holds :
      (algo localhost : List ℕ) (rounds : ℕ) (s : S)
      → Holds
          (λ total w. w.1 ≡ gone)
          Left
          (run_client (monitored api) algo localhost rounds (s, fresh))
  unfolding run_client
  run_client-Holds algo localhost rounds s =
      and_then-Holds (λ o. InPhase live o.0) _ Left _
        (open_client (monitored api) algo localhost 29_999 (s, fresh))
        (open_client-Holds algo localhost 29_999 (s, fresh) refl)
        (λ o v h.
          finishing o.0 o.1 (pos 10_000)
            (write_loop (monitored api) o.1 (replicate 16_384 0) rounds (pos 0) v).1
            (h.0, write_loop-live o.1 (replicate 16_384 0) rounds (pos 0) v h.1))

  -- quic-send keeps it too, with the sending loop in between, and with the goroutine that reads
  -- datagrams, which it does not wait for: however the calls of ReadDatagram come between the other
  -- calls and after them, behind the closing of the connection and of the context too, all calls come
  -- in their turn, whatever the C side answers and the input and the signals are. Where the program
  -- returns, the connection is closed and then the context destroyed, and it has the loop's counts, in
  -- fewer rounds than the input has bytes and errors and two more.
  pub send_session-Holds :
      (reads : S × Phase → ℕ) (signalled : ℕ → Bool) (addr algo : List ℕ) (input : Stream)
      (fuel : ℕ) (s : S)
      → length input + 1 < fuel
      → Holds
          (λ counts w. ((c : ℤ × ℤ) × (counts ≡ some c)) × (w.1 ≡ gone))
          Left
          (send_session (monitored api) reads signalled addr algo input fuel (s, fresh))
  unfolding send_session target
  send_session-Holds reads signalled addr algo input fuel s enough =
      and_then-Holds (λ to w. w.1 ≡ fresh) _ Left _ (target addr, (s, fresh))
        (target_of-Holds (split b':' addr) (s, fresh) refl)
        (λ to w e.
          and_then-Holds (λ o. InPhase live o.0) _ Left _
            (open_client (monitored api) algo to.0 to.1 w) (open_client-Holds algo to.0 to.1 w e)
            (λ o v h.
              and_then-Holds (λ counts u. ((c : ℤ × ℤ) × (counts ≡ some c)) × InPhase live o.0 u) _
                Left _ (send_all (monitored api) reads signalled o.1 input fuel v)
                (send_all-Holds api reads signalled input fuel o.0 o.1 v enough h)
                (λ counts u k.
                  and_then-Holds (λ a x. x.1 ≡ gone)
                    (λ n x. ((c : ℤ × ℤ) × (n ≡ some c)) × (x.1 ≡ gone)) Left (λ _. return counts)
                    (finish_session (monitored api) reads o.0 o.1 u)
                    (finish_session-gone api reads o.0 o.1 u k.1) (λ a x is_gone. (k.0, is_gone)))))
