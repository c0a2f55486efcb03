-- ===== src/Session/Tests.antt =====
-- Runs of the programs over the C side of the wrapper's tests, whose state counts its calls.
use l4s_poc.Base.{
  ℕ, zero, suc, ◌≡◌, refl, List, [], ◌∷◌, true, false, none, some, arith, length, replicate,
}
use l4s_poc.Base.Int.{ℤ, pos, ◌+ℤ◌}
use l4s_poc.Base.Words.{i64}
use l4s_poc.Io.{feed}
use l4s_poc.Picoquic.{
  new_client_context, set_congestion_algorithm, connect, write, finish_stream, wait_stream_complete,
  close_connection, close_context, Api, create_connection, Connection, read,
}
use l4s_poc.Session.{invalid_port, connect_failed, returns, exits}
use l4s_poc.Session.Address.{target, unchecked_target, GoesOn, unchecked_target-target}
use l4s_poc.Session.Bench.{bench, chunk_from, write_loop}
use l4s_poc.Session.Sending.{send_session}
use l4s_poc.Session.Protocol.{fresh, opened, gone, monitored}
use l4s_poc.Session.Rules.{Holds, Left}
use l4s_poc.Session.Clients.{bench-Holds, send_session-Holds}
use l4s_poc.Session.Totals.{Reads, ends, block, write_loop-total}

-- A stream of one block of 7 bytes, and then its end; the state counts the reads.
abbrev blocks : ℕ → ℤ × List ℕ
blocks zero = (pos 7, replicate 7 1)
blocks (suc n) = (pos 0, [])

abbrev api : Api ℕ ℕ ℕ
api = record {
  pq_create_context = λ server files s. (some 1, s);
  pq_set_congestion_algorithm = λ p name s. (pos 0, s);
  pq_listen = λ p port s. (pos 0, s);
  pq_accept = λ p s. (some 2, s);
  pq_connect = λ p server port s. (some port, s);
  pq_destroy_context = λ p s. s;
  pq_send_stream = λ cnx b s. (pos (length b), s);
  pq_finish_stream = λ cnx s. (pos 0, s);
  pq_wait_stream_complete = λ cnx ms s. (pos 0, s);
  pq_recv_stream = λ cnx size s. (blocks s, suc s);
  pq_send_datagram = λ cnx b s. (pos (length b), s);
  pq_recv_datagram = λ cnx size s. ((pos 0, []), s);
  pq_is_connected = λ cnx s. pos 1;
  pq_close_connection = λ cnx s. s;
}

-- A C side that does not connect.
abbrev offline : Api ℕ ℕ ℕ
offline = record api { pq_connect = λ p server port s. (none, s) }

abbrev cubic : List ℕ
cubic = 99 ∷ 117 ∷ []

-- "h:80", "h:x", "h:99999".
abbrev good_addr : List ℕ
good_addr = 104 ∷ 58 ∷ 56 ∷ 48 ∷ []

abbrev high_addr : List ℕ
high_addr = 104 ∷ 58 ∷ 57 ∷ 57 ∷ 57 ∷ 57 ∷ 57 ∷ []

target_good : target good_addr ≡ returns (104 ∷ [], 80)
unfolding target
target_good = refl

target_high : target high_addr ≡ exits invalid_port
unfolding target
target_high = refl

unchecked_high : unchecked_target high_addr ≡ returns (104 ∷ [], 65_535)
unfolding unchecked_target
unchecked_high = refl

unchecked_target-target_example : GoesOn (unchecked_target high_addr)
unchecked_target-target_example = unchecked_target-target high_addr target_high

-- Three rounds of five bytes.
bench_run : bench (monitored api) good_addr cubic 5 3 (0, fresh) ≡ (returns (pos 15), (0, gone))
unfolding bench new_client_context set_congestion_algorithm connect write finish_stream
    wait_stream_complete close_connection close_context i64 ◌+ℤ◌
bench_run = refl

-- The process exits with the context open.
without_network :
    bench (monitored offline) good_addr cubic 5 3 (0, fresh)
    ≡ (exits (connect_failed create_connection), (0, opened))
unfolding bench new_client_context set_congestion_algorithm connect
without_network = refl

bench-Holds_example :
    Holds (λ total w. w.1 ≡ gone) Left (bench (monitored api) good_addr cubic 5 3 (0, fresh))
bench-Holds_example = bench-Holds api good_addr cubic 5 3 0

send_session-Holds_example :
    Holds
      (λ counts w. ((c : ℤ × ℤ) × (counts ≡ some c)) × (w.1 ≡ gone))
      Left
      (send_session
        (monitored api)
        (λ w. 2)
        (λ k. false)
        good_addr
        cubic
        (feed (0 ∷ 0 ∷ 1 ∷ 103 ∷ 66 ∷ []) [])
        8
        (0, fresh))
send_session-Holds_example =
    send_session-Holds api (λ w. 2) (λ k. false) good_addr cubic
      (feed (0 ∷ 0 ∷ 1 ∷ 103 ∷ 66 ∷ []) []) 8 0 (omega arith)

abbrev conn : Connection ℕ ℕ
conn = record { conn = 2; context = record { ctx = some 1; is_server = true } }

reads : Reads api conn 0 (pos 7 ∷ []) 2
unfolding read
reads = block refl (ends refl)

write_loop-total_example :
    (write_loop api conn (chunk_from 0 16_384) 100 (pos 0) 0).0 ≡ i64 (pos 1_638_400)
write_loop-total_example = write_loop-total api (λ cnx bytes s. refl) conn 16_384 100 0
