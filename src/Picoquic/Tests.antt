-- ===== src/Picoquic/Tests.antt =====
-- Runs of the wrapper over a C side whose stream holds bytes and whose state counts its calls.
use l4s_poc.Base.{ℕ, suc, ◌≤◌, List, [], ◌∷◌, true, false, some, arith, length, take, length-take}
use l4s_poc.Base.Int.{pos, pos_part}
use l4s_poc.Picoquic.{Api, Context, read}
use l4s_poc.Picoquic.Transfer.{IsAnswer, read-IsAnswer}

abbrev incoming : List ℕ
incoming = 7 ∷ 8 ∷ 9 ∷ []

abbrev api : Api ℕ ℕ ℕ
api = record {
  pq_create_context = λ server files s. (some 1, suc s);
  pq_set_congestion_algorithm = λ p name s. (pos 0, suc s);
  pq_listen = λ p port s. (pos 0, suc s);
  pq_accept = λ p s. (some 2, suc s);
  pq_connect = λ p server port s. (some 2, suc s);
  pq_destroy_context = λ p s. suc s;
  pq_send_stream = λ cnx b s. (pos (length b), suc s);
  pq_finish_stream = λ cnx s. (pos 0, suc s);
  pq_wait_stream_complete = λ cnx ms s. (pos 0, suc s);
  pq_recv_stream = λ cnx size s. ((pos (length (take size incoming)), take size incoming), suc s);
  pq_send_datagram = λ cnx b s. (pos (length b), suc s);
  pq_recv_datagram = λ cnx size s. ((pos 0, []), suc s);
  pq_is_connected = λ cnx s. pos 1;
  pq_close_connection = λ cnx s. suc s;
}

abbrev server : Context ℕ
server = record { ctx = some 1; is_server = true }

abbrev client : Context ℕ
client = record { ctx = some 1; is_server = false }

recv_bounded : (cnx size s : ℕ) → pos_part (api.pq_recv_stream cnx size s).0.0 ≤ size
recv_bounded cnx size s = omega (arith, length-take size incoming)

read-IsAnswer_example : IsAnswer 2 (read api (record { conn = 2; context = client }) 2 0)
read-IsAnswer_example = read-IsAnswer api recv_bounded (record { conn = 2; context = client }) 2 0
