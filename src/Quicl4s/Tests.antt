-- ===== src/Quicl4s/Tests.antt =====
-- Runs of the package over a quic-go whose state counts the calls.
use l4s_poc.Base.{ℕ, suc, ◌+◌, ◌≡◌, refl, List, [], ◌∷◌, true, false, Option, none, some, length}
use l4s_poc.Quicl4s.{
  Api, Config, ok, err, failed_to_generate, new_server, generate_tls_config, with_certificate,
  new_client, connect, open_stream, write_stream,
}
use l4s_poc.Quicl4s.Marking.{
  Call, open_new, write_to, read_from, Answer, done, count, no_stream, use_client, use_server, run,
  answer, use_client-enable_l4s,
}

abbrev api : Api ℕ ℕ ℕ ℕ ℕ ℕ ℕ ℕ ℕ
api = record {
  generate_key = λ size s. (ok size, suc s);
  create_certificate = λ serial lifetime key s. (ok serial, suc s);
  key_pair = λ der key. ok (der + key);
  listen_addr = λ addr tls config s. (ok 7, suc s);
  accept = λ listener ctx s. (ok 8, suc s);
  close_listener = λ listener s. (none, suc s);
  dial_addr = λ ctx addr tls config s. (ok 9, suc s);
  open_stream = λ q s. (ok q, suc s);
  accept_stream = λ q ctx s. (ok q, suc s);
  send_datagram = λ q b s. (none, suc s);
  receive_datagram = λ q ctx s. (ok [], suc s);
  close_with_error = λ q code text s. (none, suc s);
  local_addr = λ q. 1;
  remote_addr = λ q. 2;
  read = λ t size s. (ok [], suc s);
  write = λ t b s. (ok (length b), suc s);
  close_stream = λ t s. (none, suc s);
  stream_id = λ t. t;
  read_all = λ t s. (ok [], suc s);
}

abbrev config : Config ℕ
config = record { address = []; tls_config = none; enable_l4s = true; quic_config = none }

-- Opens a stream, writes two bytes to it, reads from a stream that is not there, and ends.
abbrev user : List (Answer ℕ) → Option Call
user [] = some open_new
user (a ∷ []) = some (write_to 0 (5 ∷ 6 ∷ []))
user (a ∷ b ∷ []) = some (read_from 3 10)
user other = none

client_answers : (use_client api user 9 config 0 0).0 ≡ done ∷ count 2 ∷ no_stream ∷ []
unfolding use_client run answer connect new_client open_stream write_stream
client_answers = refl

generated : generate_tls_config api 0 ≡ (ok (with_certificate 2049), 2)
unfolding generate_tls_config
generated = refl

-- Where no key can be made the server does not listen.
abbrev no_entropy : Api ℕ ℕ ℕ ℕ ℕ ℕ ℕ ℕ ℕ
no_entropy = record api { generate_key = λ size s. (err 4, s) }

no_key : new_server no_entropy config 0 ≡ (err (failed_to_generate 4), 0)
unfolding new_server generate_tls_config
no_key = refl

use_client-enable_l4s_example :
    (use_client api user 9 (record config { enable_l4s = true }) 0 0
      ≡ use_client api user 9 (record config { enable_l4s = false }) 0 0)
    × (use_server api user 9 (record config { enable_l4s = true }) 0 0
        ≡ use_server api user 9 (record config { enable_l4s = false }) 0 0)
use_client-enable_l4s_example = use_client-enable_l4s api user 9 config true false 0 0
