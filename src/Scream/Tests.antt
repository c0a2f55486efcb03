-- ===== src/Scream/Tests.antt =====
-- Runs of the registry over a library whose state is the next address that `malloc` gives.
use l4s_poc.Base.{ℕ, suc, ◌≡◌, refl, [], true, arith}
use l4s_poc.Store.{lookup, insert, delete}
use l4s_poc.Scream.{Api, World, not_found, ignored, find_sender, go_scream_callback, new_sender}
use l4s_poc.Scream.Registry.{IsValid, new_sender-IsValid}

abbrev api : Api ℕ
api = record {
  malloc = λ n c. (suc c, suc c);
  free = λ p c. c;
  init = λ ssrc args p c. c;
  sender_push = λ bytes seq payload_type timestamp ssrc marker c. c;
  rtcp_push = λ bytes c. (1, c);
  target_rate = λ ssrc c. ((1000, 0), c);
  plugin_update = λ ssrc args c. c;
  sender_stats = λ size ssrc clear c. (([], 0), c);
  sender_stats_header = λ size c. (([], 0), c);
}

abbrev fresh : World ℕ
fresh = record { registry = []; senders = []; c = 40 }

fresh-IsValid : IsValid fresh
unfolding lookup
fresh-IsValid = record { owned = λ p i e. cc; registered = λ i s p e d. cc; no_null = refl }

abbrev one : World ℕ
one = (new_sender api 7 [] true fresh).1

one_is_found : (go_scream_callback 41 1 one ≡ ignored) × (go_scream_callback 42 1 one ≡ not_found)
unfolding go_scream_callback find_sender new_sender lookup insert delete
one_is_found = (refl, refl)

new_sender-IsValid_example : IsValid one
unfolding lookup
new_sender-IsValid_example = new_sender-IsValid api 7 [] true fresh fresh-IsValid (omega arith) refl

one-IsValid : IsValid one
unfolding lookup
one-IsValid = new_sender-IsValid api 7 [] true fresh fresh-IsValid (omega arith) refl
