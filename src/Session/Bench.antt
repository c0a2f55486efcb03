-- ===== src/Session/Bench.antt =====
-- cmd/quic-bench/main.go. `rounds` is how often the loop finds that the deadline has not come.
use l4s_poc.Base.{ℕ, zero, suc, ◌+◌, ◌%◌, List, [], ◌∷◌}
use l4s_poc.Base.Int.{ℤ, pos, ◌+ℤ◌}
use l4s_poc.Base.Words.{i64}
use l4s_poc.Picoquic.{Api, Connection, Result, ok, err, write, finish_stream, wait_stream_complete}
use l4s_poc.Session.{Outcome, returns, M, ◌>>=◌, ◌>>◌, return, or_log, open_client, close_both}
use l4s_poc.Session.Address.{unchecked_target}

-- The chunk of so many bytes, from index `i` on.
unfoldable pub chunk_from : ℕ → ℕ → List ℕ
chunk_from i zero = []
chunk_from i (suc n) = (i % 256) ∷ chunk_from (i + 1) n

-- The total after a write, and whether the loop goes on with it.
abbrev pub on_written : {S : Type 0} → (ℤ → S → ℤ × S) → ℤ → Result ℤ × S → ℤ × S
on_written go_on total (ok n, s) = go_on (i64 (total +ℤ n)) s
on_written go_on total (err e, s) = (total, s)

module _ {S Ctx Cnx : Type 0} (api : Api S Ctx Cnx) where
  unfoldable pub write_loop : Connection Ctx Cnx → List ℕ → ℕ → ℤ → S → ℤ × S
  write_loop conn chunk zero total s = (total, s)
  write_loop conn chunk (suc rounds) total s =
      on_written (write_loop conn chunk rounds) total (write api conn chunk s)

  -- The loop as a part of a program.
  abbrev pub write_all : Connection Ctx Cnx → List ℕ → ℕ → S → Outcome ℤ × S
  write_all conn chunk rounds s =
      let (total, s') = write_loop conn chunk rounds (pos 0) s in (returns total, s')

  -- The program, with the total that it prints.
  unfoldable pub bench : List ℕ → List ℕ → ℕ → ℕ → M S ℤ
  unfolding write_loop open_client close_both unchecked_target chunk_from
  bench addr algo size rounds = do
    to ← λ s. (unchecked_target addr, s)
    opened ← open_client api algo to.0 to.1
    total ← write_all opened.1 (chunk_from 0 size) rounds
    or_log (finish_stream api opened.1)
    or_log (wait_stream_complete api opened.1 (pos 30_000))
    close_both api opened.0 opened.1
    return total
