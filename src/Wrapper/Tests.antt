-- ===== src/Wrapper/Tests.antt =====
-- Runs of the receive buffer, the wait, the send queue and the datagram slot.
use mathlib.Core.Path.{subst}
use l4s_poc.Base.{
  ℕ, zero, suc, ◌+◌, ◌≤◌, ◌<◌, ◌≡◌, refl, sym, List, [], ◌∷◌, ◌++◌, true, false, some, arith,
  length,
}
use l4s_poc.Report.Delivery.{Delivers}
use l4s_poc.Wrapper.{
  recv_buffer_size, RecvBuffer, new_buffer, deliver, deliver_fin, close_buffer, recv_stream,
  BufferCall, data_arrives, fin_arrives, closes, reads, run, Round, wait_loop, wait_stream_complete,
}
use l4s_poc.Wrapper.Buffer.{unread, deliveries, joined, Fits}
use l4s_poc.Wrapper.Queue.{run-Delivers, run-joined, run-overfull}
use l4s_poc.Store.{modify}
use l4s_poc.Wrapper.Sending.{
  SendCall, queues, takes, new_queue, link, queue_send_ex, take_item, run_sends, to_stream,
  to_datagram,
}
use l4s_poc.Wrapper.Sending.Fifo.{fifo, Represents, run_sends-fifo}
use l4s_poc.Wrapper.Datagrams.{
  new_slot, deliver_datagram, recv_datagram, SlotCall, arrives, receives, slot_closes, run_slot,
}
use l4s_poc.Wrapper.Datagrams.Losses.{arrivals, pending, run_slot-Delivers}
use l4s_poc.Wrapper.Waiting.{Ends, wait_stream_complete-Ends}

-- Two deliveries, read in pieces of three, with the end behind them.
abbrev calls : List BufferCall
calls =
    data_arrives (1 ∷ 2 ∷ 3 ∷ 4 ∷ [])
    ∷ reads 3
    ∷ data_arrives (5 ∷ 6 ∷ [])
    ∷ reads 3
    ∷ reads 3
    ∷ fin_arrives
    ∷ closes
    ∷ reads 3
    ∷ data_arrives (7 ∷ [])
    ∷ []

run_test : run calls new_buffer ≡ (
  1 ∷ 2 ∷ 3 ∷ 4 ∷ 5 ∷ 6 ∷ [],
  record { written = 7 ∷ []; recv_read = 0; fin_received = true; is_closed = true },
)
unfolding run new_buffer deliver deliver_fin close_buffer recv_stream
run_test = refl

run-Delivers_example :
    Fits (run calls new_buffer).1
    × (kept : List (List ℕ)) × Delivers (deliveries calls) kept
    × (joined kept ≡ (run calls new_buffer).0 ++ unread (run calls new_buffer).1)
run-Delivers_example = run-Delivers calls

run-joined_example :
    (run calls new_buffer).0 ++ unread (run calls new_buffer).1 ≡ 1 ∷ 2 ∷ 3 ∷ 4 ∷ 5 ∷ 6 ∷ 7 ∷ []
run-joined_example = run-joined calls (omega arith)

unfoldable ones : ℕ → List ℕ
ones zero = []
ones (suc n) = 1 ∷ ones n

length-ones : (n : ℕ) → length (ones n) ≡ n
unfolding ones
length-ones zero = refl
length-ones (suc n) = omega (arith, length-ones n)

-- Six bytes short of the end of the buffer, with none read.
abbrev nearly_full : RecvBuffer
nearly_full = record {
  written = ones 1_048_570;
  recv_read = 0;
  fin_received = false;
  is_closed = false;
}

more_than : (n k : ℕ) → n < k → n < length (ones k)
more_than n k h = subst (λ l. n < l) (sym (length-ones k)) h

fits : length (ones 1_048_570) ≤ recv_buffer_size
fits = subst (λ l. l ≤ recv_buffer_size) (sym (length-ones 1_048_570)) (omega arith)

too_much : recv_buffer_size < length (ones 1_048_570) + length (ones 10)
too_much =
    subst (λ l. recv_buffer_size < l + length (ones 10)) (sym (length-ones 1_048_570))
      (subst (λ l. recv_buffer_size < 1_048_570 + l) (sym (length-ones 10)) (omega arith))

run-overfull_example :
    run (reads 1_000_000 ∷ data_arrives (ones 10) ∷ reads 100 ∷ []) nearly_full
    ≡ run (reads 1_000_000 ∷ reads 100 ∷ []) nearly_full
run-overfull_example =
    run-overfull nearly_full 1_000_000 (ones 10) (reads 100 ∷ []) (omega arith, fits)
      (more_than 1_000_000 1_048_570 (omega arith)) too_much

-- The queue is empty from the third round on.
abbrev rounds : ℕ → Round
rounds k = record {
  queue_empty = elim k [ zero ↦ false | suc zero ↦ false | suc (suc n) ↦ true ];
  has_cnx = true;
  is_disconnecting = false;
  is_closed = false;
}

wait_stream_complete_test :
    (wait_stream_complete 5000 rounds ≡ some true) × (wait_stream_complete 90 rounds ≡ some false)
unfolding wait_stream_complete wait_loop
wait_stream_complete_test = (refl, refl)

wait_stream_complete-Ends_example : Ends 90 0 rounds (wait_stream_complete 90 rounds)
wait_stream_complete-Ends_example = wait_stream_complete-Ends 90 rounds

-- Additions before and between the rounds of the loop, one of them without memory.
abbrev sends : List SendCall
sends =
    queues true (1 ∷ 2 ∷ []) true false
    ∷ queues true (9 ∷ []) false false
    ∷ takes
    ∷ queues false (7 ∷ []) true false
    ∷ queues true [] true true
    ∷ takes
    ∷ takes
    ∷ takes
    ∷ queues true (3 ∷ []) true false
    ∷ []

run_sends_test :
    ((run_sends sends new_queue).0
      ≡ to_stream (1 ∷ 2 ∷ []) false ∷ to_datagram (9 ∷ []) ∷ to_stream [] true ∷ [])
    × ((run_sends sends new_queue).1.send_tail ≡ some 3)
unfolding run_sends new_queue queue_send_ex link take_item modify
run_sends_test = (refl, refl)

run_sends-fifo_example :
    ((run_sends sends new_queue).0 ≡ (fifo sends []).0)
    × Represents (run_sends sends new_queue).1 (fifo sends []).1
run_sends-fifo_example = run_sends-fifo sends

-- The second datagram overwrites the first, an empty one is not taken, and the last is left.
abbrev slot_calls : List SlotCall
slot_calls =
    arrives (1 ∷ [])
    ∷ arrives (2 ∷ 3 ∷ [])
    ∷ arrives []
    ∷ receives
    ∷ receives
    ∷ slot_closes
    ∷ arrives (4 ∷ [])
    ∷ []

run_slot_test :
    run_slot 1500 slot_calls new_slot
    ≡ ((2 ∷ 3 ∷ []) ∷ [], record { dgram = 4 ∷ []; dgram_ready = true; is_closed = true })
unfolding run_slot new_slot deliver_datagram recv_datagram
run_slot_test = refl

run_slot-Delivers_example :
    Delivers
      (arrivals slot_calls)
      ((run_slot 2000 slot_calls new_slot).0 ++ pending (run_slot 2000 slot_calls new_slot).1)
run_slot-Delivers_example = run_slot-Delivers 2000 slot_calls (omega arith)
