-- ===== src/Wrapper/Sending.antt =====
-- The send queue of pkg/picoquic/picoquic_wrapper.c, `queue_send_ex` and `process_send_queue`: a linked
-- list between a head and a tail pointer. A pointer is an index into the items that were allocated.
-- The lock is held for one addition, and for taking one item, so that these alternate in any way.
pub mod Fifo
use l4s_poc.Base.{ℕ, List, [], ◌∷◌, ◌++◌, Bool, true, false, Option, none, some, length, get_elem?}
use l4s_poc.Store.{modify}

-- `send_item_t`.
pub record SendItem : Type 0 where
  pub bytes : List ℕ
  pub is_stream : Bool
  pub set_fin : Bool
  pub next : Option ℕ

pub record SendQueue : Type 0 where
  pub heap : List SendItem
  pub send_head : Option ℕ
  pub send_tail : Option ℕ

unfoldable pub new_queue : SendQueue
new_queue = record { heap = []; send_head = none; send_tail = none }

abbrev pub point_to : ℕ → SendItem → SendItem
point_to n item = record item { next = some n }

-- The new item behind the tail, or as the only one.
unfoldable pub link : Option ℕ → SendItem → SendQueue → SendQueue
link none item q = record {
  heap = q.heap ++ (item ∷ []);
  send_head = some (length q.heap);
  send_tail = some (length q.heap);
}
link (some tail) item q = record {
  heap = modify tail (point_to (length q.heap)) q.heap ++ (item ∷ []);
  send_head = q.send_head;
  send_tail = some (length q.heap);
}

-- `queue_send_ex`, given whether there is memory: whether it succeeds.
unfoldable pub queue_send_ex : Bool → List ℕ → Bool → Bool → SendQueue → Bool × SendQueue
unfolding link
queue_send_ex false bytes is_stream set_fin q = (false, q)
queue_send_ex true bytes is_stream set_fin q = (
  true,
  link q.send_tail (record { bytes = bytes; is_stream = is_stream; set_fin = set_fin; next = none })
      q,
)

-- `if (!conn->send_head) conn->send_tail = NULL`.
abbrev pub tail_after : Option ℕ → Option ℕ → Option ℕ
tail_after none tail = none
tail_after (some head) tail = tail

abbrev pub unlink : Option SendItem → SendQueue → Option SendItem × SendQueue
unlink none q = (none, q)
unlink (some item) q =
    (some item, record q { send_head = item.next; send_tail = tail_after item.next q.send_tail })

abbrev pub take_head : Option ℕ → SendQueue → Option SendItem × SendQueue
take_head none q = (none, q)
take_head (some p) q = unlink (get_elem? q.heap p) q

-- A round of the loop of `process_send_queue`: the item that it takes, if there is one.
unfoldable pub take_item : SendQueue → Option SendItem × SendQueue
take_item q = take_head q.send_head q

-- What is passed to picoquic.
pub data Passed : Type 0 where
  to_stream : List ℕ → Bool → Passed
  to_datagram : List ℕ → Passed

abbrev pub passed_of : Bool → List ℕ → Bool → Passed
passed_of true bytes set_fin = to_stream bytes set_fin
passed_of false bytes set_fin = to_datagram bytes

abbrev pub passed_item : Option SendItem → List Passed
passed_item none = []
passed_item (some item) = passed_of item.is_stream item.bytes item.set_fin ∷ []

pub data SendCall : Type 0 where
  queues : Bool → List ℕ → Bool → Bool → SendCall
  takes : SendCall

unfoldable pub run_sends : List SendCall → SendQueue → List Passed × SendQueue
unfolding queue_send_ex take_item
run_sends [] q = ([], q)
run_sends (queues memory bytes is_stream set_fin ∷ calls) q =
    run_sends calls (queue_send_ex memory bytes is_stream set_fin q).1
run_sends (takes ∷ calls) q =
    let (item, q') = take_item q in
    let (rest, last) = run_sends calls q' in (passed_item item ++ rest, last)
