-- ===== src/Wrapper/Sending/Fifo.antt =====
-- The send queue against a list of what is queued.
use mathlib.Core.Path.{subst}
use l4s_poc.Base.{
  ℕ, zero, suc, ◌<◌, ◌≤◌, ◌≡◌, refl, sym, ap, ◌∙◌, List, [], ◌∷◌, ◌++◌, Bool, true, false, Option,
  none, some, arith, length, get_elem?,
}
use l4s_poc.Store.{
  modify, get_elem?-modify, length-modify, get_elem?-append_left, get_elem?-append_end,
}
use l4s_poc.Wrapper.Sending.{
  SendItem, SendQueue, new_queue, point_to, link, queue_send_ex, take_item, Passed, passed_of,
  passed_item, SendCall, queues, takes, run_sends,
}

-- What is queued: the bytes, whether for the stream, and whether the stream ends.
abbrev pub Entry : Type 0
Entry = List ℕ × Bool × Bool

abbrev item_of : Entry → Option ℕ → SendItem
item_of (bytes, is_stream, set_fin) n = record {
  bytes = bytes;
  is_stream = is_stream;
  set_fin = set_fin;
  next = n;
}

abbrev pub passed : Entry → Passed
passed (bytes, is_stream, set_fin) = passed_of is_stream bytes set_fin

-- The queue of entries, with the same calls.
abbrev pub added : Bool → Entry → List Entry → List Entry
added true x xs = xs ++ (x ∷ [])
added false x xs = xs

pub fifo : List SendCall → List Entry → List Passed × List Entry
fifo [] xs = ([], xs)
fifo (queues memory bytes is_stream set_fin ∷ calls) xs =
    fifo calls (added memory (bytes, is_stream, set_fin) xs)
fifo (takes ∷ calls) [] = fifo calls []
fifo (takes ∷ calls) (x ∷ xs) = let (rest, last) = fifo calls xs in (passed x ∷ rest, last)

-- From `p` to `last` the items are these, each with a pointer to the next, which is a later one.
abbrev Linked : List SendItem → ℕ → Entry → List Entry → ℕ → Type 0
Linked heap p x [] last = (p ≡ last) × (get_elem? heap p ≡ some (item_of x none))
Linked heap p x (y ∷ ys) last =
    (q : ℕ) × (p < q) × (get_elem? heap p ≡ some (item_of x (some q))) × Linked heap q y ys last

abbrev pub Represents : SendQueue → List Entry → Type 0
Represents q [] = (q.send_head ≡ none) × (q.send_tail ≡ none)
Represents q (x ∷ xs) =
    (p last : ℕ) × (q.send_head ≡ some p) × (q.send_tail ≡ some last) × Linked q.heap p x xs last

get_elem?-length :
    {A : Type 0} (ts : List A) (j : ℕ) (t : A) → get_elem? ts j ≡ some t → j < length ts
get_elem?-length [] j t e = cc
get_elem?-length (x ∷ ts) zero t e = omega arith
get_elem?-length (x ∷ ts) (suc j) t e = (let h = get_elem?-length ts j t e in omega arith)

Linked-le :
    (heap : List SendItem) (p : ℕ) (x : Entry) (xs : List Entry) (last : ℕ)
    → Linked heap p x xs last
    → p ≤ last
Linked-le heap p x [] last (same, at) = omega arith
Linked-le heap p x (y ∷ ys) last (q, less, at, rest) =
    (let h = Linked-le heap q y ys last rest in omega arith)

-- The heap after an addition behind `last`.
abbrev grown : List SendItem → ℕ → Entry → List SendItem
grown heap last z = modify last (point_to (length heap)) heap ++ (item_of z none ∷ [])

grown-before :
    (heap : List SendItem) (p last : ℕ) (z : Entry) (item : SendItem)
    → p < last
    → get_elem? heap p ≡ some item
    → get_elem? (grown heap last z) p ≡ some item
grown-before heap p last z item less at =
    (let short = get_elem?-length heap p item at in
      get_elem?-append_left (modify last (point_to (length heap)) heap) (item_of z none ∷ []) p
        (subst (λ n. p < n) (sym (length-modify last (point_to (length heap)) heap)) short)
      ∙ get_elem?-modify last p (point_to (length heap)) heap
      ∙ ground (arith, at))

grown-last :
    (heap : List SendItem) (last : ℕ) (z : Entry) (item : SendItem)
    → get_elem? heap last ≡ some item
    → get_elem? (grown heap last z) last ≡ some (point_to (length heap) item)
grown-last heap last z item at =
    (let short = get_elem?-length heap last item at in
      get_elem?-append_left (modify last (point_to (length heap)) heap) (item_of z none ∷ []) last
        (subst (λ n. last < n) (sym (length-modify last (point_to (length heap)) heap)) short)
      ∙ get_elem?-modify last last (point_to (length heap)) heap
      ∙ ground (arith, at))

grown-end :
    (heap : List SendItem) (last : ℕ) (z : Entry)
    → get_elem? (grown heap last z) (length heap) ≡ some (item_of z none)
grown-end heap last z =
    subst (λ n. get_elem? (grown heap last z) n ≡ some (item_of z none))
      (length-modify last (point_to (length heap)) heap)
      (get_elem?-append_end (modify last (point_to (length heap)) heap) (item_of z none))

Linked-grown :
    (heap : List SendItem) (p : ℕ) (x : Entry) (xs : List Entry) (last : ℕ) (z : Entry)
    → Linked heap p x xs last
    → Linked (grown heap last z) p x (xs ++ (z ∷ [])) (length heap)
Linked-grown heap p x [] last z (same, at) = (
  length heap,
  get_elem?-length heap p (item_of x none) at,
  subst (λ n. get_elem? (grown heap last z) n ≡ some (item_of x (some (length heap)))) (sym same)
      (grown-last heap last z (item_of x none)
        (subst (λ n. get_elem? heap n ≡ some (item_of x none)) same at)),
  (refl, grown-end heap last z),
)
Linked-grown heap p x (y ∷ ys) last z (q, less, at, rest) =
    (let h = Linked-le heap q y ys last rest in
      (
        q,
        less,
        grown-before heap p last z (item_of x (some q)) (omega arith) at,
        Linked-grown heap q y ys last z rest,
      ))

-- An addition to a queue of `xs`.
queue_send_ex-added :
    (memory : Bool) (x : Entry) (xs : List Entry) (q : SendQueue)
    → Represents q xs
    → Represents (queue_send_ex memory x.0 x.1 x.2 q).1 (added memory x xs)
unfolding queue_send_ex link
queue_send_ex-added false x xs q r = r
queue_send_ex-added true x [] q (no_head, no_tail) =
    rw no_tail (
      length q.heap,
      length q.heap,
      refl,
      refl,
      (refl, get_elem?-append_end q.heap (item_of x none)),
    )
queue_send_ex-added true x (y ∷ ys) q (p, last, head, tail, linked) =
    rw tail (p, length q.heap, head, refl, Linked-grown q.heap p y ys last x linked)

-- What taking an item gives of a queue of `xs`.
abbrev Taken : List Entry → Option SendItem × SendQueue → Type 0
Taken [] (item, q) = (item ≡ none) × Represents q []
Taken (x ∷ xs) (item, q) = (passed_item item ≡ passed x ∷ []) × Represents q xs

take_item-Taken : (xs : List Entry) (q : SendQueue) → Represents q xs → Taken xs (take_item q)
unfolding take_item
take_item-Taken [] q (no_head, no_tail) = rw no_head (refl, (refl, no_tail))
take_item-Taken (x ∷ []) q (p, last, head, tail, (same, at)) = rw (head, at) (refl, (refl, refl))
take_item-Taken (x ∷ y ∷ ys) q (p, last, head, tail, (n, less, at, rest)) =
    rw (head, at) (refl, (n, last, refl, tail, rest))

-- From a queue of `xs` on.
run_sends-Represents :
    (calls : List SendCall) (xs : List Entry) (q : SendQueue)
    → Represents q xs
    → ((run_sends calls q).0 ≡ (fifo calls xs).0)
      × Represents (run_sends calls q).1 (fifo calls xs).1
unfolding run_sends fifo
run_sends-Represents [] xs q r = (refl, r)
run_sends-Represents (queues memory bytes is_stream set_fin ∷ calls) xs q r =
    run_sends-Represents calls (added memory (bytes, is_stream, set_fin) xs) _
      (queue_send_ex-added memory (bytes, is_stream, set_fin) xs q r)
run_sends-Represents (takes ∷ calls) [] q r =
    (let (nothing, empty) = take_item-Taken [] q r in
      let (same, last) = run_sends-Represents calls [] (take_item q).1 empty in
      (ap (λ i. passed_item i ++ (run_sends calls (take_item q).1).0) nothing ∙ same, last))
run_sends-Represents (takes ∷ calls) (x ∷ xs) q r =
    (let (first, others) = take_item-Taken (x ∷ xs) q r in
      let (same, last) = run_sends-Represents calls xs (take_item q).1 others in
      (
        ap (λ ps. ps ++ (run_sends calls (take_item q).1).0) first ∙ ap (λ ps. passed x ∷ ps) same,
        last,
      ))

-- The linked list is a first-in first-out queue: however additions, which fail where there is no memory,
-- and the rounds of process_send_queue alternate, picoquic is passed what such a queue gives out, and
-- the list then represents what is left in it, with the tail pointer at its last item.
pub run_sends-fifo :
    (calls : List SendCall)
    → ((run_sends calls new_queue).0 ≡ (fifo calls []).0)
      × Represents (run_sends calls new_queue).1 (fifo calls []).1
unfolding new_queue
run_sends-fifo calls = run_sends-Represents calls [] new_queue (refl, refl)
