-- ===== src/Wrapper/Datagrams/Losses.antt =====
-- The datagram slot as a network that loses datagrams.
use mathlib.Core.Path.{subst}
use l4s_poc.Base.{
  ℕ, zero, suc, ◌≤◌, ◌≡◌, refl, sym, ap, List, [], ◌∷◌, ◌++◌, Bool, true, false, ◌&&◌, Bool-cases,
  ltb, leb, inl, inr, arith, append_assoc, length, take,
}
use l4s_poc.Report.Delivery.{Delivers, nothing, lose, deliver as arrive}
use l4s_poc.Wrapper.Datagrams.{
  max_packet_size, DatagramSlot, new_slot, deliver_datagram, recv_datagram, copied, SlotCall,
  arrives, receives, slot_closes, run_slot,
}

abbrev pub pending_if : Bool → List ℕ → List (List ℕ)
pending_if true bytes = bytes ∷ []
pending_if false bytes = []

-- The datagram that has arrived and has not been received.
abbrev pub pending : DatagramSlot → List (List ℕ)
pending s = pending_if s.dgram_ready s.dgram

abbrev pub arrivals : List SlotCall → List (List ℕ)
arrivals [] = []
arrivals (arrives bytes ∷ calls) = bytes ∷ arrivals calls
arrivals (receives ∷ calls) = arrivals calls
arrivals (slot_closes ∷ calls) = arrivals calls

lose_second :
    {A : Type 0} (x y : A) {xs ys : List A} → Delivers (x ∷ xs) ys → Delivers (x ∷ y ∷ xs) ys
lose_second x y (lose _ d) = lose x (lose y d)
lose_second x y (arrive _ d) = arrive x (lose y d)

take_all : (n : ℕ) (xs : List ℕ) → length xs ≤ n → take n xs ≡ xs
take_all zero [] h = refl
take_all zero (x ∷ xs) h = absurd (omega arith)
take_all (suc n) [] h = refl
take_all (suc n) (x ∷ xs) h = ap (λ ys. x ∷ ys) (take_all n xs (omega arith))

lose_pending :
    (ready : Bool) (bytes x : List ℕ) (xs ys : List (List ℕ))
    → Delivers (pending_if ready bytes ++ xs) ys
    → Delivers (pending_if ready bytes ++ (x ∷ xs)) ys
lose_pending true bytes x xs ys d = lose_second bytes x d
lose_pending false bytes x xs ys d = lose x d

overwrite :
    (ready : Bool) (bytes : List ℕ) (xs ys : List (List ℕ))
    → Delivers xs ys
    → Delivers (pending_if ready bytes ++ xs) ys
overwrite true bytes xs ys d = lose bytes d
overwrite false bytes xs ys d = d

deliver_datagram-Delivers :
    (x : List ℕ) (s : DatagramSlot) (xs ys : List (List ℕ))
    → Delivers (pending (deliver_datagram x s) ++ xs) ys
    → Delivers (pending s ++ (x ∷ xs)) ys
unfolding deliver_datagram
deliver_datagram-Delivers x s xs ys =
    elim (Bool-cases (ltb 0 (length x) && leb (length x) max_packet_size)) [
      | inl accepted ↦ rw accepted (overwrite s.dgram_ready s.dgram (x ∷ xs) ys)
      | inr refused ↦ rw refused (lose_pending s.dgram_ready s.dgram x xs ys)
    ]

-- The slot holds no more than its buffer.
abbrev pub IsShort : DatagramSlot → Type 0
IsShort s = length s.dgram ≤ max_packet_size

deliver_datagram-IsShort :
    (x : List ℕ) (s : DatagramSlot) → IsShort s → IsShort (deliver_datagram x s)
unfolding deliver_datagram
deliver_datagram-IsShort x s h = ground arith

recv_datagram-Delivers :
    (size : ℕ) (s : DatagramSlot) (xs ys : List (List ℕ))
    → max_packet_size ≤ size
    → IsShort s
    → Delivers (pending (recv_datagram size s).1 ++ xs) ys
    → Delivers (pending s ++ xs) (copied (recv_datagram size s).0 ++ ys)
unfolding recv_datagram
recv_datagram-Delivers size s xs ys enough short = elim (Bool-cases s.dgram_ready) [
  | inl ready ↦ rw (ready, take_all size s.dgram (omega arith)) (arrive s.dgram)
  | inr empty ↦ elim (Bool-cases s.is_closed) [
    | inl closed ↦ rw (empty, closed) (λ d. d)
    | inr is_open ↦ rw (empty, is_open) (λ d. d)
  ]
]

recv_datagram-IsShort : (size : ℕ) (s : DatagramSlot) → IsShort s → IsShort (recv_datagram size s).1
unfolding recv_datagram
recv_datagram-IsShort size s h = ground arith

stays :
    (ready : Bool) (bytes : List ℕ)
    → Delivers (pending_if ready bytes ++ []) (pending_if ready bytes)
stays true bytes = arrive bytes nothing
stays false bytes = nothing

-- From a slot `s` on.
run_slot-Delivers_from :
    (size : ℕ) (calls : List SlotCall) (s : DatagramSlot)
    → max_packet_size ≤ size
    → IsShort s
    → Delivers
        (pending s ++ arrivals calls)
        ((run_slot size calls s).0 ++ pending (run_slot size calls s).1)
unfolding run_slot
run_slot-Delivers_from size [] s enough short = stays s.dgram_ready s.dgram
run_slot-Delivers_from size (arrives x ∷ calls) s enough short =
    deliver_datagram-Delivers x s (arrivals calls) _ (
      run_slot-Delivers_from size calls (deliver_datagram x s) enough
        (deliver_datagram-IsShort x s short))
run_slot-Delivers_from size (slot_closes ∷ calls) s enough short =
    run_slot-Delivers_from size calls (record s { is_closed = true }) enough short
run_slot-Delivers_from size (receives ∷ calls) s enough short =
    (let s1 = (recv_datagram size s).1 in
      subst (Delivers (pending s ++ arrivals calls))
        (sym (
          append_assoc (copied (recv_datagram size s).0) (run_slot size calls s1).0
            (pending (run_slot size calls s1).1)))
        (recv_datagram-Delivers size s (arrivals calls) _ enough short
          (run_slot-Delivers_from size calls s1 enough (recv_datagram-IsShort size s short))))

-- The slot of the wrapper is a network that loses datagrams and keeps their order: with a buffer of at
-- least 1500 bytes, what is received, with what is left in the slot, is what arrived with some left
-- out, each one whole.
pub run_slot-Delivers :
    (size : ℕ) (calls : List SlotCall)
    → max_packet_size ≤ size
    → Delivers
        (arrivals calls)
        ((run_slot size calls new_slot).0 ++ pending (run_slot size calls new_slot).1)
unfolding new_slot
run_slot-Delivers size calls enough =
    run_slot-Delivers_from size calls new_slot enough (omega arith)
