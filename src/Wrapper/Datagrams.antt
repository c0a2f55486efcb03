-- ===== src/Wrapper/Datagrams.antt =====
-- The datagram slot of pkg/picoquic/picoquic_wrapper.c: `picoquic_callback_datagram` and
-- `pq_recv_datagram`. It holds one datagram, which the next one overwrites.
pub mod Losses
use l4s_poc.Base.{
  ℕ, List, [], ◌∷◌, ◌++◌, Bool, true, false, ◌&&◌, not, Option, none, some, ltb, leb, if◌then◌else◌,
  length, take,
}

abbrev pub max_packet_size : ℕ
max_packet_size = 1500

pub record DatagramSlot : Type 0 where
  pub dgram : List ℕ
  pub dgram_ready : Bool
  pub is_closed : Bool

unfoldable pub new_slot : DatagramSlot
new_slot = record { dgram = []; dgram_ready = false; is_closed = false }

unfoldable pub deliver_datagram : List ℕ → DatagramSlot → DatagramSlot
deliver_datagram bytes s =
    if ltb 0 (length bytes) && leb (length bytes) max_packet_size
    then record s { dgram = bytes; dgram_ready = true }
    else s

-- What a receive gives: it waits, it fails, or it copies these bytes.
pub data Receive : Type 0 where
  waits fails : Receive
  copies : List ℕ → Receive

-- `pq_recv_datagram` into a buffer of so many bytes.
unfoldable pub recv_datagram : ℕ → DatagramSlot → Receive × DatagramSlot
recv_datagram size s =
    if s.dgram_ready
    then (copies (take size s.dgram), record s { dgram_ready = false })
    else (if s.is_closed then fails else waits, s)

abbrev pub copied : Receive → List (List ℕ)
copied (copies bytes) = bytes ∷ []
copied waits = []
copied fails = []

pub data SlotCall : Type 0 where
  arrives : List ℕ → SlotCall
  receives slot_closes : SlotCall

-- All that is received by these calls, into buffers of one size.
unfoldable pub run_slot : ℕ → List SlotCall → DatagramSlot → List (List ℕ) × DatagramSlot
unfolding deliver_datagram recv_datagram
run_slot size [] s = ([], s)
run_slot size (arrives bytes ∷ calls) s = run_slot size calls (deliver_datagram bytes s)
run_slot size (slot_closes ∷ calls) s = run_slot size calls (record s { is_closed = true })
run_slot size (receives ∷ calls) s =
    let (r, s1) = recv_datagram size s in
    let (rest, last) = run_slot size calls s1 in (copied r ++ rest, last)
