-- ===== src/Wrapper.antt =====
-- What pkg/picoquic/picoquic_wrapper.c keeps of a connection on its own: here the receive buffer of
-- stream 0 (`stream_callback` and `pq_recv_stream`), and the loop of `pq_wait_stream_complete`. Locks
-- are held throughout each call, so that a run is a sequence of calls; a call that waits is `none`.
pub mod Buffer
pub mod Queue
pub mod Waiting
pub mod Sending
pub mod Datagrams
mod Tests
use l4s_poc.Base.{
  ℕ, zero, suc, ◌+◌, ◌*◌, ◌-◌, List, [], ◌∷◌, ◌++◌, Bool, true, false, ◌||◌, ◌&&◌, not, Option,
  none, some, ◌==◌, leb, ltb, if◌then◌else◌, length, take, drop, min,
}

abbrev pub recv_buffer_size : ℕ
recv_buffer_size = 1024 * 1024

-- `written` is the first `recv_write` bytes of `recv_buffer`.
pub record RecvBuffer : Type 0 where
  pub written : List ℕ
  pub recv_read : ℕ
  pub fin_received : Bool
  pub is_closed : Bool

unfoldable pub new_buffer : RecvBuffer
new_buffer = record { written = []; recv_read = 0; fin_received = false; is_closed = false }

-- `picoquic_callback_stream_data` on stream 0: what does not fit behind the bytes written is dropped.
unfoldable pub deliver : List ℕ → RecvBuffer → RecvBuffer
deliver bytes b =
    if leb (length bytes) (recv_buffer_size - length b.written)
    then record b { written = b.written ++ bytes }
    else b

-- `picoquic_callback_stream_fin` behind its bytes.
unfoldable pub deliver_fin : RecvBuffer → RecvBuffer
deliver_fin b = record b { fin_received = true }

-- The callback of a close, and `pq_close_connection`.
unfoldable pub close_buffer : RecvBuffer → RecvBuffer
close_buffer b = record b { is_closed = true }

-- "Reset buffer if fully consumed".
abbrev pub reset_if_consumed : RecvBuffer → RecvBuffer
reset_if_consumed b =
    if leb (length b.written) b.recv_read then record b { written = []; recv_read = 0 } else b

-- `pq_recv_stream` into a buffer of so many bytes: the bytes that it copies, none at the end.
unfoldable pub recv_stream : ℕ → RecvBuffer → Option (List ℕ × RecvBuffer)
recv_stream size b =
    if leb (length b.written) b.recv_read
    then (if b.is_closed || b.fin_received then some ([], b) else none)
    else (let to_copy = min (length b.written - b.recv_read) size in
        some (
          take to_copy (drop b.recv_read b.written),
          reset_if_consumed (record b { recv_read = b.recv_read + to_copy }),
        ))

pub data BufferCall : Type 0 where
  data_arrives : List ℕ → BufferCall
  fin_arrives : BufferCall
  closes : BufferCall
  reads : ℕ → BufferCall

abbrev pub after_recv :
    RecvBuffer
    → (RecvBuffer → List ℕ × RecvBuffer)
    → Option (List ℕ × RecvBuffer)
    → List ℕ × RecvBuffer
after_recv b go_on none = go_on b
after_recv b go_on (some (bytes, b')) = let (rest, last) = go_on b' in (bytes ++ rest, last)

-- All that is read by these calls; a read that would wait reads nothing.
unfoldable pub run : List BufferCall → RecvBuffer → List ℕ × RecvBuffer
unfolding deliver deliver_fin close_buffer recv_stream
run [] b = ([], b)
run (data_arrives bytes ∷ calls) b = run calls (deliver bytes b)
run (fin_arrives ∷ calls) b = run calls (deliver_fin b)
run (closes ∷ calls) b = run calls (close_buffer b)
run (reads size ∷ calls) b = after_recv b (run calls) (recv_stream size b)

-- What a round of the wait finds: whether the send queue is empty, whether there still is a
-- connection of the library, whether that is disconnecting, and whether the wrapper has closed it.
pub record Round : Type 0 where
  pub queue_empty : Bool
  pub has_cnx : Bool
  pub is_disconnecting : Bool
  pub is_closed : Bool

-- How a round ends: with the result 0, or after 10 ms.
abbrev pub round_ends : ℕ → Round → Bool
round_ends waited r =
    (r.queue_empty && r.has_cnx && (r.is_disconnecting || r.is_closed || leb 100 (waited + 10)))
    || r.is_closed

-- The loop, over the rounds as they come: 0 or -1 as `true` or `false`; `none` if the fuel ran out.
unfoldable pub wait_loop : ℕ → ℕ → ℕ → (ℕ → Round) → Option Bool
wait_loop zero timeout waited rounds = none
wait_loop (suc fuel) timeout waited rounds =
    let rest = wait_loop fuel timeout (waited + 10) (λ k. rounds (suc k)) in
    if ltb waited timeout
    then (if round_ends waited (rounds 0) then some true else rest)
    else some false

-- `pq_wait_stream_complete` of a connection that is open, with the fuel that is enough.
unfoldable pub wait_stream_complete : ℕ → (ℕ → Round) → Option Bool
unfolding wait_loop
wait_stream_complete timeout rounds = wait_loop (timeout + 1) timeout 0 rounds
