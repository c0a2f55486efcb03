-- ===== src/Wrapper/Queue.antt =====
-- A run of calls on the receive buffer against a queue of bytes that may lose whole deliveries.
use l4s_poc.Base.{
  ℕ, ◌+◌, ◌-◌, ◌≤◌, ◌<◌, ◌≡◌, refl, sym, ap, ◌∙◌, List, [], ◌∷◌, ◌++◌, append-nil, append_assoc,
  inl, inr, Option, none, some, arith, leb-false, length, take, drop, min, total_length,
}
use l4s_poc.Report.Delivery.{Delivers, nothing, lose, deliver as arrive}
use l4s_poc.Wrapper.{
  recv_buffer_size, RecvBuffer, new_buffer, deliver, deliver_fin, close_buffer, recv_stream,
  BufferCall, data_arrives, fin_arrives, closes, reads, after_recv, run,
}
use l4s_poc.Wrapper.Buffer.{
  unread, deliveries, joined, Fits, Delivered, deliver-Delivered, Received, recv_stream-Received,
}

-- What a run does with what arrives: `kept` of it is read or stays to be read, and it is all kept
-- when it fits.
abbrev Keeps : List (List ℕ) → RecvBuffer → List ℕ × RecvBuffer → Type 0
Keeps sent b (bytes, b') =
    Fits b'
    × (kept : List (List ℕ)) × Delivers sent kept
    × (unread b ++ joined kept ≡ bytes ++ unread b')
    × (length b.written + total_length sent ≤ recv_buffer_size → kept ≡ sent)

Keeps-data :
    (bytes : List ℕ) (sent : List (List ℕ)) (b : RecvBuffer) (r : List ℕ × RecvBuffer)
    → Delivered bytes b
    → Keeps sent (deliver bytes b) r
    → Keeps (bytes ∷ sent) b r
Keeps-data bytes sent b (got, b') (fits, inl (same, more)) (ok, kept, del, queue, all) = (
  ok,
  bytes ∷ kept,
  arrive bytes del,
  sym (append_assoc (unread b) bytes (joined kept))
      ∙ ap (λ xs. xs ++ joined kept) (sym same)
      ∙ queue,
  λ room. ap (λ xss. bytes ∷ xss) (all (omega arith)),
)
Keeps-data bytes sent b (got, b') (fits, inr (same, over)) (ok, kept, del, queue, all) = (
  ok,
  kept,
  lose bytes del,
  ap (λ (c : RecvBuffer). unread c ++ joined kept) (sym same) ∙ queue,
  λ room. absurd (omega arith),
)

Keeps-read :
    (size : ℕ) (sent : List (List ℕ)) (b : RecvBuffer) (go_on : RecvBuffer → List ℕ × RecvBuffer)
    (r : Option (List ℕ × RecvBuffer))
    → Fits b
    → Received size b r
    → ((c : RecvBuffer) → Fits c → Keeps sent c (go_on c))
    → Keeps sent b (after_recv b go_on r)
Keeps-read size sent b go_on none fits recv after = after b fits
Keeps-read size sent b go_on (some (bytes, c)) (v, w) (split, ok, less, short) after =
    (let (fits, kept, del, queue, all) = after c (ok, omega arith) in
      (
        fits,
        kept,
        del,
        ap (λ xs. xs ++ joined kept) split
            ∙ append_assoc bytes (unread c) (joined kept)
            ∙ ap (λ xs. bytes ++ xs) queue
            ∙ sym (append_assoc bytes (go_on c).0 (unread (go_on c).1)),
        λ room. all (omega arith),
      ))

run-Keeps :
    (calls : List BufferCall) (b : RecvBuffer) → Fits b → Keeps (deliveries calls) b (run calls b)
unfolding run deliver_fin close_buffer
run-Keeps [] b fits = (fits, [], nothing, append-nil (unread b), λ room. refl)
run-Keeps (data_arrives bytes ∷ calls) b fits =
    (let d = deliver-Delivered bytes b fits in
      Keeps-data bytes (deliveries calls) b (run calls (deliver bytes b)) d
        (run-Keeps calls (deliver bytes b) d.0))
run-Keeps (fin_arrives ∷ calls) b fits = run-Keeps calls (deliver_fin b) fits
run-Keeps (closes ∷ calls) b fits = run-Keeps calls (close_buffer b) fits
run-Keeps (reads size ∷ calls) b (v, w) =
    Keeps-read size (deliveries calls) b (run calls) (recv_stream size b) (v, w)
      (recv_stream-Received size b v) (run-Keeps calls)

new_buffer-Fits : Fits new_buffer
unfolding new_buffer
new_buffer-Fits = (omega arith, omega arith)

-- The receive buffer is a queue of bytes that may lose a delivery: what all reads copy, with the
-- bytes that are unread at the end behind it, is what arrived, in order, each delivery whole or not
-- at all. The bytes written stay within `recv_buffer`, and the place to read from within them.
pub run-Delivers :
    (calls : List BufferCall)
    → Fits (run calls new_buffer).1
      × (kept : List (List ℕ)) × Delivers (deliveries calls) kept
      × (joined kept ≡ (run calls new_buffer).0 ++ unread (run calls new_buffer).1)
unfolding new_buffer
run-Delivers calls =
    (let (fits, kept, del, queue, all) = run-Keeps calls new_buffer new_buffer-Fits in
      (fits, kept, del, queue))

-- When all that arrives is no more than the 1 MiB of the buffer, nothing is lost, whenever the reads
-- come and however much they ask for: they copy the bytes that arrived, in order, and the bytes that
-- are unread at the end are the rest.
pub run-joined :
    (calls : List BufferCall)
    → total_length (deliveries calls) ≤ recv_buffer_size
    → (run calls new_buffer).0 ++ unread (run calls new_buffer).1 ≡ joined (deliveries calls)
unfolding new_buffer
run-joined calls room =
    (let (fits, kept, del, queue, all) = run-Keeps calls new_buffer new_buffer-Fits in
      sym queue ∙ ap joined (all (omega arith)))

-- A delivery that does not fit behind the bytes written is lost, even when more of those have been
-- read than it has bytes, as long as one is unread.
deliver-overfull :
    (bytes : List ℕ) (b : RecvBuffer)
    → recv_buffer_size < length b.written + length bytes
    → length b.written ≤ recv_buffer_size
    → deliver bytes b ≡ b
unfolding deliver
deliver-overfull bytes b over fits =
    rw (leb-false (length bytes) (recv_buffer_size - length b.written) (omega arith)) refl

recv_stream-part :
    (size : ℕ) (b : RecvBuffer)
    → b.recv_read + size < length b.written
    → recv_stream size b
      ≡ some (take size (drop b.recv_read b.written), record b { recv_read = b.recv_read + size })
unfolding recv_stream
recv_stream-part size b h =
    (let n : min (length b.written - b.recv_read) size ≡ size = ground arith in
      rw
        (
          leb-false (length b.written) b.recv_read (omega arith),
          n,
          leb-false (length b.written) (b.recv_read + size) h,
        )
        refl)

-- A read of a part of the bytes makes no room: what then arrives and does not fit behind the bytes
-- written is lost, and what is read later goes on behind it.
pub run-overfull :
    (b : RecvBuffer) (size : ℕ) (bytes : List ℕ) (calls : List BufferCall)
    → Fits b
    → b.recv_read + size < length b.written
    → recv_buffer_size < length b.written + length bytes
    → run (reads size ∷ data_arrives bytes ∷ calls) b ≡ run (reads size ∷ calls) b
unfolding run
run-overfull b size bytes calls (v, w) part over =
    rw
      (
        recv_stream-part size b part,
        deliver-overfull bytes (record b { recv_read = b.recv_read + size }) over w,
      )
      refl
