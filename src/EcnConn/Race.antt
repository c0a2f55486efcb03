-- ===== src/EcnConn/Race.antt =====
-- Two goroutines in WriteMsgUDP at once: `SetTOS` takes and releases the lock, and the datagram is
-- written after that, so that the other's `SetTOS` may come between.
use l4s_poc.Base.{ℕ, ◌%◌, ◌≡◌, refl, sym, ap, ap₂, ◌∙◌, List, [], ◌∷◌, ◌++◌, Option, none, some}
use l4s_poc.EcnConn.{Sockets, Conn, set_tos, send, write_msg_udp}
use l4s_poc.EcnConn.Marking.{
  Kernel, mark_to, mark_by, mark_to-set_tos, mark_by-set_tos, mark_to-write, sent-set_tos,
}

-- One call of WriteMsgUDP.
pub record Call (Addr : Type 0) : Type 0 where
  pub bytes : List ℕ
  pub ecn : ℕ
  pub addr : Addr

-- Where a goroutine stands in its call: before `SetTOS`, after it with what it returned, or done
-- with what the call returned.
pub data Thread (Err : Type 0) : Type 0 where
  ready : Thread Err
  marked : Option Err → Thread Err
  done : ℕ → Option Err → Thread Err

module _ {S Err Addr : Type 0} (net : Sockets S Err Addr) (c : Conn) where
  -- The next step of a goroutine that makes the call.
  unfoldable pub advance : Call Addr → Thread Err × S → Thread Err × S
  advance k (ready, s) = let (failed, s') = set_tos net (k.ecn % 4) c s in (marked failed, s')
  advance k (marked failed, s) =
      let ((n, e), s') = send net k.bytes k.addr (failed, s) in (done n e, s')
  advance k (done n e, s) = (done n e, s)

  -- The goroutines `a` and `b` run in the order: mark, mark, send, send.
  unfoldable pub interleave : Call Addr → Call Addr → S → Thread Err × Thread Err × S
  unfolding advance
  interleave a b s =
      let (a1, s1) = advance a (ready, s) in
      let (b1, s2) = advance b (ready, s1) in
      let (a2, s3) = advance a (a1, s2) in let (b2, s4) = advance b (b1, s3) in (a2, b2, s4)

  -- A goroutine that is not disturbed makes exactly the call of WriteMsgUDP.
  pub advance-write_msg_udp :
      (k : Call Addr) (s : S)
      → let ((n, e), s') = write_msg_udp net k.bytes k.ecn k.addr c s in
        advance k (advance k (ready, s)) ≡ (done n e, s')
  unfolding advance write_msg_udp
  advance-write_msg_udp k s = refl

  -- Where both calls report no error, both datagrams have left, each with the mark that the second
  -- call has set, as far as the connection sets one for its address: the first has lost its own.
  pub interleave-mark_lost :
      (k : Kernel net) (a b : Call Addr) (s s' : S) (n m : ℕ)
      → interleave a b s ≡ (done n none, done m none, s')
      → k.sent s'
        ≡ (k.sent s ++ ((mark_by net k c a.addr (b.ecn % 4) s, a.bytes) ∷ []))
          ++ ((mark_by net k c b.addr (b.ecn % 4) s, b.bytes) ∷ [])
  unfolding interleave send
  interleave-mark_lost k a b s s' n m h =
      go r1.0 r2.0 r2.1 marks
        (sent-set_tos net k (b.ecn % 4) c r1.1 ∙ sent-set_tos net k (a.ecn % 4) c s)
        (ap (λ (t : Thread Err × Thread Err × S). t.0) h)
        (ap (λ (t : Thread Err × Thread Err × S). (t.1, t.2)) h)
    where
      r1 : Option Err × S
      r1 = set_tos net (a.ecn % 4) c s

      r2 : Option Err × S
      r2 = set_tos net (b.ecn % 4) c r1.1

      last_mark : Addr → ℕ
      last_mark to = mark_by net k c to (b.ecn % 4) s

      marks : (to : Addr) → r2.0 ≡ none → mark_to net k to r2.1 ≡ last_mark to
      marks to works =
          mark_to-set_tos net k (b.ecn % 4) c to r1.1 works
          ∙ mark_by-set_tos net k (a.ecn % 4) (b.ecn % 4) c to s

      go :
          (f1 f2 : Option Err) (s2 : S)
          → ((to : Addr) → f2 ≡ none → mark_to net k to s2 ≡ last_mark to)
          → k.sent s2 ≡ k.sent s
          → (advance a (marked f1, s2)).0 ≡ done n none
          → advance b (marked f2, (advance a (marked f1, s2)).1) ≡ (done m none, s')
          → k.sent s'
            ≡ (k.sent s ++ ((last_mark a.addr, a.bytes) ∷ [])) ++ ((last_mark b.addr, b.bytes) ∷ [])
      go (some e) f2 s2 mark same p q = cc
      go none (some e) s2 mark same p q = cc (ap (λ (t : Thread Err × S). t.0) q)
      go none none s2 mark same p q =
          let w1 = net.write a.bytes a.addr s2 in
          let w2 = net.write b.bytes b.addr w1.1 in
          let first : w1.0.1 ≡ none = cc in
          let second : w2.0.1 ≡ none = cc (ap (λ (t : Thread Err × S). t.0) q) in
          let last : w2.1 ≡ s' = ap (λ (t : Thread Err × S). t.1) q in
          sym (ap k.sent last)
          ∙ k.sent_write b.bytes b.addr w1.1 second
          ∙ ap₂ (λ l t. l ++ ((t, b.bytes) ∷ []))
              (k.sent_write a.bytes a.addr s2 first
                ∙ ap₂ (λ l t. l ++ ((t, a.bytes) ∷ [])) same (mark a.addr refl))
              (mark_to-write net k a.bytes a.addr b.addr s2 ∙ mark b.addr refl)
