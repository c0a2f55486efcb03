-- ===== src/Session/Protocol.antt =====
-- The protocol of the C wrapper, as picoquic_wrapper.h and picoquic_wrapper.c have it: a context is made, set up, listened or
-- connected on; a connection is written and read, then finished and waited for, then closed; then the
-- context is destroyed. Datagrams may be received from then on that the connection is there, also after it
-- is closed, as the wrapper never frees it. `monitored` is any C side with a monitor that takes note of each call.
use l4s_poc.Base.{Bool, true, false, Option, none, some}
use l4s_poc.Picoquic.{Api, is_zero}

pub data Phase : Type 0 where
  fresh opened listening live finished closed gone : Phase
  -- A call came out of turn.
  misused : Phase

abbrev pub is_some : {A : Type 0} → Option A → Bool
is_some none = false
is_some (some a) = true

abbrev pub after_create : Bool → Phase → Phase
after_create true Phase.fresh = opened
after_create false Phase.fresh = fresh
after_create made other = misused

abbrev pub after_set_up : Phase → Phase
after_set_up Phase.opened = opened
after_set_up other = misused

abbrev pub after_listen : Bool → Phase → Phase
after_listen true Phase.opened = listening
after_listen false Phase.opened = opened
after_listen done other = misused

abbrev pub after_accept : Bool → Phase → Phase
after_accept true Phase.listening = live
after_accept false Phase.listening = listening
after_accept done other = misused

abbrev pub after_connect : Bool → Phase → Phase
after_connect true Phase.opened = live
after_connect false Phase.opened = opened
after_connect done other = misused

abbrev pub after_send : Phase → Phase
after_send Phase.live = live
after_send other = misused

abbrev pub after_finish : Phase → Phase
after_finish Phase.live = finished
after_finish other = misused

abbrev pub after_wait : Phase → Phase
after_wait Phase.finished = finished
after_wait other = misused

abbrev pub after_receive : Phase → Phase
after_receive Phase.live = live
after_receive Phase.finished = finished
after_receive other = misused

-- `pq_recv_datagram` takes the connection's own lock and reads its own fields, which live on when the
-- connection is closed and the context destroyed; from then on it fails.
abbrev pub after_datagram : Phase → Phase
after_datagram Phase.live = live
after_datagram Phase.finished = finished
after_datagram Phase.closed = closed
after_datagram Phase.gone = gone
after_datagram other = misused

abbrev pub after_close : Phase → Phase
after_close Phase.live = closed
after_close Phase.finished = closed
after_close other = misused

-- A context must not be destroyed under an open connection.
abbrev pub after_destroy : Phase → Phase
after_destroy Phase.opened = gone
after_destroy Phase.listening = gone
after_destroy Phase.closed = gone
after_destroy other = misused

-- A call on the C side, with what the monitor makes of its answer.
abbrev pub noting : {S A : Type 0} → (A → Phase → Phase) → (S → A × S) → S × Phase → A × (S × Phase)
noting note m (s, p) = let (a, s') = m s in (a, (s', note a p))

abbrev pub noting_end : {S : Type 0} → (Phase → Phase) → (S → S) → S × Phase → S × Phase
noting_end note m (s, p) = (m s, note p)

module _ {S Ctx Cnx : Type 0} (api : Api S Ctx Cnx) where
  abbrev pub monitored : Api (S × Phase) Ctx Cnx
  monitored = record {
    pq_create_context = λ server files.
        noting (λ ctx. after_create (is_some ctx)) (api.pq_create_context server files);
    pq_set_congestion_algorithm =
        λ ctx algo. noting (λ status. after_set_up) (api.pq_set_congestion_algorithm ctx algo);
    pq_listen =
        λ ctx port. noting (λ status. after_listen (is_zero status)) (api.pq_listen ctx port);
    pq_accept = λ ctx. noting (λ cnx. after_accept (is_some cnx)) (api.pq_accept ctx);
    pq_connect =
        λ ctx host port. noting (λ cnx. after_connect (is_some cnx)) (api.pq_connect ctx host port);
    pq_destroy_context = λ ctx. noting_end after_destroy (api.pq_destroy_context ctx);
    pq_send_stream = λ cnx bytes. noting (λ n. after_send) (api.pq_send_stream cnx bytes);
    pq_finish_stream = λ cnx. noting (λ status. after_finish) (api.pq_finish_stream cnx);
    pq_wait_stream_complete =
        λ cnx ms. noting (λ status. after_wait) (api.pq_wait_stream_complete cnx ms);
    pq_recv_stream = λ cnx size. noting (λ block. after_receive) (api.pq_recv_stream cnx size);
    pq_send_datagram = λ cnx bytes. noting (λ n. after_receive) (api.pq_send_datagram cnx bytes);
    pq_recv_datagram = λ cnx size. noting (λ block. after_datagram) (api.pq_recv_datagram cnx size);
    pq_is_connected = λ cnx w. api.pq_is_connected cnx w.0;
    pq_close_connection = λ cnx. noting_end after_close (api.pq_close_connection cnx);
  }
