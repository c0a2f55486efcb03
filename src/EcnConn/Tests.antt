-- ===== src/EcnConn/Tests.antt =====
-- Runs of the connection over a network that keeps one TOS value and what it has sent, and of the
-- statistics.
use l4s_poc.Base.{
  ℕ, ◌%◌, ◌≡◌, refl, List, [], ◌∷◌, ◌++◌, Bool, true, false, ◌==◌, if◌then◌else◌, Option, none,
  some, inl, inr, arith, length,
}
use l4s_poc.EcnConn.{
  Cmsg, Sockets, Conn, refused, wrapped, listen_udp, dial_udp, wrap_conn, wrap_marked,
  enable_receiving, set_tos, send, write_msg_udp, write_to_udp,
}
use l4s_poc.Ecn.{new_tracker}
use l4s_poc.EcnConn.{new_ecn_stats, count, reset}
use l4s_poc.EcnConn.Agreement.{
  StatsCall, records, resets, stats_run, tracker_run, Agrees, stats_run-tracker_run,
}
use l4s_poc.EcnConn.Oob.{Carries}
use l4s_poc.EcnConn.Marking.{Kernel, mark_by}
use l4s_poc.EcnConn.Race.{Call, advance, interleave, interleave-mark_lost}

-- The time stamp message of SO_TIMESTAMP and then an IPv4 TOS byte.
abbrev stamp : Cmsg
stamp = record { level = 1; kind = 29; bytes = 1 ∷ 2 ∷ 3 ∷ 4 ∷ [] }

abbrev tos_byte : Cmsg
tos_byte = record { level = 0; kind = 1; bytes = 187 ∷ [] }

abbrev parse : List ℕ → Option (List Cmsg)
parse [] = some (stamp ∷ [])
parse (b ∷ bytes) = some (stamp ∷ tos_byte ∷ [])

stamp-silent : ¬ Carries stamp
stamp-silent (inl h) = omega (arith, h.0)
stamp-silent (inr h) = omega (arith, h.0)

-- A dual-stack socket: the mark for IPv4 addresses, that for IPv6 addresses, and what has left.
record Net : Type 0 where
  tos : ℕ
  tclass : ℕ
  log : List (ℕ × List ℕ)

-- Address 0 is an IPv4 one.
abbrev is_four : ℕ → Bool
is_four a = a == 0

abbrev net : Sockets Net ℕ ℕ
net = record {
  syscall_conn = λ s. (none, s);
  control = λ s. (none, s);
  set_option = λ level name v s. (none, s);
  is_ip4 = λ s. true;
  set_tos4 = λ t s. (none, record s { tos = t });
  set_traffic_class = λ t s. (none, record s { tclass = t });
  read = λ size space s. ((some 22, [], [], 0), s);
  write = λ b addr s. (
    (length b, none),
    record s { log = s.log ++ ((if is_four addr then s.tos else s.tclass, b) ∷ []) },
  );
  parse = parse;
}

kernel : Kernel net
kernel = record {
  is_ip4_addr = is_four;
  mark4 = λ s. s.tos;
  mark6 = λ s. s.tclass;
  sent = λ s. s.log;
  mark4_set4 = λ t s h. refl;
  mark6_set4 = λ t s. refl;
  mark6_set6 = λ t s h. refl;
  mark4_set6 = λ t s. refl;
  sent_set4 = λ t s. refl;
  sent_set6 = λ t s. refl;
  mark4_write = λ b a s. refl;
  mark6_write = λ b a s. refl;
  sent_write = λ b a s h. refl;
}

abbrev conn4 : Conn
conn4 = record { is_ipv6 = false; default_ecn = 1 }

abbrev conn6 : Conn
conn6 = record { is_ipv6 = true; default_ecn = 1 }

abbrev idle : Net
idle = record { tos = 0; tclass = 0; log = [] }

-- With the default ECT(1), an IPv6 connection marks a datagram to an IPv6 address, and not one to an
-- IPv4 address.
unmarked_test :
    (kernel.sent (write_to_udp net (5 ∷ []) 7 conn6 idle).1 ≡ (1, 5 ∷ []) ∷ [])
    × (kernel.sent (write_to_udp net (5 ∷ []) 0 conn6 idle).1 ≡ (0, 5 ∷ []) ∷ [])
unfolding write_to_udp write_msg_udp send set_tos kernel
unmarked_test = (refl, refl)

abbrev first : Call ℕ
first = record { bytes = 5 ∷ []; ecn = 1; addr = 0 }

abbrev second : Call ℕ
second = record { bytes = 6 ∷ []; ecn = 0; addr = 0 }

abbrev after_both : Net
after_both = record { tos = 0; tclass = 0; log = (0, 5 ∷ []) ∷ (0, 6 ∷ []) ∷ [] }

interleave-mark_lost_example :
    kernel.sent after_both
    ≡ (kernel.sent idle
        ++ ((mark_by net kernel conn4 first.addr (second.ecn % 4) idle, first.bytes) ∷ []))
      ++ ((mark_by net kernel conn4 second.addr (second.ecn % 4) idle, second.bytes) ∷ [])
unfolding interleave advance send set_tos
interleave-mark_lost_example =
    interleave-mark_lost net conn4 kernel first second idle after_both 1 1 refl

-- A socket on which IP_RECVTOS cannot be set is refused, and not returned, with the network as it was
-- after the socket was opened.
abbrev no_tos : Sockets Net ℕ ℕ
no_tos = record net { set_option = λ level name v s. (some 92, s) }

refused_test :
    listen_udp no_tos (λ s. (none, record s { tos = 5 })) idle
    ≡ (refused 92, record { tos = 5; tclass = 0; log = [] })
unfolding listen_udp wrap_conn enable_receiving
refused_test = refl

wrapped_test :
    dial_udp net (λ s. (none, s)) idle ≡ (wrapped conn4, record { tos = 1; tclass = 0; log = [] })
unfolding dial_udp wrap_conn enable_receiving wrap_marked set_tos
wrapped_test = refl

dial_error_test : dial_udp net (λ s. (some 111, s)) idle ≡ (refused 111, idle)
unfolding dial_udp
dial_error_test = refl

-- A CE mark with higher bits set, a reset, and a packet that is not ECT.
abbrev stats_calls : List StatsCall
stats_calls =
    records (record { ecn = 7; seq_num = 1; timestamp = 90 })
    ∷ resets
    ∷ records (record { ecn = 4; seq_num = 2; timestamp = 180 })
    ∷ []

stats_run-tracker_run_example :
    ((stats_run stats_calls new_ecn_stats).0 ≡ (tracker_run stats_calls (new_tracker 8)).0)
    × Agrees (stats_run stats_calls new_ecn_stats).1 (tracker_run stats_calls (new_tracker 8)).1
stats_run-tracker_run_example = stats_run-tracker_run 8 stats_calls

stats_run_test : (stats_run stats_calls new_ecn_stats).0 ≡ (0, 0, 1, 0) ∷ []
unfolding new_ecn_stats count reset
stats_run_test = refl
