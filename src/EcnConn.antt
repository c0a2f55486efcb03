-- ===== src/EcnConn.antt =====
-- The ECN-aware UDP connection and its statistics, pkg/ecnconn/conn.go. The sockets of the Go
-- library and of golang.org/x are a parameter, `Sockets`, with the state `S` of the network.
pub mod Oob
pub mod Marking
pub mod Race
pub mod Opening
pub mod Agreement
mod Tests
use l4s_poc.Base.{
  ℕ, ◌+◌, ◌%◌, ◌^◌, List, [], ◌∷◌, Bool, true, false, ◌&&◌, Option, none, some, ◌==◌, leb,
  if◌then◌else◌, length, get_or,
}
use l4s_poc.Base.Words.{u64}

-- A control message: its level, its type and its data.
pub record Cmsg : Type 0 where
  pub level : ℕ
  pub kind : ℕ
  pub bytes : List ℕ

-- The constants of the syscall package that the code compares with.
abbrev pub ipproto_ip : ℕ
ipproto_ip = 0

abbrev pub ip_tos : ℕ
ip_tos = 1

abbrev pub ip_recvtos : ℕ
ip_recvtos = 13

abbrev pub ipproto_ipv6 : ℕ
ipproto_ipv6 = 41

abbrev pub ipv6_recvtclass : ℕ
ipv6_recvtclass = 66

abbrev pub ipv6_tclass : ℕ
ipv6_tclass = 67

-- The loop of `parseECNFromOOB`; `Data[0] & 0x03` is `% 4`.
pub ecn_of_cmsgs : List Cmsg → ℕ
ecn_of_cmsgs [] = 0
ecn_of_cmsgs (c ∷ cs) =
    let rest = ecn_of_cmsgs cs in
    if c.level == ipproto_ip && (c.kind == ip_tos && leb 1 (length c.bytes))
    then get_or c.bytes 0 0 % 4
    else if c.level == ipproto_ipv6 && (c.kind == ipv6_tclass && leb 4 (length c.bytes))
    then get_or c.bytes 0 0 % 4
    else rest

-- `parseECNFromOOB`; `parse` is `unix.ParseSocketControlMessage`, `none` its error.
unfoldable pub parse_ecn_from_oob : (List ℕ → Option (List Cmsg)) → List ℕ → ℕ
unfolding ecn_of_cmsgs
parse_ecn_from_oob parse oob = elim (parse oob) [ none ↦ 0 | some cmsgs ↦ ecn_of_cmsgs cmsgs ]

-- `Err` are the errors of the network. `read` gives the message, the control data and the sender.
pub record Sockets (S Err Addr : Type 0) : Type 0 where
  pub syscall_conn : S → Option Err × S
  pub control : S → Option Err × S
  pub set_option : ℕ → ℕ → ℕ → S → Option Err × S
  pub is_ip4 : S → Bool
  pub set_tos4 : ℕ → S → Option Err × S
  pub set_traffic_class : ℕ → S → Option Err × S
  pub read : ℕ → ℕ → S → (Option Err × List ℕ × List ℕ × Addr) × S
  pub write : List ℕ → Addr → S → (ℕ × Option Err) × S
  pub parse : List ℕ → Option (List Cmsg)

pub record Conn : Type 0 where
  pub is_ipv6 : Bool
  pub default_ecn : ℕ

module _ {S Err Addr : Type 0} (net : Sockets S Err Addr) where
  -- `SetTOS`.
  unfoldable pub set_tos : ℕ → Conn → S → Option Err × S
  set_tos tos c s = if c.is_ipv6 then net.set_traffic_class tos s else net.set_tos4 tos s

  -- `SetDefaultECN`.
  unfoldable pub set_default_ecn : ℕ → Conn → S → Option Err × Conn × S
  set_default_ecn ecn c s =
      let c' = record c { default_ecn = ecn % 4 } in
      let (failed, s') = set_tos (ecn % 4) c' s in (failed, c', s')

  -- The rest of `WriteMsgUDP`, after `SetTOS`.
  unfoldable pub send : List ℕ → Addr → Option Err × S → (ℕ × Option Err) × S
  send b addr (some e, s) = ((0, some e), s)
  send b addr (none, s) = net.write b addr s

  -- `WriteMsgUDP`.
  unfoldable pub write_msg_udp : List ℕ → ℕ → Addr → Conn → S → (ℕ × Option Err) × S
  write_msg_udp b ecn addr c s = send b addr (set_tos (ecn % 4) c s)

  -- `WriteToUDP`.
  unfoldable pub write_to_udp : List ℕ → Addr → Conn → S → (ℕ × Option Err) × S
  write_to_udp b addr c s = write_msg_udp b c.default_ecn addr c s

  -- `ReadMsgUDP` into a buffer of `size` bytes: an error, or the message, its ECN and its sender.
  pub data Received : Type 0 where
    failed : Err → Received
    received : List ℕ → ℕ → Addr → Received

  unfoldable pub read_msg_udp : ℕ → S → Received × S
  unfolding parse_ecn_from_oob
  read_msg_udp size s =
      let ((error, b, oob, addr), s') = net.read size 128 s in
      elim error [
        | some e ↦ (failed e, s')
        | none ↦ (received b (parse_ecn_from_oob net.parse oob) addr, s')
      ]

  -- `ReadFromUDP`.
  pub data Plain : Type 0 where
    error : Err → Plain
    message : List ℕ → Addr → Plain

  unfoldable pub read_from_udp : ℕ → S → Plain × S
  unfolding read_msg_udp
  read_from_udp size s =
      let (r, s') = read_msg_udp size s in
      elim r [ failed e ↦ (error e, s') | received b ecn addr ↦ (message b addr, s') ]

  -- `WrapConn`: the error, or the connection.
  pub data Wrapped : Type 0 where
    refused : Err → Wrapped
    wrapped : Conn → Wrapped

  -- The connection with its default mark, set on the socket if that works.
  pub wrap_marked : S → Wrapped × S
  unfolding set_tos
  wrap_marked s =
      let c : Conn = record { is_ipv6 = if net.is_ip4 s then false else true; default_ecn = 1 } in
      let (_, s') = set_tos 1 c s in (wrapped c, s')

  -- The function given to `rawConn.Control`: the IPv4 option must be set, the IPv6 one may fail.
  pub enable_receiving : S → Option Err × S
  enable_receiving s =
      let (sock_err, s1) = net.set_option ipproto_ip ip_recvtos 1 s in
      elim sock_err [
        | some e ↦ (some e, s1)
        | none ↦ (let (_, s2) = net.set_option ipproto_ipv6 ipv6_recvtclass 1 s1 in (none, s2))
      ]

  unfoldable pub wrap_conn : S → Wrapped × S
  unfolding wrap_marked enable_receiving
  wrap_conn s =
      let (no_raw, s1) = net.syscall_conn s in
      let (no_control, s2) = net.control s1 in
      let (sock_err, s3) = enable_receiving s2 in
      elim no_raw [
        | some e ↦ (refused e, s1)
        | none ↦ elim no_control [
          | some e ↦ (refused e, s2)
          | none ↦ elim sock_err [ some e ↦ (refused e, s3) | none ↦ wrap_marked s3 ]
        ]
      ]

  -- `ListenUDP` and `DialUDP`, given the socket that is to be opened: one that WrapConn refuses stays
  -- open.
  abbrev pub wrap_opened : Option Err × S → Wrapped × S
  wrap_opened (some e, s) = (refused e, s)
  wrap_opened (none, s) = wrap_conn s

  unfoldable pub listen_udp : (S → Option Err × S) → S → Wrapped × S
  listen_udp listen s = wrap_opened (listen s)

  unfoldable pub dial_udp : (S → Option Err × S) → S → Wrapped × S
  dial_udp dial s = wrap_opened (dial s)

-- `ECNStats`.
pub record EcnStats : Type 0 where
  pub ect0_count : ℕ
  pub ect1_count : ℕ
  pub ce_count : ℕ
  pub not_ect : ℕ

unfoldable pub new_ecn_stats : EcnStats
new_ecn_stats = record { ect0_count = 0; ect1_count = 0; ce_count = 0; not_ect = 0 }

-- `Record`.
unfoldable pub count : ℕ → EcnStats → EcnStats
count ecn s =
    if ecn % 4 == 0
    then record s { not_ect = u64 (s.not_ect + 1) }
    else if ecn % 4 == 1
    then record s { ect1_count = u64 (s.ect1_count + 1) }
    else if ecn % 4 == 2
    then record s { ect0_count = u64 (s.ect0_count + 1) }
    else if ecn % 4 == 3
    then record s { ce_count = u64 (s.ce_count + 1) }
    else s

-- `Get`: not ECT, ECT(0), ECT(1), CE.
unfoldable pub get : EcnStats → ℕ × ℕ × ℕ × ℕ
get s = (s.not_ect, s.ect0_count, s.ect1_count, s.ce_count)

-- `Reset`.
unfoldable pub reset : EcnStats → (ℕ × ℕ × ℕ × ℕ) × EcnStats
reset s = (
  (s.not_ect, s.ect0_count, s.ect1_count, s.ce_count),
  record { ect0_count = 0; ect1_count = 0; ce_count = 0; not_ect = 0 },
)
