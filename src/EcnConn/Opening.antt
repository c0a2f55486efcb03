-- ===== src/EcnConn/Opening.antt =====
-- What is left open when a connection cannot be made.
use l4s_poc.Base.{
  ℕ, ◌≡◌, ◌∙◌, inl, inr, Option-cases, Bool, true, false, Option, none, if◌then◌else◌,
}
use l4s_poc.EcnConn.{
  Sockets, Conn, set_tos, wrap_marked, enable_receiving, wrap_conn, listen_udp, ipproto_ip,
  ip_recvtos, ipproto_ipv6, ipv6_recvtclass,
}

-- A count of the open sockets that the calls on an open one leave as it is.
pub record Counting {S Err Addr : Type 0} (net : Sockets S Err Addr) : Type 0 where
  pub count : S → ℕ
  pub count_syscall : (s : S) → count (net.syscall_conn s).1 ≡ count s
  pub count_control : (s : S) → count (net.control s).1 ≡ count s
  pub count_option : (l n v : ℕ) (s : S) → count (net.set_option l n v s).1 ≡ count s
  pub count_set4 : (t : ℕ) (s : S) → count (net.set_tos4 t s).1 ≡ count s
  pub count_set6 : (t : ℕ) (s : S) → count (net.set_traffic_class t s).1 ≡ count s

module _ {S Err Addr : Type 0} (net : Sockets S Err Addr) (k : Counting net) where
  count-set_tos : (t : ℕ) (c : Conn) (s : S) → k.count (set_tos net t c s).1 ≡ k.count s
  unfolding set_tos
  count-set_tos t c s = go c.is_ipv6
    where
      go :
          (six : Bool)
          → k.count (if six then net.set_traffic_class t s else net.set_tos4 t s).1 ≡ k.count s
      go true = k.count_set6 t s
      go false = k.count_set4 t s

  count-enable_receiving : (s : S) → k.count (enable_receiving net s).1 ≡ k.count s
  unfolding enable_receiving
  count-enable_receiving s = elim (Option-cases (net.set_option ipproto_ip ip_recvtos 1 s).0) [
    | inr (e, fails) ↦ rw (fails, enable_receiving) (k.count_option ipproto_ip ip_recvtos 1 s)
    | inl works ↦
        rw (works, enable_receiving)
          (k.count_option ipproto_ipv6 ipv6_recvtclass 1
              (net.set_option ipproto_ip ip_recvtos 1 s).1
            ∙ k.count_option ipproto_ip ip_recvtos 1 s)
  ]

  count-wrap_marked : (s : S) → k.count (wrap_marked net s).1 ≡ k.count s
  unfolding wrap_marked
  count-wrap_marked s =
      count-set_tos 1 (record { is_ipv6 = if net.is_ip4 s then false else true; default_ecn = 1 }) s

  count-wrap_conn : (s : S) → k.count (wrap_conn net s).1 ≡ k.count s
  unfolding wrap_conn
  count-wrap_conn s =
      let s1 = (net.syscall_conn s).1 in
      let s2 = (net.control s1).1 in
      let to1 = k.count_syscall s in
      let to2 = k.count_control s1 ∙ to1 in
      let to3 = count-enable_receiving s2 ∙ to2 in
      elim (Option-cases (net.syscall_conn s).0) [
        | inr (e, no_raw) ↦ rw (no_raw, wrap_conn) to1
        | inl raw ↦ elim (Option-cases (net.control s1).0) [
          | inr (e, no_control) ↦ rw (raw, no_control, wrap_conn) to2
          | inl control ↦ elim (Option-cases (enable_receiving net s2).0) [
            | inr (e, no_option) ↦ rw (raw, control, no_option, wrap_conn) to3
            | inl option ↦
                rw (raw, control, option, wrap_conn)
                  (count-wrap_marked (enable_receiving net s2).1 ∙ to3)
          ]
        ]
      ]

  -- ListenUDP and DialUDP leave open whatever socket they have opened: where opening it gave no error,
  -- the count is the same after it and at the end, also where the socket is then refused and not
  -- returned.
  listen_udp-leaves :
      (listen : S → Option Err × S) (s : S)
      → (listen s).0 ≡ none
      → k.count (listen_udp net listen s).1 ≡ k.count (listen s).1
  unfolding listen_udp
  listen_udp-leaves listen s opened = rw opened (count-wrap_conn (listen s).1)
