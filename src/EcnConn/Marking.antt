-- ===== src/EcnConn/Marking.antt =====
-- With which mark a datagram leaves, given what a socket does with its TOS option.
use l4s_poc.Base.{
  ℕ, ◌%◌, ◌≡◌, refl, ap₂, ◌∙◌, List, [], ◌∷◌, ◌++◌, Bool, true, false, Bool-cases, inl, inr, Option,
  none, some, if◌then◌else◌,
}
use l4s_poc.EcnConn.{Sockets, Conn, set_tos, send, write_msg_udp}

-- What the documentation of Linux's sockets says of the two options: IP_TOS, which SetTOS of ipv4 sets,
-- marks the datagrams to IPv4 addresses, those mapped into IPv6 among them, and IPV6_TCLASS, which
-- SetTrafficClass sets, those to other IPv6 addresses; neither changes the other. Nothing is sent while
-- an option is set; a write leaves both, and one that reports no error has sent the datagram.
pub record Kernel {S Err Addr : Type 0} (net : Sockets S Err Addr) : Type 0 where
  -- Whether an address is an IPv4 one, or one mapped into IPv6.
  pub is_ip4_addr : Addr → Bool
  pub mark4 : S → ℕ
  pub mark6 : S → ℕ
  pub sent : S → List (ℕ × List ℕ)
  pub mark4_set4 : (t : ℕ) (s : S) → (net.set_tos4 t s).0 ≡ none → mark4 (net.set_tos4 t s).1 ≡ t
  pub mark6_set4 : (t : ℕ) (s : S) → mark6 (net.set_tos4 t s).1 ≡ mark6 s
  pub mark6_set6 :
      (t : ℕ) (s : S)
      → (net.set_traffic_class t s).0 ≡ none
      → mark6 (net.set_traffic_class t s).1 ≡ t
  pub mark4_set6 : (t : ℕ) (s : S) → mark4 (net.set_traffic_class t s).1 ≡ mark4 s
  pub sent_set4 : (t : ℕ) (s : S) → sent (net.set_tos4 t s).1 ≡ sent s
  pub sent_set6 : (t : ℕ) (s : S) → sent (net.set_traffic_class t s).1 ≡ sent s
  pub mark4_write : (b : List ℕ) (a : Addr) (s : S) → mark4 (net.write b a s).1 ≡ mark4 s
  pub mark6_write : (b : List ℕ) (a : Addr) (s : S) → mark6 (net.write b a s).1 ≡ mark6 s
  pub sent_write :
      (b : List ℕ) (a : Addr) (s : S)
      → (net.write b a s).0.1 ≡ none
      → sent (net.write b a s).1 ≡ sent s ++ ((if is_ip4_addr a then mark4 s else mark6 s, b) ∷ [])

module _ {S Err Addr : Type 0} (net : Sockets S Err Addr) (k : Kernel net) where
  -- The mark with which the socket sends to an address.
  abbrev pub mark_to : Addr → S → ℕ
  mark_to a s = if k.is_ip4_addr a then k.mark4 s else k.mark6 s

  -- The mark with which it sends there when the connection has set `t`: an IPv6 connection sets
  -- nothing for IPv4 addresses.
  abbrev pub mark_by : Conn → Addr → ℕ → S → ℕ
  mark_by c a t s =
      if c.is_ipv6
      then (if k.is_ip4_addr a then k.mark4 s else t)
      else (if k.is_ip4_addr a then t else k.mark6 s)

  pub mark_to-set_tos :
      (t : ℕ) (c : Conn) (a : Addr) (s : S)
      → (set_tos net t c s).0 ≡ none
      → mark_to a (set_tos net t c s).1 ≡ mark_by c a t s
  unfolding set_tos
  mark_to-set_tos t c a s = go c.is_ipv6 (k.is_ip4_addr a)
    where
      go :
          (six four : Bool)
          → (if six then net.set_traffic_class t s else net.set_tos4 t s).0 ≡ none
          → (if four
              then k.mark4 (if six then net.set_traffic_class t s else net.set_tos4 t s).1
              else k.mark6 (if six then net.set_traffic_class t s else net.set_tos4 t s).1)
            ≡ (if six then (if four then k.mark4 s else t) else (if four then t else k.mark6 s))
      go true true h = k.mark4_set6 t s
      go true false h = k.mark6_set6 t s h
      go false true h = k.mark4_set4 t s h
      go false false h = k.mark6_set4 t s

  -- What the connection has set before makes no difference to that.
  pub mark_by-set_tos :
      (u t : ℕ) (c : Conn) (a : Addr) (s : S)
      → mark_by c a t (set_tos net u c s).1 ≡ mark_by c a t s
  unfolding set_tos
  mark_by-set_tos u t c a s = go c.is_ipv6 (k.is_ip4_addr a)
    where
      go :
          (six four : Bool)
          → (if six
              then (if four
                  then k.mark4 (if six then net.set_traffic_class u s else net.set_tos4 u s).1
                  else t)
              else (if four
                  then t
                  else k.mark6 (if six then net.set_traffic_class u s else net.set_tos4 u s).1))
            ≡ (if six then (if four then k.mark4 s else t) else (if four then t else k.mark6 s))
      go true true = k.mark4_set6 u s
      go true false = refl
      go false true = refl
      go false false = k.mark6_set4 u s

  pub mark_to-write :
      (b : List ℕ) (to a : Addr) (s : S) → mark_to a (net.write b to s).1 ≡ mark_to a s
  mark_to-write b to a s = elim (Bool-cases (k.is_ip4_addr a)) [
    | inl four ↦ rw four (k.mark4_write b to s)
    | inr six ↦ rw six (k.mark6_write b to s)
  ]

  pub sent-set_tos : (t : ℕ) (c : Conn) (s : S) → k.sent (set_tos net t c s).1 ≡ k.sent s
  unfolding set_tos
  sent-set_tos t c s = go c.is_ipv6
    where
      go :
          (six : Bool)
          → k.sent (if six then net.set_traffic_class t s else net.set_tos4 t s).1 ≡ k.sent s
      go true = k.sent_set6 t s
      go false = k.sent_set4 t s

  -- WriteMsgUDP, alone on its socket: where it reports no error, the datagram has left, and nothing
  -- else has: with the lower two bits of `ecn`, unless the connection is an IPv6 one and the address
  -- an IPv4 one, when it has the mark that the socket had for such addresses.
  pub write_msg_udp-sent :
      (b : List ℕ) (ecn : ℕ) (addr : Addr) (c : Conn) (s : S)
      → (write_msg_udp net b ecn addr c s).0.1 ≡ none
      → k.sent (write_msg_udp net b ecn addr c s).1
        ≡ k.sent s ++ ((mark_by c addr (ecn % 4) s, b) ∷ [])
  unfolding write_msg_udp send
  write_msg_udp-sent b ecn addr c s =
      go (set_tos net (ecn % 4) c s) (mark_to-set_tos (ecn % 4) c addr s)
        (sent-set_tos (ecn % 4) c s)
    where
      go :
          (r : Option Err × S)
          → (r.0 ≡ none → mark_to addr r.1 ≡ mark_by c addr (ecn % 4) s)
          → k.sent r.1 ≡ k.sent s
          → (send net b addr r).0.1 ≡ none
          → k.sent (send net b addr r).1 ≡ k.sent s ++ ((mark_by c addr (ecn % 4) s, b) ∷ [])
      go (some x, s') marked same h = cc
      go (none, s') marked same h =
          k.sent_write b addr s' h ∙ ap₂ (λ l t. l ++ ((t, b) ∷ [])) same (marked refl)

  -- Where WriteMsgUDP cannot set the option, it returns the error of that call with a count of 0, and
  -- nothing has left.
  pub write_msg_udp-refused :
      (b : List ℕ) (ecn : ℕ) (addr : Addr) (c : Conn) (s : S) (e : Err)
      → (set_tos net (ecn % 4) c s).0 ≡ some e
      → ((write_msg_udp net b ecn addr c s).0 ≡ (0, some e))
        × (k.sent (write_msg_udp net b ecn addr c s).1 ≡ k.sent s)
  unfolding write_msg_udp send
  write_msg_udp-refused b ecn addr c s e =
      go (set_tos net (ecn % 4) c s) (sent-set_tos (ecn % 4) c s)
    where
      go :
          (r : Option Err × S)
          → k.sent r.1 ≡ k.sent s
          → r.0 ≡ some e
          → ((send net b addr r).0 ≡ (0, some e)) × (k.sent (send net b addr r).1 ≡ k.sent s)
      go (some x, s') same h = (cc, same)
      go (none, s') same h = cc
