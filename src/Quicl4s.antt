-- ===== src/Quicl4s.antt =====
-- pkg/quicl4s/quicl4s.go. What it calls of quic-go and of the crypto packages is the record `Api`, over
-- a state `S`: errors `E`, listeners `L`, connections `Q`, streams `T`, addresses `A`, and the parts of a
-- certificate. A `context.Context` is a `ℕ`. Of `tls.Config` and `quic.Config` there are the fields that
-- the package sets.
pub mod Marking
mod Tests
use l4s_poc.Base.{ℕ, ◌*◌, List, [], ◌∷◌, Bool, true, false, Option, none, some}

abbrev pub ecn_non_ect : ℕ
ecn_non_ect = 0x00

abbrev pub ecn_ect0 : ℕ
ecn_ect0 = 0x02

abbrev pub ecn_ect1 : ℕ
ecn_ect1 = 0x01

abbrev pub ecn_ce : ℕ
ecn_ce = 0x03

pub record TlsConfig (C : Type 0) : Type 0 where
  pub certificates : List C
  pub insecure_skip_verify : Bool
  pub next_protos : List (List ℕ)

-- The timeout is in nanoseconds.
pub record QuicConfig : Type 0 where
  pub max_idle_timeout : ℕ
  pub enable_datagrams : Bool

pub record Config (C : Type 0) : Type 0 where
  pub address : List ℕ
  pub tls_config : Option (TlsConfig C)
  pub enable_l4s : Bool
  pub quic_config : Option QuicConfig

pub data Result (E A : Type 0) : Type 0 where
  ok : A → Result E A
  err : E → Result E A

-- An error as it is, or behind the words of `fmt.Errorf`.
pub data Error (E : Type 0) : Type 0 where
  plain : E → Error E
  failed_to_generate failed_to_listen failed_to_dial : E → Error E

pub record Api (S E L Q T A Key Der C : Type 0) : Type 0 where
  pub generate_key : ℕ → S → Result E Key × S
  -- From now on, for so many nanoseconds, signed by the key itself.
  pub create_certificate : ℕ → ℕ → Key → S → Result E Der × S
  pub key_pair : Der → Key → Result E C
  pub listen_addr : List ℕ → TlsConfig C → QuicConfig → S → Result E L × S
  pub accept : L → ℕ → S → Result E Q × S
  pub close_listener : L → S → Option E × S
  pub dial_addr : ℕ → List ℕ → TlsConfig C → QuicConfig → S → Result E Q × S
  pub open_stream : Q → S → Result E T × S
  pub accept_stream : Q → ℕ → S → Result E T × S
  pub send_datagram : Q → List ℕ → S → Option E × S
  pub receive_datagram : Q → ℕ → S → Result E (List ℕ) × S
  pub close_with_error : Q → ℕ → List ℕ → S → Option E × S
  pub local_addr : Q → A
  pub remote_addr : Q → A
  pub read : T → ℕ → S → Result E (List ℕ) × S
  pub write : T → List ℕ → S → Result E ℕ × S
  pub close_stream : T → S → Option E × S
  pub stream_id : T → ℕ
  -- `io.ReadAll`.
  pub read_all : T → S → Result E (List ℕ) × S

pub record Server (L C : Type 0) : Type 0 where
  pub listener : L
  pub config : Config C

-- The field `conn` of the source is never set.
pub record Client (C : Type 0) : Type 0 where
  pub config : Config C

pub record Connection (Q : Type 0) : Type 0 where
  pub conn : Q
  pub enable_l4s : Bool

pub record Stream (T : Type 0) : Type 0 where
  pub stream : T

-- "l4s-benchmark".
abbrev pub protocol : List ℕ
protocol = 108 ∷ 52 ∷ 115 ∷ 45 ∷ 98 ∷ 101 ∷ 110 ∷ 99 ∷ 104 ∷ 109 ∷ 97 ∷ 114 ∷ 107 ∷ []

-- "closed".
abbrev pub closed : List ℕ
closed = 99 ∷ 108 ∷ 111 ∷ 115 ∷ 101 ∷ 100 ∷ []

abbrev pub default_quic_config : QuicConfig
default_quic_config = record { max_idle_timeout = 30 * 1_000_000_000; enable_datagrams = true }

abbrev pub quic_config_or_default : Option QuicConfig → QuicConfig
quic_config_or_default none = default_quic_config
quic_config_or_default (some q) = q

abbrev pub insecure_tls_config : {C : Type 0} → TlsConfig C
insecure_tls_config = record {
  certificates = [];
  insecure_skip_verify = true;
  next_protos = protocol ∷ [];
}

abbrev pub client_tls_config : {C : Type 0} → Option (TlsConfig C) → TlsConfig C
client_tls_config none = insecure_tls_config
client_tls_config (some t) = t

-- `if err != nil { return nil, … }`.
abbrev pub and_then :
    {S E A B : Type 0}
    → (E → Error E)
    → (A → S → Result (Error E) B × S)
    → Result E A × S
    → Result (Error E) B × S
and_then why f (ok a, s) = f a s
and_then why f (err e, s) = (err (why e), s)

-- `if err != nil { return nil, err }`.
abbrev pub or_return :
    {S E A B : Type 0} → (A → S → Result E B × S) → Result E A × S → Result E B × S
or_return f (ok a, s) = f a s
or_return f (err e, s) = (err e, s)

-- The server's configuration for this certificate.
abbrev pub with_certificate : {C : Type 0} → C → TlsConfig C
with_certificate cert = record {
  certificates = cert ∷ [];
  insecure_skip_verify = false;
  next_protos = protocol ∷ [];
}

unfoldable pub new_client : {C : Type 0} → Config C → Client C
new_client config = record { config = config }

module _ {S E L Q T A Key Der C : Type 0} (api : Api S E L Q T A Key Der C) where
  -- One day, with an RSA key of 2048 bits and the serial number 1.
  unfoldable pub generate_tls_config : S → Result E (TlsConfig C) × S
  generate_tls_config s =
      or_return
        (λ key s1.
          or_return
            (λ der s2.
              or_return (λ cert s3. (ok (with_certificate cert), s3)) (api.key_pair der key, s2))
            (api.create_certificate 1 (24 * 3600 * 1_000_000_000) key s1))
        (api.generate_key 2048 s)

  unfoldable pub server_tls_config : Option (TlsConfig C) → S → Result E (TlsConfig C) × S
  unfolding generate_tls_config
  server_tls_config none s = generate_tls_config s
  server_tls_config (some t) s = (ok t, s)

  unfoldable pub new_server : Config C → S → Result (Error E) (Server L C) × S
  unfolding server_tls_config
  new_server config s =
      and_then failed_to_generate
        (λ tls s1.
          and_then failed_to_listen
            (λ listener s2. (ok (record { listener = listener; config = config }), s2))
            (api.listen_addr config.address tls (quic_config_or_default config.quic_config) s1))
        (server_tls_config config.tls_config s)

  -- `Accept` of a server.
  unfoldable pub accept_connection : Server L C → ℕ → S → Result E (Connection Q) × S
  accept_connection server ctx s =
      or_return
        (λ conn s1. (ok (record { conn = conn; enable_l4s = server.config.enable_l4s }), s1))
        (api.accept server.listener ctx s)

  unfoldable pub close_server : Server L C → S → Option E × S
  close_server server s = api.close_listener server.listener s

  unfoldable pub connect : Client C → ℕ → S → Result (Error E) (Connection Q) × S
  connect client ctx s =
      and_then failed_to_dial
        (λ conn s1. (ok (record { conn = conn; enable_l4s = client.config.enable_l4s }), s1))
        (api.dial_addr ctx client.config.address (client_tls_config client.config.tls_config)
          (quic_config_or_default client.config.quic_config) s)

  unfoldable pub open_stream : Connection Q → S → Result E (Stream T) × S
  open_stream c s = or_return (λ t s1. (ok (record { stream = t }), s1)) (api.open_stream c.conn s)

  unfoldable pub accept_stream : Connection Q → ℕ → S → Result E (Stream T) × S
  accept_stream c ctx s =
      or_return (λ t s1. (ok (record { stream = t }), s1)) (api.accept_stream c.conn ctx s)

  unfoldable pub send_datagram : Connection Q → List ℕ → S → Option E × S
  send_datagram c bytes s = api.send_datagram c.conn bytes s

  unfoldable pub receive_datagram : Connection Q → ℕ → S → Result E (List ℕ) × S
  receive_datagram c ctx s = api.receive_datagram c.conn ctx s

  -- `Close` of a connection.
  unfoldable pub close_connection : Connection Q → S → Option E × S
  close_connection c s = api.close_with_error c.conn 0 closed s

  unfoldable pub local_addr : Connection Q → A
  local_addr c = api.local_addr c.conn

  unfoldable pub remote_addr : Connection Q → A
  remote_addr c = api.remote_addr c.conn

  unfoldable pub read_stream : Stream T → ℕ → S → Result E (List ℕ) × S
  read_stream t size s = api.read t.stream size s

  unfoldable pub write_stream : Stream T → List ℕ → S → Result E ℕ × S
  write_stream t bytes s = api.write t.stream bytes s

  unfoldable pub close_stream : Stream T → S → Option E × S
  close_stream t s = api.close_stream t.stream s

  unfoldable pub stream_id : Stream T → ℕ
  stream_id t = api.stream_id t.stream

  unfoldable pub read_all : Stream T → S → Result E (List ℕ) × S
  read_all t s = api.read_all t.stream s
