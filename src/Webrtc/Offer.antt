-- ===== src/Webrtc/Offer.antt =====
-- How cmd/webrtc-send/main.go sets its connection up: lines 82 to 185, 260 to 278, 334 to
-- 386 and 392 to 401. What it calls of pion/webrtc is the record `Offerer` over a state `S`, with
-- connections `P` and tracks `T`; a call gives `none` where it fails. The post to the WHIP endpoint is a
-- parameter. `log.Fatalf` ends the process where it stands, without the deferred calls.
pub mod Join
pub mod Failures
pub mod Handshake
pub mod Tests
use l4s_poc.Base.{
  ℕ, List, [], ◌∷◌, Bool, true, false, ◌||◌, Option, none, some, ◌==◌, if◌then◌else◌,
}
use l4s_poc.Base.Int.{ℤ}
use l4s_poc.Webrtc.States.{Branch, goes_on, returns, times_out}
use l4s_poc.Webrtc.Whip.{Settings, settings_of}

pub record IceServer : Type 0 where
  pub urls : List (List ℕ)
  -- The name and the password.
  pub credential : Option (List ℕ × List ℕ)

pub record Flags : Type 0 where
  pub whip_url : List ℕ
  pub initial_bitrate : ℤ
  pub nat_ip : List ℕ
  pub turn_server : List ℕ
  pub turn_user : List ℕ
  pub turn_pass : List ℕ

-- "stun:stun.l.google.com:19302".
abbrev pub stun_server : IceServer
stun_server = record {
  urls =
      (115 ∷ 116 ∷ 117 ∷ 110 ∷ 58 ∷ 115 ∷ 116 ∷ 117 ∷ 110 ∷ 46 ∷ 108 ∷ 46 ∷ 103 ∷ 111 ∷ 111 ∷ 103
        ∷ 108 ∷ 101 ∷ 46 ∷ 99 ∷ 111 ∷ 109 ∷ 58 ∷ 49 ∷ 57 ∷ 51 ∷ 48 ∷ 50 ∷ [])
      ∷ [];
  credential = none;
}

abbrev pub credential_of : List ℕ → List ℕ → Option (List ℕ × List ℕ)
credential_of [] pass = none
credential_of (c ∷ user) pass = some (c ∷ user, pass)

abbrev pub turn_servers : List ℕ → List ℕ → List ℕ → List IceServer
turn_servers [] user pass = []
turn_servers (c ∷ turn) user pass =
    record { urls = (c ∷ turn) ∷ []; credential = credential_of user pass } ∷ []

abbrev pub ice_servers : Flags → List IceServer
ice_servers f = stun_server ∷ turn_servers f.turn_server f.turn_user f.turn_pass

pub record Offerer (S P T : Type 0) : Type 0 where
  pub register_codec : S → Option (Unit {0}) × S
  pub new_controller : ℤ → S → Option (Unit {0}) × S
  pub configure_twcc : S → Option (Unit {0}) × S
  pub register_interceptors : S → Option (Unit {0}) × S
  pub new_peer_connection : Settings → List IceServer → S → Option P × S
  pub create_data_channel : P → S → Option (Unit {0}) × S
  -- The handler of the side channel.
  pub on_data_channel : P → S → S
  pub new_track : S → Option T × S
  pub add_track : P → T → S → Option (Unit {0}) × S
  -- The handlers of the states and of candidates.
  pub on_states : P → S → S
  pub create_offer : P → S → Option (List ℕ) × S
  pub set_local_description : P → List ℕ → S → Option (Unit {0}) × S
  -- Until the gathering of candidates is complete.
  pub gather : P → S → S
  pub local_description : P → S → List ℕ
  pub set_remote_description : P → List ℕ → S → Option (Unit {0}) × S
  -- The second handler of the states.
  pub on_connected : P → S → S
  pub close : P → S → S

-- What a post gives: a failure, or a status and a body, `none` where reading it fails.
pub data Posted : Type 0 where
  no_response : Posted
  responded : ℕ → Option (List ℕ) → Posted

-- What the process ends with.
pub data Failure : Type 0 where
  codec_failed controller_failed twcc_failed interceptors_failed peer_failed channel_failed :
      Failure
  track_failed add_track_failed offer_failed local_failed remote_failed : Failure
  post_failed body_failed timed_out : Failure
  endpoint_refused : ℕ → Failure

pub data Setup (A : Type 0) : Type 0 where
  proceeds : A → Setup A
  dies : Failure → Setup A

abbrev pub and_then : {S A B : Type 0} → (A → S → Setup B × S) → Setup A × S → Setup B × S
and_then f (proceeds a, s) = f a s
and_then f (dies why, s) = (dies why, s)

infixl 5 ◌>>=◌ ◌>>◌
abbrev pub ◌>>=◌ : {S A B : Type 0} → (S → Setup A × S) → (A → S → Setup B × S) → S → Setup B × S
◌>>=◌ m f s = and_then f (m s)

abbrev pub ◌>>◌ : {S B : Type 0} → (S → Setup (Unit {0}) × S) → (S → Setup B × S) → S → Setup B × S
◌>>◌ m k s = and_then (λ _. k) (m s)

-- `if err != nil { log.Fatalf(…) }`.
abbrev pub die_on : {S A : Type 0} → Failure → Option A × S → Setup A × S
die_on why (none, s) = (dies why, s)
die_on why (some a, s) = (proceeds a, s)

abbrev pub or_die : {S A : Type 0} → Failure → (S → Option A × S) → S → Setup A × S
or_die why m s = die_on why (m s)

abbrev pub read_answer : {S : Type 0} → Bool → Posted → S → Setup (List ℕ) × S
read_answer ok no_response s = (dies post_failed, s)
read_answer false (responded status body) s = (dies (endpoint_refused status), s)
read_answer true (responded status none) s = (dies body_failed, s)
read_answer true (responded status (some answer)) s = (proceeds answer, s)

abbrev pub is_success : Posted → Bool
is_success no_response = false
is_success (responded status body) = status == 201 || status == 200

-- The checks of the response.
abbrev pub answer_of : {S : Type 0} → Posted × S → Setup (List ℕ) × S
answer_of (p, s) = read_answer (is_success p) p s

-- How the part behind the wait goes on: with a connection to send over, or with the end of `main`.
pub data Ending (P T : Type 0) : Type 0 where
  sends : P → T → Ending P T
  leaves : Ending P T

module _ {S P T : Type 0} (o : Offerer S P T) (post : List ℕ → List ℕ → S → Posted × S) where
  -- From the new connection up to the gathering of candidates.
  unfoldable pub make_offer : P → S → Setup (P × T) × S
  make_offer pc = do
    or_die channel_failed (o.create_data_channel pc)
    (λ s. (proceeds tt, o.on_data_channel pc s))
    track ← or_die track_failed o.new_track
    or_die add_track_failed (o.add_track pc track)
    (λ s. (proceeds tt, o.on_states pc s))
    offer ← or_die offer_failed (o.create_offer pc)
    or_die local_failed (o.set_local_description pc offer)
    (λ s. (proceeds (pc, track), o.gather pc s))

  unfoldable pub prepare : Flags → S → Setup (P × T) × S
  unfolding make_offer
  prepare flags = do
    or_die codec_failed o.register_codec
    or_die controller_failed (o.new_controller flags.initial_bitrate)
    or_die twcc_failed o.configure_twcc
    or_die interceptors_failed o.register_interceptors
    pc ← or_die peer_failed (o.new_peer_connection (settings_of flags.nat_ip) (ice_servers flags))
    make_offer pc

  -- The offer is posted, and the answer taken.
  unfoldable pub exchange : List ℕ → P × T → S → Setup (P × T) × S
  exchange url (pc, track) = do
    answer ← (λ s. answer_of (post url (o.local_description pc s) s))
    or_die remote_failed (o.set_remote_description pc answer)
    (λ s. (proceeds (pc, track), o.on_connected pc s))

  unfoldable pub establish : Flags → S → Setup (P × T) × S
  unfolding prepare exchange
  establish flags = prepare flags >>= exchange flags.whip_url

  -- The branches of the `select`; a return closes the connection.
  abbrev pub after_wait : Branch → P × T → S → Setup (Ending P T) × S
  after_wait Branch.goes_on (pc, track) s = (proceeds (sends pc track), s)
  after_wait Branch.returns (pc, track) s = (proceeds leaves, o.close pc s)
  after_wait Branch.times_out (pc, track) s = (dies timed_out, s)

  -- `main` up to its sending loop.
  unfoldable pub set_up : Flags → Branch → S → Setup (Ending P T) × S
  unfolding establish
  set_up flags branch = establish flags >>= after_wait branch
