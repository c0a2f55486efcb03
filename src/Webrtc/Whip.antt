-- ===== src/Webrtc/Whip.antt =====
-- The WHIP endpoint of cmd/webrtc-recv/main.go: lines 38 to 92, the public address, and lines 94 to 182
-- and 356 to 393, the handler of a request. What it calls of pion/webrtc is the record `Pion` over a
-- state `S`, with connections `P` and data channels `D`; a call gives `none` where it fails.
pub mod Leaks
use l4s_poc.Base.{
  ℕ, ◌*◌, List, [], ◌∷◌, ◌++◌, Bool, true, false, ◌||◌, ◌&&◌, Option, none, some, ◌==◌, leb, equal,
  if◌then◌else◌,
}

-- What asking the metadata server gives: a failure before there is a response, or the response with
-- its status and its body, `none` where reading it fails.
pub data Metadata : Type 0 where
  no_response : Metadata
  response : ℕ → Option (List ℕ) → Metadata

-- White space of `strings.TrimSpace`, in ASCII.
abbrev pub is_space : ℕ → Bool
is_space c = c == 32 || (leb 9 c && leb c 13)

pub trim_left : List ℕ → List ℕ
trim_left [] = []
trim_left (c ∷ cs) = let rest = trim_left cs in if is_space c then rest else c ∷ cs

abbrev pub keep_unless_blank : ℕ → List ℕ → List ℕ
keep_unless_blank c [] = if is_space c then [] else c ∷ []
keep_unless_blank c (d ∷ ds) = c ∷ d ∷ ds

-- Drops the white space behind the last other byte.
pub trim_right : List ℕ → List ℕ
trim_right [] = []
trim_right (c ∷ cs) = keep_unless_blank c (trim_right cs)

-- `getGCPExternalIP`.
unfoldable pub external_ip : Metadata → List ℕ
unfolding trim_left trim_right
external_ip no_response = []
external_ip (response status none) = []
external_ip (response status (some body)) =
    if status == 200 then trim_right (trim_left body) else []

-- The address of the flag, or else that of the metadata server, or none.
unfoldable pub public_ip : List ℕ → Metadata → List ℕ
unfolding external_ip
public_ip [] m = external_ip m
public_ip (c ∷ flag) m = c ∷ flag

-- What the setting engine is told: an address to map to, and the range of the ports.
pub record Settings : Type 0 where
  pub nat_ips : List (List ℕ)
  pub port_range : Option (ℕ × ℕ)

abbrev pub settings_of : List ℕ → Settings
settings_of [] = record { nat_ips = []; port_range = none }
settings_of (c ∷ ip) = record { nat_ips = (c ∷ ip) ∷ []; port_range = some (10_000, 60_000) }

pub record Pion (S P D : Type 0) : Type 0 where
  pub register_codec : S → Option (Unit {0}) × S
  pub new_pli_interceptor : S → Option (Unit {0}) × S
  pub new_peer_connection : Settings → S → Option P × S
  pub create_data_channel : P → S → Option D × S
  -- The handlers of the data channel and the track.
  pub register_handlers : P → D → S → S
  pub set_remote_description : P → List ℕ → S → Option (Unit {0}) × S
  pub create_answer : P → S → Option (List ℕ) × S
  pub set_local_description : P → List ℕ → S → Option (Unit {0}) × S
  -- Until the gathering of candidates is complete.
  pub gather : P → S → S
  pub local_description : P → S → List ℕ
  -- `pc.Close()`, which the handler does not call.
  pub close : P → S → S

pub record Request : Type 0 where
  pub is_post : Bool
  -- `none` where reading the body fails.
  pub body : Option (List ℕ)

-- An error with its status, or status 201 with the `Location` and the answer.
pub data Response : Type 0 where
  http_error : ℕ → Response
  created : List ℕ → List ℕ → Response

pub data Attempt (A : Type 0) : Type 0 where
  goes_on : A → Attempt A
  answers : Response → Attempt A

abbrev pub and_then : {S A B : Type 0} → (A → S → Attempt B × S) → Attempt A × S → Attempt B × S
and_then f (goes_on a, s) = f a s
and_then f (answers r, s) = (answers r, s)

infixl 5 ◌>>=◌ ◌>>◌
abbrev pub ◌>>=◌ :
    {S A B : Type 0} → (S → Attempt A × S) → (A → S → Attempt B × S) → S → Attempt B × S
◌>>=◌ m f s = and_then f (m s)

abbrev pub ◌>>◌ :
    {S B : Type 0} → (S → Attempt (Unit {0}) × S) → (S → Attempt B × S) → S → Attempt B × S
◌>>◌ m k s = and_then (λ _. k) (m s)

-- `if err != nil { http.Error(w, …, status); return }`.
abbrev pub error_on : {S A : Type 0} → ℕ → Option A × S → Attempt A × S
error_on status (none, s) = (answers (http_error status), s)
error_on status (some a, s) = (goes_on a, s)

abbrev pub or_error : {S A : Type 0} → ℕ → (S → Option A × S) → S → Attempt A × S
or_error status m s = error_on status (m s)

abbrev pub guard : {S : Type 0} → ℕ → Bool → S → Attempt (Unit {0}) × S
guard status true s = (goes_on tt, s)
guard status false s = (answers (http_error status), s)

abbrev pub response_of : {S : Type 0} → Attempt Response × S → Response × S
response_of (goes_on r, s) = (r, s)
response_of (answers r, s) = (r, s)

module _ {S P D : Type 0} (pion : Pion S P D) where
  -- From the remote description on.
  unfoldable pub negotiate : List ℕ → P → List ℕ → S → Attempt Response × S
  negotiate path pc offer = do
    or_error 400 (pion.set_remote_description pc offer)
    answer ← or_error 500 (pion.create_answer pc)
    or_error 500 (pion.set_local_description pc answer)
    (λ s. (goes_on tt, pion.gather pc s))
    (λ s. (goes_on (created path (pion.local_description pc s)), s))

  -- A request.
  unfoldable pub handle : List ℕ → List ℕ → Request → S → Attempt Response × S
  unfolding negotiate
  handle path ip r = do
    guard 405 r.is_post
    offer ← or_error 400 (λ s. (r.body, s))
    or_error 500 pion.register_codec
    or_error 500 pion.new_pli_interceptor
    pc ← or_error 500 (pion.new_peer_connection (settings_of ip))
    dc ← or_error 500 (pion.create_data_channel pc)
    (λ s. (goes_on tt, pion.register_handlers pc dc s))
    negotiate path pc offer

  -- The requests, one after another.
  unfoldable pub serve : List ℕ → List ℕ → List Request → S → List Response × S
  unfolding handle
  serve path ip [] s = ([], s)
  serve path ip (r ∷ rs) s =
      let (answer, s1) = response_of (handle path ip r s) in
      let (rest, s2) = serve path ip rs s1 in (answer ∷ rest, s2)
