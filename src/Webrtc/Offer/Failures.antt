-- ===== src/Webrtc/Offer/Failures.antt =====
-- How the set-up of webrtc-send can fail, and a rule for each step of it.
use l4s_poc.Base.{ℕ, ◌≡◌, refl, List, ◌⊎◌, Option, none, some}
use l4s_poc.Base.Int.{ℤ}
use l4s_poc.Webrtc.Whip.{Settings}
use l4s_poc.Webrtc.Offer.{
  Offerer, IceServer, codec_failed, controller_failed, twcc_failed, interceptors_failed,
  peer_failed, channel_failed, track_failed, add_track_failed, offer_failed, Failure, Setup,
  proceeds, dies, and_then, die_on, remote_failed, endpoint_refused, local_failed, post_failed,
  body_failed, timed_out,
}

-- A status of the handler for a request that is a POST.
abbrev pub IsRefusal : ℕ → Type 0
IsRefusal status = (status ≡ 400) ⊎ (status ≡ 500)

module _ {S P T : Type 0} (o : Offerer S P T) where
  -- How a set-up with this endpoint can fail, ending in this state: the call that the failure names has
  -- failed and left that state, or the endpoint has refused.
  abbrev pub Failed : Failure → S → Type 0
  Failed codec_failed s = (s0 : S) × (o.register_codec s0 ≡ (none, s))
  Failed controller_failed s = (s0 : S) × (b : ℤ) × (o.new_controller b s0 ≡ (none, s))
  Failed twcc_failed s = (s0 : S) × (o.configure_twcc s0 ≡ (none, s))
  Failed interceptors_failed s = (s0 : S) × (o.register_interceptors s0 ≡ (none, s))
  Failed peer_failed s =
      (s0 : S) × (settings : Settings) × (servers : List IceServer) × (o.new_peer_connection
          settings servers s0
        ≡ (none, s))
  Failed channel_failed s = (s0 : S) × (pc : P) × (o.create_data_channel pc s0 ≡ (none, s))
  Failed track_failed s = (s0 : S) × (o.new_track s0 ≡ (none, s))
  Failed add_track_failed s =
      (s0 : S) × (pc : P) × (track : T) × (o.add_track pc track s0 ≡ (none, s))
  Failed offer_failed s = (s0 : S) × (pc : P) × (o.create_offer pc s0 ≡ (none, s))
  Failed local_failed s =
      (s0 : S) × (pc : P) × (offer : List ℕ) × (o.set_local_description pc offer s0 ≡ (none, s))
  Failed remote_failed s =
      (s0 : S) × (pc : P) × (answer : List ℕ) × (o.set_remote_description pc answer s0 ≡ (none, s))
  Failed post_failed s = ⊥
  Failed body_failed s = ⊥
  Failed timed_out s = ⊥
  Failed (endpoint_refused status) s = IsRefusal status

  -- What a part of the set-up gives.
  abbrev pub Ends : {A : Type 0} → (A → S → Type 0) → Setup A × S → Type 0
  Ends q (proceeds a, s) = q a s
  Ends q (dies why, s) = Failed why s

  pub Ends-then :
      {A B : Type 0} (q : A → S → Type 0) (q' : B → S → Type 0) (f : A → S → Setup B × S)
      (r : Setup A × S)
      → Ends q r
      → ((a : A) (s : S) → q a s → Ends q' (f a s))
      → Ends q' (and_then f r)
  Ends-then q q' f (proceeds a, s) e go = go a s e
  Ends-then q q' f (dies why, s) e go = e

  pub or_die-Ends :
      {A B : Type 0} (q : B → S → Type 0) (why : Failure) (r : Option A × S)
      (f : A → S → Setup B × S)
      → ((s : S) → r ≡ (none, s) → Failed why s)
      → ((a : A) (s : S) → r ≡ (some a, s) → Ends q (f a s))
      → Ends q (and_then f (die_on why r))
  or_die-Ends q why (none, s) f fails go = fails s refl
  or_die-Ends q why (some a, s) f fails go = go a s refl
