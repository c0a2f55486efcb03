-- ===== src/Webrtc/Offer/Join.antt =====
-- The WHIP endpoint of cmd/webrtc-recv/main.go as the other end of the post of
-- cmd/webrtc-send/main.go: both run over one state, that of pion at both ends. The network between them
-- loses nothing, and the text that http.Error writes is left out.
use l4s_poc.Base.{ℕ, List, [], true, some}
use l4s_poc.Webrtc.Whip.{Pion, Response, http_error, created, handle, response_of}
use l4s_poc.Webrtc.Offer.{Flags, Offerer, Posted, responded, Setup, establish}

abbrev pub posted_of : {S : Type 0} → Response × S → Posted × S
posted_of (http_error status, s) = (responded status (some []), s)
posted_of (created location answer, s) = (responded 201 (some answer), s)

module _ {S P T Q D : Type 0} (o : Offerer S P T) (pion : Pion S Q D) where
  -- The endpoint with its path and its public address.
  abbrev pub whip_post : List ℕ → List ℕ → List ℕ → List ℕ → S → Posted × S
  whip_post path ip url offer s =
      posted_of (response_of (handle pion path ip (record { is_post = true; body = some offer }) s))

  abbrev pub join : List ℕ → List ℕ → Flags → S → Setup (P × T) × S
  join path ip flags = establish o (whip_post path ip) flags
