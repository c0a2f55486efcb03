-- ===== src/Webrtc/Offer/Handshake.antt =====
-- What the two ends have of each other when the set-up has come through.
use mathlib.Core.Path.{subst}
use l4s_poc.Base.{ℕ, ◌≡◌, refl, List, true, inl, inr, Option, none, some}
use l4s_poc.Webrtc.Whip.{
  Pion, Response, http_error, created, Attempt, goes_on, answers, and_then as whip_then, error_on,
  negotiate, handle, response_of, settings_of,
}
use l4s_poc.Webrtc.Offer.{
  Flags, Offerer, ice_servers, codec_failed, controller_failed, twcc_failed, interceptors_failed,
  peer_failed, channel_failed, track_failed, add_track_failed, offer_failed, Posted, make_offer,
  prepare, exchange, establish, answer_of, remote_failed, local_failed,
}
use l4s_poc.Webrtc.Offer.Join.{posted_of, whip_post, join}
use l4s_poc.Webrtc.Offer.Failures.{IsRefusal, Ends, Ends-then, or_die-Ends}

module _ {S Q D : Type 0} (pion : Pion S Q D) where
  -- The endpoint's connection takes the offer, makes an answer and takes that as its own description,
  -- and ends in this state.
  abbrev pub Answered : Q → List ℕ → S → Type 0
  Answered pc offer s =
      (s1 s2 s3 s4 : S) × (answer : List ℕ) × (pion.set_remote_description pc offer s1
        ≡ (some tt, s2))
      × (pion.create_answer pc s2 ≡ (some answer, s3))
      × (pion.set_local_description pc answer s3 ≡ (some tt, s4))
      × (s ≡ pion.gather pc s4)

  -- What the handler gives for an offer.
  abbrev Handled : List ℕ → Attempt Response × S → Type 0
  Handled offer (goes_on (http_error status), s) = ⊥
  Handled offer (goes_on (created path sdp), s) =
      (pc : Q) × Answered pc offer s × (sdp ≡ pion.local_description pc s)
  Handled offer (answers (http_error status), s) = IsRefusal status
  Handled offer (answers (created path sdp), s) = ⊥

  or_error-Handled :
      {A : Type 0} (status : ℕ) (offer : List ℕ) (r : Option A × S)
      (f : A → S → Attempt Response × S)
      → IsRefusal status
      → ((a : A) (s : S) → r ≡ (some a, s) → Handled offer (f a s))
      → Handled offer (whip_then f (error_on status r))
  or_error-Handled status offer (none, s) f refusal go = refusal
  or_error-Handled status offer (some a, s) f refusal go = go a s refl

  negotiate-Handled :
      (path : List ℕ) (pc : Q) (offer : List ℕ) (s : S)
      → Handled offer (negotiate pion path pc offer s)
  unfolding negotiate
  negotiate-Handled path pc offer s =
      or_error-Handled 400 offer (pion.set_remote_description pc offer s) _ (inl refl)
        (λ _ s2 remote.
          or_error-Handled 500 offer (pion.create_answer pc s2) _ (inr refl) (λ answer s3 made.
            or_error-Handled 500 offer (pion.set_local_description pc answer s3) _ (inr refl)
              (λ _ s4 mine. (pc, (s, s2, s3, s4, answer, remote, made, mine, refl), refl))))

  handle-Handled :
      (path ip offer : List ℕ) (s : S)
      → Handled offer (handle pion path ip (record { is_post = true; body = some offer }) s)
  unfolding handle
  handle-Handled path ip offer s =
      or_error-Handled 500 offer (pion.register_codec s) _ (inr refl) (λ _ s1 _.
        or_error-Handled 500 offer (pion.new_pli_interceptor s1) _ (inr refl) (λ _ s2 _.
          or_error-Handled 500 offer (pion.new_peer_connection (settings_of ip) s2) _ (inr refl)
            (λ pc s3 _.
              or_error-Handled 500 offer (pion.create_data_channel pc s3) _ (inr refl)
                (λ dc s4 _. negotiate-Handled path pc offer (pion.register_handlers pc dc s4)))))

module _ {S P T Q D : Type 0} (o : Offerer S P T) (pion : Pion S Q D) where
  -- The sender's connection has made an offer and taken it as its own description, and this is the state
  -- in which the offer is posted.
  abbrev pub Offered : P × T → S → Type 0
  Offered (pc, track) s =
      (s1 s2 s3 : S) × (offer : List ℕ) × (o.create_offer pc s1 ≡ (some offer, s2))
      × (o.set_local_description pc offer s2 ≡ (some tt, s3))
      × (s ≡ o.gather pc s3)

  -- Each end has taken the description of the other: that which it had when it was sent.
  abbrev pub Swapped : P × T → S → Type 0
  Swapped (pc, track) s =
      (offered answered taken : S) × (q : Q) × Offered (pc, track) offered
      × Answered pion q (o.local_description pc offered) answered
      × (o.set_remote_description pc (pion.local_description q answered) answered
          ≡ (some tt, taken))
      × (s ≡ o.on_connected pc taken)

  -- What the sender makes of the endpoint's response.
  abbrev Replied : List ℕ → List ℕ → S → Type 0
  Replied offer answer s = (q : Q) × Answered pion q offer s × (answer ≡ pion.local_description q s)

  answer_of-Ends :
      (offer : List ℕ) (r : Attempt Response × S)
      → Handled pion offer r
      → Ends o (Replied offer) (answer_of (posted_of (response_of r)))
  answer_of-Ends offer (goes_on (created path sdp), s) h = h
  answer_of-Ends offer (goes_on (http_error status), s) h = elim h [ ]
  answer_of-Ends offer (answers (created path sdp), s) h = elim h [ ]
  answer_of-Ends offer (answers (http_error status), s) (inl bad) = rw bad (inl refl)
  answer_of-Ends offer (answers (http_error status), s) (inr broken) = rw broken (inr refl)

  exchange-Ends :
      (path ip url : List ℕ) (pc : P) (track : T) (s : S)
      → Offered (pc, track) s
      → Ends o Swapped (exchange o (whip_post o pion path ip) url (pc, track) s)
  unfolding exchange
  exchange-Ends path ip url pc track s offered =
      Ends-then o (Replied (o.local_description pc s)) Swapped _
        (answer_of (whip_post o pion path ip url (o.local_description pc s) s))
        (answer_of-Ends (o.local_description pc s) _
          (handle-Handled pion path ip (o.local_description pc s) s))
        (λ answer s1 (q, replied, same).
          or_die-Ends o Swapped remote_failed (o.set_remote_description pc answer s1) _
            (λ _ e. (s1, pc, answer, e))
            (λ _ s2 taken. (
              s,
              s1,
              s2,
              q,
              offered,
              replied,
              subst (λ d. o.set_remote_description pc d s1 ≡ (some tt, s2)) same taken,
              refl,
            )))

  make_offer-Ends :
      (post : List ℕ → List ℕ → S → Posted × S) (pc : P) (s : S)
      → Ends o Offered (make_offer o post pc s)
  unfolding make_offer
  make_offer-Ends post pc s =
      or_die-Ends o Offered channel_failed (o.create_data_channel pc s) _ (λ _ e. (s, pc, e))
        (λ _ s1 _.
          or_die-Ends o Offered track_failed (o.new_track (o.on_data_channel pc s1)) _
            (λ _ e. (o.on_data_channel pc s1, e))
            (λ track s2 _.
              or_die-Ends o Offered add_track_failed (o.add_track pc track s2) _
                (λ _ e. (s2, pc, track, e))
                (λ _ s3 _.
                  or_die-Ends o Offered offer_failed (o.create_offer pc (o.on_states pc s3)) _
                    (λ _ e. (o.on_states pc s3, pc, e))
                    (λ offer s4 made.
                      or_die-Ends o Offered local_failed (o.set_local_description pc offer s4) _
                        (λ _ e. (s4, pc, offer, e))
                        (λ _ s5 mine. (o.on_states pc s3, s4, s5, offer, made, mine, refl))))))

  prepare-Ends :
      (post : List ℕ → List ℕ → S → Posted × S) (flags : Flags) (s : S)
      → Ends o Offered (prepare o post flags s)
  unfolding prepare
  prepare-Ends post flags s =
      or_die-Ends o Offered codec_failed (o.register_codec s) _ (λ _ e. (s, e))
        (λ _ s1 _.
          or_die-Ends o Offered controller_failed (o.new_controller flags.initial_bitrate s1) _
            (λ _ e. (s1, flags.initial_bitrate, e))
            (λ _ s2 _.
              or_die-Ends o Offered twcc_failed (o.configure_twcc s2) _ (λ _ e. (s2, e))
                (λ _ s3 _.
                  or_die-Ends o Offered interceptors_failed (o.register_interceptors s3) _
                    (λ _ e. (s3, e))
                    (λ _ s4 _.
                      or_die-Ends o Offered peer_failed
                        (o.new_peer_connection (settings_of flags.nat_ip) (ice_servers flags) s4) _
                        (λ _ e. (s4, settings_of flags.nat_ip, ice_servers flags, e))
                        (λ pc s5 _. make_offer-Ends post pc s5)))))

  -- The set-up of the sender against the endpoint: where it comes through, the endpoint's connection has
  -- taken the sender's offer, and has made an answer and taken it as its own description, and the
  -- sender's has taken the description that the endpoint's then had; where it does not, the call of pion
  -- that the failure names has failed and left the state at the end, or the endpoint has refused with
  -- status 400 or 500.
  pub establish-Swapped :
      (path ip : List ℕ) (flags : Flags) (s : S) → Ends o Swapped (join o pion path ip flags s)
  unfolding establish
  establish-Swapped path ip flags s =
      Ends-then o Offered Swapped _ (prepare o (whip_post o pion path ip) flags s)
        (prepare-Ends (whip_post o pion path ip) flags s)
        (λ (pc, track) s1 offered. exchange-Ends path ip flags.whip_url pc track s1 offered)
