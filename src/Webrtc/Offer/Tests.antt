-- ===== src/Webrtc/Offer/Tests.antt =====
-- The set-up against the endpoint, over a state with the descriptions of both ends.
use l4s_poc.Base.{ℕ, ◌≡◌, refl, List, [], ◌∷◌, Option, none, some}
use l4s_poc.Base.Int.{pos}
use l4s_poc.Webrtc.States.{Branch}
use l4s_poc.Webrtc.Whip.{Pion, handle, negotiate}
use l4s_poc.Webrtc.Offer.{
  Flags, Offerer, proceeds, dies, endpoint_refused, leaves, make_offer, prepare, exchange,
  establish, set_up,
}
use l4s_poc.Webrtc.Offer.Join.{whip_post, join}
use l4s_poc.Webrtc.Offer.Handshake.{Swapped, establish-Swapped}
use l4s_poc.Webrtc.Offer.Failures.{Ends}

pub record Scene : Type 0 where
  pub offered : List ℕ
  pub answered : List ℕ
  pub offer_taken : List ℕ
  pub answer_taken : List ℕ
  pub open_peers : ℕ
  -- The sizes of the packets that have been sent.
  pub sizes : List ℕ

abbrev pub new_scene : Scene
new_scene = record {
  offered = [];
  answered = [];
  offer_taken = [];
  answer_taken = [];
  open_peers = 0;
  sizes = [];
}

abbrev done_in : Scene → Option (Unit {0}) × Scene
done_in w = (some tt, w)

abbrev pub offerer : List ℕ → Offerer Scene ℕ ℕ
offerer offer = record {
  register_codec = done_in;
  new_controller = λ bitrate. done_in;
  configure_twcc = done_in;
  register_interceptors = done_in;
  new_peer_connection = λ settings servers w. (some 1, record w { open_peers = 1 });
  create_data_channel = λ pc. done_in;
  on_data_channel = λ pc w. w;
  new_track = λ w. (some 7, w);
  add_track = λ pc track. done_in;
  on_states = λ pc w. w;
  create_offer = λ pc w. (some offer, w);
  set_local_description = λ pc sdp w. (some tt, record w { offered = sdp });
  gather = λ pc w. w;
  local_description = λ pc w. w.offered;
  set_remote_description = λ pc sdp w. (some tt, record w { answer_taken = sdp });
  on_connected = λ pc w. w;
  close = λ pc w. record w { open_peers = 0 };
}

abbrev take_offer : List ℕ → Scene → Option (Unit {0}) × Scene
take_offer [] w = (none, w)
take_offer (c ∷ sdp) w = (some tt, record w { offer_taken = c ∷ sdp })

abbrev pub pion : Pion Scene ℕ ℕ
pion = record {
  register_codec = done_in;
  new_pli_interceptor = done_in;
  new_peer_connection = λ settings w. (some 2, w);
  create_data_channel = λ pc w. (some 3, w);
  register_handlers = λ pc dc w. w;
  set_remote_description = λ pc. take_offer;
  create_answer = λ pc w. (some (9 ∷ w.offer_taken), w);
  set_local_description = λ pc sdp w. (some tt, record w { answered = sdp });
  gather = λ pc w. w;
  local_description = λ pc w. w.answered;
  close = λ pc w. w;
}

abbrev pub flags : Flags
flags = record {
  whip_url = [];
  initial_bitrate = pos 20_000_000;
  nat_ip = [];
  turn_server = 1 ∷ [];
  turn_user = [];
  turn_pass = 2 ∷ [];
}

join_test : join (offerer (5 ∷ 6 ∷ [])) pion [] [] flags new_scene ≡ (
  proceeds (1, 7),
  record {
    offered = 5 ∷ 6 ∷ [];
    answered = 9 ∷ 5 ∷ 6 ∷ [];
    offer_taken = 5 ∷ 6 ∷ [];
    answer_taken = 9 ∷ 5 ∷ 6 ∷ [];
    open_peers = 1;
    sizes = [];
  },
)
unfolding establish prepare make_offer exchange handle negotiate
join_test = refl

refused_test : (join (offerer []) pion [] [] flags new_scene).0 ≡ dies (endpoint_refused 400)
unfolding establish prepare make_offer exchange handle negotiate
refused_test = refl

-- A return from the wait closes the connection.
set_up_test :
    let setup =
      set_up
        (offerer (5 ∷ []))
        (whip_post (offerer []) pion [] [])
        flags
        Branch.returns
        new_scene in
    (setup.0 ≡ proceeds leaves) × (setup.1.open_peers ≡ 0)
unfolding set_up establish prepare make_offer exchange handle negotiate
set_up_test = (refl, refl)

establish-Swapped_example :
    Ends
      (offerer (5 ∷ 6 ∷ []))
      (Swapped (offerer (5 ∷ 6 ∷ [])) pion)
      (join (offerer (5 ∷ 6 ∷ [])) pion [] [] flags new_scene)
establish-Swapped_example = establish-Swapped (offerer (5 ∷ 6 ∷ [])) pion [] [] flags new_scene
