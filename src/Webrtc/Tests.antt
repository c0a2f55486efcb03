-- ===== src/Webrtc/Tests.antt =====
-- Runs of the sender and the receiver with codecs that put each unit into one packet.
use l4s_poc.Base.{
  ℕ, suc, ◌<◌, ◌≡◌, refl, sym, List, [], ◌∷◌, ◌++◌, append-nil, false, Option, some, arith, length,
  map, true, none, ltb, ◌||◌, ◌+◌,
}
use l4s_poc.Base.Int.{pos}
use l4s_poc.Io.{IoError, Stream, feed, fault}
use l4s_poc.Nal.{NalUnit, start_code, is_keyframe}
use l4s_poc.AnnexB.{new_reader}
use l4s_poc.AnnexB.RoundTrip.{append_write}
use l4s_poc.Rtp.{Packet, new_packetizer, packetize, next_timestamp}
use l4s_poc.Webrtc.States.{
  connected, disconnected, failed_state, Event, negotiated, state_changed, closing_done, new_peer,
  run, Branch, is_ready,
}
use l4s_poc.Webrtc.Panics.{failures, connections, signals, closed_channels, count_of, run-panics}
use l4s_poc.Webrtc.Waiting.{is_ready-run}
use l4s_poc.Webrtc.Whip.{Pion, http_error, created, response, public_ip, serve}
use l4s_poc.Webrtc.Whip.Leaks.{IsUsable, counting, posted, serve-refused}
use l4s_poc.Webrtc.{Sender, send_unit, on_track}
use l4s_poc.Webrtc.Sending.{send_units}
use l4s_poc.Webrtc.Units.{between, rewritten, rewritten_bytes}
use l4s_poc.Webrtc.Reassembly.{log_rtp, Codec, on_track-send_units}

abbrev payload : ℕ → List ℕ → ℕ → List (List ℕ) × ℕ
payload size bytes calls = (bytes ∷ [], suc calls)

abbrev unmarshal : List ℕ → ℕ → Option (List ℕ) × ℕ
unmarshal bytes calls = (some (start_code ++ bytes), suc calls)

abbrev codec : Codec payload unmarshal 1188 start_code
codec = record {
  IsCarried = λ bytes. 0 < length bytes;
  IsIdle = λ d. Unit {0};
  carries = λ bytes p d h idle. (
    suc d,
    tt,
    (start_code ++ bytes, suc d, [], refl, sym (append-nil (start_code ++ bytes)), (refl, refl)),
  );
  some_payload = λ bytes p h. omega arith;
  some_byte = λ bytes h. h;
}

abbrev units : List NalUnit
units =
    record { unit_type = 7; payload = 103 ∷ 66 ∷ [] }
    ∷ record { unit_type = 5; payload = 101 ∷ 8 ∷ 9 ∷ [] }
    ∷ []

abbrev input : Stream
input = feed (0 ∷ 0 ∷ 1 ∷ 103 ∷ 66 ∷ 0 ∷ 0 ∷ 1 ∷ 101 ∷ 8 ∷ 9 ∷ []) []

abbrev sender : Sender ℕ (List Packet)
sender = record {
  reader = new_reader input;
  packetizer = new_packetizer 0 305419896 1200;
  track = [];
  nal_count = pos 0;
  total_bytes = pos 0;
}

-- A track that fails at every packet.
abbrev fail_rtp : List Packet → Packet → Option IoError × List Packet
fail_rtp w k = (some (fault 1), w)

-- The time stamp advances with the SPS as with the slice.
stamps-units :
    map (λ (k : Packet). k.timestamp) (send_units payload log_rtp 33 units sender).track
    ≡ 0 ∷ 2970 ∷ []
unfolding send_unit new_packetizer packetize is_keyframe next_timestamp
stamps-units = refl

on_track-send_units_example :
    (sent : List Packet) × (d : ℕ) × ((send_units payload log_rtp 33 units sender).track
      ≡ [] ++ sent)
    × (on_track unmarshal append_write sent (between 0 [] 0 0)
        ≡ between d (rewritten start_code units) (length units) (rewritten_bytes start_code units))
unfolding new_packetizer
on_track-send_units_example =
    on_track-send_units payload unmarshal 33 1188 start_code codec units sender 0
      (omega arith, refl) (omega arith, (omega arith, tt)) tt

-- The connection comes up, breaks, and comes up again: the second time closes `connectedCh` again.
abbrev reconnect : List Event
reconnect =
    negotiated ∷ state_changed connected ∷ state_changed disconnected ∷ state_changed connected ∷ []

reconnect_panics : (run reconnect new_peer).panicked ≡ true
unfolding run new_peer
reconnect_panics = refl

-- Failures behind the second handler end nothing.
failed_later :
    (run (negotiated ∷ state_changed connected ∷ state_changed failed_state ∷ []) new_peer).done
    ≡ false
unfolding run new_peer
failed_later = refl

run-panics_example : (run reconnect new_peer).panicked ≡ (
    ltb 1 (failures closing_done reconnect + signals reconnect)
    || ltb 1 (connections closing_done reconnect)
    || ltb 1 (closed_channels reconnect))
run-panics_example = run-panics reconnect

-- A connection that is established before the second handler is registered.
abbrev early : List Event
early = state_changed connected ∷ negotiated ∷ []

is_ready-run_example :
    (count_of (is_ready Branch.goes_on (run early new_peer)) ≡ 0)
    × (count_of (is_ready Branch.returns (run early new_peer)) ≡ 0)
    × (is_ready Branch.times_out (run early new_peer) ≡ true)
unfolding run new_peer
is_ready-run_example = is_ready-run early refl

-- A pion that counts its calls, makes connections and takes no offer.
abbrev pion : Pion ℕ ℕ ℕ
pion = record {
  register_codec = λ s. (some tt, suc s);
  new_pli_interceptor = λ s. (some tt, suc s);
  new_peer_connection = λ settings s. (some s, suc s);
  create_data_channel = λ pc s. (some s, suc s);
  register_handlers = λ pc dc s. suc s;
  set_remote_description = λ pc offer s. (none, suc s);
  create_answer = λ pc s. (some [], suc s);
  set_local_description = λ pc answer s. (some tt, suc s);
  gather = λ pc s. suc s;
  local_description = λ pc s. 76 ∷ [];
  close = λ pc s. suc s;
}

usable : IsUsable pion
usable = record {
  registers = λ s. refl;
  intercepts = λ s. refl;
  connects = λ settings s. (s, refl);
  opens = λ pc s. (s, refl);
}

serve-refused_example :
    ((serve (counting pion) [] [] (posted (1 ∷ []) ∷ posted [] ∷ []) (0, 5)).0
      ≡ http_error 400 ∷ http_error 400 ∷ [])
    × ((serve (counting pion) [] [] (posted (1 ∷ []) ∷ posted [] ∷ []) (0, 5)).1.1 ≡ 7)
serve-refused_example =
    serve-refused pion usable [] [] ((1 ∷ []) ∷ [] ∷ []) 0 5 ((λ pc t. refl), ((λ pc t. refl), tt))

-- A pion that takes any offer.
abbrev willing : Pion ℕ ℕ ℕ
willing = record pion { set_remote_description = λ pc offer s. (some tt, suc s) }

serve_one :
    (serve willing
      (47 ∷ [])
      []
      (posted (1 ∷ []) ∷ record { is_post = false; body = none } ∷ [])
      0).0
    ≡ created (47 ∷ []) (76 ∷ []) ∷ http_error 405 ∷ []
unfolding serve
serve_one = refl

public_ip_detected :
    public_ip [] (response 200 (some (32 ∷ 49 ∷ 32 ∷ 50 ∷ 10 ∷ []))) ≡ 49 ∷ 32 ∷ 50 ∷ []
unfolding public_ip
public_ip_detected = refl
