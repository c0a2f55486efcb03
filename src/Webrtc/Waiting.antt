-- ===== src/Webrtc/Waiting.antt =====
-- What the wait of webrtc-send for its connection finds.
use l4s_poc.Base.{◌+◌, ◌≡◌, refl, List, [], ◌∷◌, Bool, true, false, arith}
use l4s_poc.Webrtc.States.{
  PeerState, failed_state, Event, state_changed, Handler, closing_done, closing_connected, Peer,
  new_peer, run, close_done, goes_on, returns, times_out, is_ready,
}
use l4s_poc.Webrtc.Panics.{
  failures, connections, signals, peer, count_of, pending, run-panicked, pending_nil,
}

-- The channels that have been closed at the end, by number.
abbrev Closings : List Event → Handler → Bool → Bool → Bool → Peer → Type 0
Closings es h d c g p =
    (count_of p.done ≡ count_of d + failures h es + pending g (signals es))
    × (count_of p.connected_ch ≡ count_of c + connections h es)

failing :
    (es : List Event)
    → ((d c x g : Bool)
        → (run es (peer closing_done d c x g)).panicked ≡ false
        → Closings es closing_done d c g (run es (peer closing_done d c x g)))
    → (d c x g : Bool) → (run es (close_done d (peer closing_done d c x g))).panicked ≡ false
    → Closings
        (state_changed failed_state ∷ es)
        closing_done
        d
        c
        g
        (run es (close_done d (peer closing_done d c x g)))
failing es rec false c x g calm =
    let (ended, joined) = rec true c x g calm in (omega (arith, ended), joined)
failing es rec true c x g calm = let loud = run-panicked es closing_done true c x g in cc

closings :
    (es : List Event) (h : Handler) (d c x g : Bool)
    → (run es (peer h d c x g)).panicked ≡ false
    → Closings es h d c g (run es (peer h d c x g))
unfolding run
closings [] h d c x g calm = (omega (arith, pending_nil g), omega arith)
closings (Event.signal ∷ es) h d c x true calm = closings es h d c x true calm
closings (Event.signal ∷ es) h false c x false calm =
    let (ended, joined) = closings es h true c x true calm in (omega (arith, ended), joined)
closings (Event.signal ∷ es) h true c x false calm =
    let loud = run-panicked es h true c x true in cc
closings (Event.data_channel_closed ∷ es) h d c false g calm = closings es h d c true g calm
closings (Event.data_channel_closed ∷ es) h d c true g calm =
    let loud = run-panicked es h d c true g in cc
closings (Event.negotiated ∷ es) h d c x g calm = closings es closing_connected d c x g calm
closings (Event.state_changed PeerState.failed_state ∷ es) Handler.closing_done d c x g calm =
    failing es (λ d' c' x' g'. closings es closing_done d' c' x' g') d c x g calm
closings (Event.state_changed PeerState.disconnected ∷ es) Handler.closing_done d c x g calm =
    failing es (λ d' c' x' g'. closings es closing_done d' c' x' g') d c x g calm
closings (Event.state_changed PeerState.connected ∷ es) Handler.closing_done d c x g calm =
    closings es closing_done d c x g calm
closings (Event.state_changed PeerState.other_state ∷ es) Handler.closing_done d c x g calm =
    closings es closing_done d c x g calm
closings (Event.state_changed PeerState.connected ∷ es) Handler.closing_connected d false x g calm =
    let (ended, joined) = closings es closing_connected d true x g calm in
    (ended, omega (arith, joined))
closings (Event.state_changed PeerState.connected ∷ es) Handler.closing_connected d true x g calm =
    let loud = run-panicked es closing_connected d true x g in cc
closings (Event.state_changed PeerState.failed_state ∷ es) Handler.closing_connected d c x g calm =
    closings es closing_connected d c x g calm
closings (Event.state_changed PeerState.disconnected ∷ es) Handler.closing_connected d c x g calm =
    closings es closing_connected d c x g calm
closings (Event.state_changed PeerState.other_state ∷ es) Handler.closing_connected d c x g calm =
    closings es closing_connected d c x g calm

-- What the main function's wait finds, if nothing has panicked: it can go on just if the connection
-- was established after the second handler was registered, and return just if there was a signal, or
-- a failure before that handler was registered; the timeout it has in any case.
pub is_ready-run :
    (es : List Event)
    → (run es new_peer).panicked ≡ false
    → (count_of (is_ready goes_on (run es new_peer)) ≡ connections closing_done es)
      × (count_of (is_ready returns (run es new_peer)) ≡ failures closing_done es + signals es)
      × (is_ready times_out (run es new_peer) ≡ true)
unfolding is_ready new_peer
is_ready-run es calm =
    let (ended, joined) = closings es closing_done false false false false calm in
    (omega (arith, joined), omega (arith, ended), refl)
