-- ===== src/Webrtc/Panics.antt =====
-- When the channels of webrtc-send are closed, and when closing one panics.
use l4s_poc.Base.{
  ℕ, suc, ◌+◌, ◌≤◌, ◌<◌, ◌≡◌, refl, sym, ap, ◌∙◌, List, [], ◌∷◌, Bool, true, false, ◌||◌, arith,
  ltb,
}
use l4s_poc.Webrtc.States.{
  PeerState, Event, Handler, closing_done, closing_connected, Peer, new_peer, run, close_done,
}

-- The failures that the first handler sees: until it is replaced, each `failed` or `disconnected`.
abbrev pub failures : Handler → List Event → ℕ
failures h [] = 0
failures h (Event.signal ∷ es) = failures h es
failures h (Event.data_channel_closed ∷ es) = failures h es
failures h (Event.negotiated ∷ es) = failures closing_connected es
failures Handler.closing_done (Event.state_changed PeerState.failed_state ∷ es) =
    suc (failures closing_done es)
failures Handler.closing_done (Event.state_changed PeerState.disconnected ∷ es) =
    suc (failures closing_done es)
failures Handler.closing_done (Event.state_changed PeerState.connected ∷ es) =
    failures closing_done es
failures Handler.closing_done (Event.state_changed PeerState.other_state ∷ es) =
    failures closing_done es
failures Handler.closing_connected (Event.state_changed s ∷ es) = failures closing_connected es

-- The connections that the second handler sees.
abbrev pub connections : Handler → List Event → ℕ
connections h [] = 0
connections h (Event.signal ∷ es) = connections h es
connections h (Event.data_channel_closed ∷ es) = connections h es
connections h (Event.negotiated ∷ es) = connections closing_connected es
connections Handler.closing_done (Event.state_changed s ∷ es) = connections closing_done es
connections Handler.closing_connected (Event.state_changed PeerState.connected ∷ es) =
    suc (connections closing_connected es)
connections Handler.closing_connected (Event.state_changed PeerState.failed_state ∷ es) =
    connections closing_connected es
connections Handler.closing_connected (Event.state_changed PeerState.disconnected ∷ es) =
    connections closing_connected es
connections Handler.closing_connected (Event.state_changed PeerState.other_state ∷ es) =
    connections closing_connected es

-- 1 if there is a signal: only the first is taken.
abbrev pub signals : List Event → ℕ
signals [] = 0
signals (Event.signal ∷ es) = 1
signals (Event.data_channel_closed ∷ es) = signals es
signals (Event.negotiated ∷ es) = signals es
signals (Event.state_changed s ∷ es) = signals es

abbrev pub closed_channels : List Event → ℕ
closed_channels [] = 0
closed_channels (Event.signal ∷ es) = closed_channels es
closed_channels (Event.data_channel_closed ∷ es) = suc (closed_channels es)
closed_channels (Event.negotiated ∷ es) = closed_channels es
closed_channels (Event.state_changed s ∷ es) = closed_channels es

-- A peer that has not panicked.
abbrev pub peer : Handler → Bool → Bool → Bool → Bool → Peer
peer h d c x g = record {
  handler = h;
  done = d;
  connected_ch = c;
  data_channel_done = x;
  signal_taken = g;
  panicked = false;
}

abbrev pub count_of : Bool → ℕ
count_of true = 1
count_of false = 0

-- Some channel is closed twice, by these numbers of closings.
abbrev is_excess : ℕ → ℕ → ℕ → Bool
is_excess a b c = ltb 1 a || ltb 1 b || ltb 1 c

-- Where a signal has been taken, no later one counts.
abbrev pub pending : Bool → ℕ → ℕ
pending true n = 0
pending false n = n

pub pending_nil : (g : Bool) → pending g 0 ≡ 0
pending_nil true = refl
pending_nil false = refl

pub run-panicked :
    (es : List Event) (h : Handler) (d c x g : Bool)
    → (run es (record (peer h d c x g) { panicked = true })).panicked ≡ true
unfolding run
run-panicked [] h d c x g = refl
run-panicked (e ∷ es) h d c x g = run-panicked es h d c x g

count_of-le : (b : Bool) → count_of b ≤ 1
count_of-le true = omega arith
count_of-le false = omega arith

is_excess-none : (a b c : ℕ) → a ≤ 1 → b ≤ 1 → c ≤ 1 → is_excess a b c ≡ false
is_excess-none a b c ha hb hc = ground arith

is_excess-first : (a b c : ℕ) → 1 < a → is_excess a b c ≡ true
is_excess-first a b c h = ground arith

is_excess-second : (a b c : ℕ) → 1 < b → is_excess a b c ≡ true
is_excess-second a b c h = ground arith

is_excess-third : (a b c : ℕ) → 1 < c → is_excess a b c ≡ true
is_excess-third a b c h = ground arith

-- The events from here on close some channel a second time, given what has been closed before.
abbrev closes_twice : Handler → Bool → Bool → Bool → Bool → List Event → Bool
closes_twice h d c x g es =
    is_excess (count_of d + failures h es + pending g (signals es)) (count_of c + connections h es)
      (count_of x + closed_channels es)

panics_at_end : (h : Handler) (d c x g : Bool) → closes_twice h d c x g [] ≡ false
panics_at_end h d c x g =
    is_excess-none (count_of d + 0 + pending g 0) (count_of c + 0) (count_of x + 0)
      (omega (arith, count_of-le d, pending_nil g)) (omega (arith, count_of-le c))
      (omega (arith, count_of-le x))

-- The closing of `done` by a failure.
abbrev Failing : List Event → Type 0
Failing es =
    (d c x g : Bool)
    → (run es (close_done d (peer closing_done d c x g))).panicked
      ≡ is_excess (count_of d + suc (failures closing_done es) + pending g (signals es))
          (count_of c + connections closing_done es) (count_of x + closed_channels es)

failing :
    (es : List Event)
    → ((d c x g : Bool)
        → (run es (peer closing_done d c x g)).panicked ≡ closes_twice closing_done d c x g es)
    → Failing es
failing es rec false c x g =
    rec true c x g
    ∙ ap
        (λ a.
          is_excess a (count_of c + connections closing_done es) (count_of x + closed_channels es))
        (omega arith)
failing es rec true c x g =
    run-panicked es closing_done true c x g
    ∙ sym (
        is_excess-first _ (count_of c + connections closing_done es)
          (count_of x + closed_channels es) (omega arith))

panics :
    (es : List Event) (h : Handler) (d c x g : Bool)
    → (run es (peer h d c x g)).panicked ≡ closes_twice h d c x g es
unfolding run
panics [] h d c x g = sym (panics_at_end h d c x g)
panics (Event.signal ∷ es) h d c x true = panics es h d c x true
panics (Event.signal ∷ es) h false c x false =
    panics es h true c x true
    ∙ ap (λ a. is_excess a (count_of c + connections h es) (count_of x + closed_channels es))
        (omega arith)
panics (Event.signal ∷ es) h true c x false =
    run-panicked es h true c x true
    ∙ sym (
        is_excess-first _ (count_of c + connections h es) (count_of x + closed_channels es)
          (omega arith))
panics (Event.data_channel_closed ∷ es) h d c false g =
    panics es h d c true g
    ∙ ap
        (is_excess (count_of d + failures h es + pending g (signals es))
          (count_of c + connections h es))
        (omega arith)
panics (Event.data_channel_closed ∷ es) h d c true g =
    run-panicked es h d c true g
    ∙ sym (
        is_excess-third (count_of d + failures h es + pending g (signals es))
          (count_of c + connections h es) _ (omega arith))
panics (Event.negotiated ∷ es) h d c x g = panics es closing_connected d c x g
panics (Event.state_changed PeerState.failed_state ∷ es) Handler.closing_done d c x g =
    failing es (λ d' c' x' g'. panics es closing_done d' c' x' g') d c x g
panics (Event.state_changed PeerState.disconnected ∷ es) Handler.closing_done d c x g =
    failing es (λ d' c' x' g'. panics es closing_done d' c' x' g') d c x g
panics (Event.state_changed PeerState.connected ∷ es) Handler.closing_done d c x g =
    panics es closing_done d c x g
panics (Event.state_changed PeerState.other_state ∷ es) Handler.closing_done d c x g =
    panics es closing_done d c x g
panics (Event.state_changed PeerState.connected ∷ es) Handler.closing_connected d false x g =
    panics es closing_connected d true x g
    ∙ ap
        (λ b.
          is_excess (count_of d + failures closing_connected es + pending g (signals es)) b
            (count_of x + closed_channels es))
        (omega arith)
panics (Event.state_changed PeerState.connected ∷ es) Handler.closing_connected d true x g =
    run-panicked es closing_connected d true x g
    ∙ sym (
        is_excess-second (count_of d + failures closing_connected es + pending g (signals es)) _
          (count_of x + closed_channels es) (omega arith))
panics (Event.state_changed PeerState.failed_state ∷ es) Handler.closing_connected d c x g =
    panics es closing_connected d c x g
panics (Event.state_changed PeerState.disconnected ∷ es) Handler.closing_connected d c x g =
    panics es closing_connected d c x g
panics (Event.state_changed PeerState.other_state ∷ es) Handler.closing_connected d c x g =
    panics es closing_connected d c x g

zero_plus : (n : ℕ) → 0 + n ≡ n
zero_plus n = omega arith

-- A `close` of one of the three channels of webrtc-send panics just where the channel is closed a
-- second time: `done` by the first signal and by each failure before the second handler is registered,
-- `connectedCh` by each connection after that, a second one being a reconnection, and
-- `dataChannelDone` by each data channel that ends. Panics of other code are not considered.
pub run-panics :
    (es : List Event)
    → (run es new_peer).panicked ≡ (
        ltb 1 (failures closing_done es + signals es)
        || ltb 1 (connections closing_done es)
        || ltb 1 (closed_channels es))
unfolding new_peer
run-panics es = panics es closing_done false false false false ∙ (λ i.
    is_excess (zero_plus (failures closing_done es) i + signals es)
      (zero_plus (connections closing_done es) i) (zero_plus (closed_channels es) i))
