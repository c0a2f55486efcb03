-- ===== src/Webrtc/States.antt =====
-- How cmd/webrtc-send/main.go waits for its connection, and what ends it: the channels `done` (lines
-- 301 to 316), `connectedCh` (lines 384 to 401) and `dataChannelDone` (lines 253 to 258). A second
-- `close` of a channel panics and ends the process.
use l4s_poc.Base.{List, [], ◌∷◌, Bool, true, false}

-- `webrtc.PeerConnectionState`, as far as the handlers tell its values apart.
pub data PeerState : Type 0 where
  connected disconnected failed_state other_state : PeerState

-- What happens while the process runs: a signal, a change of the connection's state, the end of a data
-- channel; and `negotiated`, with which the main function registers its second handler.
pub data Event : Type 0 where
  signal data_channel_closed negotiated : Event
  state_changed : PeerState → Event

-- The handler that `OnConnectionStateChange` has, which a second call replaces.
pub data Handler : Type 0 where
  closing_done closing_connected : Handler

-- Whether each channel is closed. `signal_taken` says that the goroutine has received its one signal.
pub record Peer : Type 0 where
  pub handler : Handler
  pub done : Bool
  pub connected_ch : Bool
  pub data_channel_done : Bool
  pub signal_taken : Bool
  pub panicked : Bool

unfoldable pub new_peer : Peer
new_peer = record {
  handler = closing_done;
  done = false;
  connected_ch = false;
  data_channel_done = false;
  signal_taken = false;
  panicked = false;
}

-- `close(done)`.
abbrev pub close_done : Bool → Peer → Peer
close_done false p = record p { done = true }
close_done true p = record p { panicked = true }

-- `close(connectedCh)`.
abbrev pub close_connected : Bool → Peer → Peer
close_connected false p = record p { connected_ch = true }
close_connected true p = record p { panicked = true }

-- `close(dataChannelDone)`.
abbrev pub close_data_channel : Bool → Peer → Peer
close_data_channel false p = record p { data_channel_done = true }
close_data_channel true p = record p { panicked = true }

-- The goroutine that waits for a signal.
abbrev pub on_signal : Bool → Peer → Peer
on_signal false p = close_done p.done (record p { signal_taken = true })
on_signal true p = p

-- The state handlers.
abbrev pub on_state : Handler → PeerState → Peer → Peer
on_state Handler.closing_done PeerState.failed_state p = close_done p.done p
on_state Handler.closing_done PeerState.disconnected p = close_done p.done p
on_state Handler.closing_done state p = p
on_state Handler.closing_connected PeerState.connected p = close_connected p.connected_ch p
on_state Handler.closing_connected state p = p

abbrev pub on_event : Event → Peer → Peer
on_event signal p = on_signal p.signal_taken p
on_event data_channel_closed p = close_data_channel p.data_channel_done p
on_event negotiated p = record p { handler = closing_connected }
on_event (state_changed s) p = on_state p.handler s p

-- After a panic nothing happens any more.
abbrev pub unless_panicked : Bool → Event → Peer → Peer
unless_panicked true e p = p
unless_panicked false e p = on_event e p

unfoldable pub run : List Event → Peer → Peer
run [] p = p
run (e ∷ es) p = run es (unless_panicked p.panicked e p)

-- The branches of the main function's `select`.
pub data Branch : Type 0 where
  goes_on returns times_out : Branch

-- Whether a branch can be taken in the end: the timeout in any case.
unfoldable pub is_ready : Branch → Peer → Bool
is_ready goes_on p = p.connected_ch
is_ready returns p = p.done
is_ready times_out p = true
