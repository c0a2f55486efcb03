-- ===== src/Interceptor.antt =====
-- The L4S interceptor, pkg/l4s/interceptor.go lines 86 to 192. Trackers are shared through pointers:
-- by the map, and by the reader that BindRemoteStream returned, which keeps its tracker when the map
-- drops it. So trackers live in `heap`, a pointer is an index into it, and the map goes from SSRCs
-- to pointers.
pub mod Streams
pub mod Marks
mod Tests
use l4s_poc.Base.{
  ℕ, zero, suc, ◌+◌, ◌*◌, ◌^◌, List, [], ◌∷◌, ◌++◌, Bool, true, false, ◌&&◌, Option, none, some,
  ◌==◌, ltb, leb, if◌then◌else◌, length, get_elem?, get_or,
}
use l4s_poc.Base.Words.{u8, u16, u32}
use l4s_poc.Store.{lookup, insert, delete, modify}
use l4s_poc.Ecn.{EcnTracker, new_tracker, track, ecn_ce}

-- What the feedback callback does to the tracker that it is given, which is taken to be all that it
-- does to trackers.
abbrev pub Feedback : Type 0
Feedback = ℕ → EcnTracker → EcnTracker

pub record Interceptor : Type 0 where
  pub trackers : List (ℕ × ℕ)
  pub heap : List EcnTracker
  pub on_feedback : Option Feedback

-- What `NewInterceptorFactory` and `SetFeedbackCallback` make.
pub record Factory : Type 0 where
  pub on_feedback : Option Feedback

unfoldable pub new_factory : Factory
new_factory = record { on_feedback = none }

unfoldable pub set_feedback_callback : Feedback → Factory → Factory
set_feedback_callback cb f = record { on_feedback = some cb }

unfoldable pub new_interceptor : Factory → Interceptor
new_interceptor f = record { trackers = []; heap = []; on_feedback = f.on_feedback }

-- The closure that BindRemoteStream returns: its SSRC, and its pointer to the tracker.
pub record BoundReader : Type 0 where
  pub ssrc : ℕ
  pub tracker : ℕ

unfoldable pub bind_remote_stream : ℕ → Interceptor → BoundReader × Interceptor
unfolding insert
bind_remote_stream ssrc i =
    let p = length i.heap in
    (
      record { ssrc = ssrc; tracker = p },
      record i { trackers = insert ssrc p i.trackers; heap = i.heap ++ (new_tracker ssrc ∷ []) },
    )

unfoldable pub unbind_remote_stream : ℕ → Interceptor → Interceptor
unfolding delete
unbind_remote_stream ssrc i = record i { trackers = delete ssrc i.trackers }

-- `attrs[AttrECN]`: not there, of another type than uint8, or a uint8.
pub data Attribute : Type 0 where
  missing other : Attribute
  value : ℕ → Attribute

-- What the wrapped reader gave: an error, or the packet's bytes in `buf[:n]` and the attribute.
pub data Read : Type 0 where
  failed : Read
  packet : List ℕ → Attribute → Read

-- The header fields that the closure takes from the buffer.
unfoldable pub seq_num_of : List ℕ → ℕ
seq_num_of b = u16 (get_or b 2 0 * 2 ^ 8 + get_or b 3 0)

unfoldable pub timestamp_of : List ℕ → ℕ
timestamp_of b =
    u32 (get_or b 4 0 * 2 ^ 24 + get_or b 5 0 * 2 ^ 16 + get_or b 6 0 * 2 ^ 8 + get_or b 7 0)

-- "Trigger feedback if CE was marked".
unfoldable pub feedback : Option Feedback → ℕ → ℕ → EcnTracker → EcnTracker
feedback none ssrc ecn t = t
feedback (some cb) ssrc ecn t = if ecn == ecn_ce then cb ssrc t else t

-- The closure's body after `reader.Read`. What it returns to its caller is what `Read` gave it.
unfoldable pub on_read : BoundReader → Read → Interceptor → Interceptor
unfolding seq_num_of timestamp_of feedback modify
on_read r failed i = i
on_read r (packet buf missing) i = i
on_read r (packet buf other) i = i
on_read r (packet buf (value ecn)) i =
    if leb 12 (length buf)
    then record i {
      heap =
          modify r.tracker
            (λ t.
              feedback i.on_feedback r.ssrc ecn (track ecn (seq_num_of buf) (timestamp_of buf) t))
            i.heap;
    }
    else i

abbrev pub deref : List EcnTracker → Option ℕ → Option EcnTracker
deref heap none = none
deref heap (some p) = get_elem? heap p

-- `GetTracker`: `none` is nil.
unfoldable pub get_tracker : ℕ → Interceptor → Option EcnTracker
get_tracker ssrc i = deref i.heap (lookup ssrc i.trackers)

-- `GetAllTrackers`: a new map with the same pointers.
unfoldable pub get_all_trackers : Interceptor → List (ℕ × ℕ)
get_all_trackers i = i.trackers
