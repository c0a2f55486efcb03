-- ===== src/Interceptor/Tests.antt =====
-- Runs of the interceptor.
use mathlib.Core.Option
use l4s_poc.Base.{ℕ, ◌≡◌, ◌≢◌, refl, List, [], ◌∷◌, some, ◌==◌, if◌then◌else◌}
use l4s_poc.Ecn.{reset}
use l4s_poc.Store.{lookup, insert, delete}
use l4s_poc.Interceptor.{
  Interceptor, new_interceptor, new_factory, set_feedback_callback, BoundReader, bind_remote_stream,
  unbind_remote_stream, value, packet, on_read, get_tracker,
}
use l4s_poc.Interceptor.Streams.{
  IsValid, new_interceptor-IsValid, bind_remote_stream-IsValid, effect, get_tracker-on_read,
}

-- A callback that resets the tracker it is given.
abbrev start : Interceptor
start = new_interceptor (set_feedback_callback (λ ssrc t. (reset t).1) new_factory)

abbrev one : Interceptor
one = (bind_remote_stream 8 start).1

abbrev two : Interceptor
two = (bind_remote_stream 9 one).1

two-IsValid : IsValid two
two-IsValid =
    bind_remote_stream-IsValid 9 one
      (bind_remote_stream-IsValid 8 start (new_interceptor-IsValid _))

abbrev reader8 : BoundReader
reader8 = record { ssrc = 8; tracker = 0 }

abbrev header : List ℕ
header = 128 ∷ 96 ∷ 1 ∷ 2 ∷ 0 ∷ 0 ∷ 0 ∷ 90 ∷ 0 ∷ 0 ∷ 0 ∷ 8 ∷ []

is_bound : lookup 8 two.trackers ≡ some 0
unfolding bind_remote_stream lookup insert delete new_interceptor set_feedback_callback new_factory
is_bound = refl

is_stale : (k : ℕ) → lookup k (unbind_remote_stream 8 one).trackers ≢ some 0
unfolding bind_remote_stream unbind_remote_stream lookup insert delete new_interceptor
    set_feedback_callback new_factory
is_stale k = λ e. cc

get_tracker-on_read_example : get_tracker 8 (on_read reader8 (packet header (value 3)) two) ≡ (
    if 8 == 8
    then Option.map (effect reader8 (packet header (value 3)) two) (get_tracker 8 two)
    else get_tracker 8 two)
get_tracker-on_read_example =
    get_tracker-on_read reader8 (packet header (value 3)) two 8 two-IsValid is_bound
