-- ===== src/Scream.antt =====
-- The wrapper of the SCReAM library, pkg/scream/scream.go. The functions of the C library are the
-- record `Api` over its state `S`, `malloc` and `free` among them. A `*Sender` is an index into
-- `senders`; the callback finds a sender through `registry`, by the address of its callback data.
-- Each method holds the sender's mutex throughout and is one step.
pub mod Registry
mod Tests
use l4s_poc.Base.{
  ℕ, zero, suc, ◌+◌, List, [], ◌∷◌, ◌++◌, Bool, true, false, Option, none, some, ◌==◌, leb,
  if◌then◌else◌, length, take, get_elem?,
}
use l4s_poc.Store.{lookup, delete, insert, modify}

pub record Api (S : Type 0) : Type 0 where
  pub malloc : ℕ → S → ℕ × S
  pub free : ℕ → S → S
  -- `scream_init_wrapper(ssrc, args, cb_data)`.
  pub init : ℕ → List ℕ → ℕ → S → S
  -- `ScreamSenderPush`: the data, `seq`, the payload type, the time stamp, the SSRC, the marker.
  pub sender_push : List ℕ → ℕ → ℕ → ℕ → ℕ → ℕ → S → S
  pub rtcp_push : List ℕ → S → ℕ × S
  pub target_rate : ℕ → S → (ℕ × ℕ) × S
  pub plugin_update : ℕ → List ℕ → S → S
  -- What `ScreamSenderStats` makes of a buffer of so many bytes, and the length that it sets.
  pub sender_stats : ℕ → ℕ → ℕ → S → (List ℕ × ℕ) × S
  pub sender_stats_header : ℕ → S → (List ℕ × ℕ) × S

-- `cb_data` is `none` for a nil pointer; `has_callback` says whether `onPacket` is not nil.
pub record Sender : Type 0 where
  pub ssrc : ℕ
  pub has_callback : Bool
  pub cb_data : Option ℕ

-- The package's variable, the senders that were made, and the C side.
pub record World (S : Type 0) : Type 0 where
  pub registry : List (ℕ × ℕ)
  pub senders : List Sender
  pub c : S

-- `uintptr(unsafe.Pointer(p))`.
abbrev pub address : Option ℕ → ℕ
address none = 0
address (some p) = p

-- What `goScreamCallback` comes to. In none of the cases is `onPacket` called.
pub data Callback : Type 0 where
  not_found no_callback dropped ignored : Callback

abbrev pub callback_of : Sender → ℕ → Callback
callback_of s status =
    if s.has_callback then (if status == 0 then dropped else ignored) else no_callback

module _ {S : Type 0} where
  -- `senderRegistry[cbData]`.
  unfoldable pub find_sender : ℕ → World S → Option ℕ
  find_sender cb w = lookup cb w.registry

  unfoldable pub go_scream_callback : ℕ → ℕ → World S → Callback
  unfolding find_sender
  go_scream_callback cb status w = elim (find_sender cb w) [
    | none ↦ not_found
    | some i ↦ elim (get_elem? w.senders i) [ none ↦ not_found | some s ↦ callback_of s status ]
  ]

  module _ (api : Api S) where
    unfoldable pub new_sender : ℕ → List ℕ → Bool → World S → ℕ × World S
    new_sender ssrc args has_callback w =
        let (p, c) = api.malloc 1 w.c in
        let i = length w.senders in
        (
          i,
          record {
            registry = insert p i w.registry;
            senders =
                w.senders
                ++ (record { ssrc = ssrc; has_callback = has_callback; cb_data = some p } ∷ []);
            c = api.init ssrc args p c;
          },
        )

    -- `none` is the panic of `&rtpData[0]` on an empty slice.
    unfoldable pub push : Sender → List ℕ → ℕ → ℕ → ℕ → Bool → S → Option S
    push s [] seq payload_type timestamp marker c = none
    push s (b ∷ bytes) seq payload_type timestamp marker c =
        some (
          api.sender_push (b ∷ bytes) seq payload_type timestamp s.ssrc (if marker then 1 else 0) c)

    -- Likewise.
    unfoldable pub process_rtcp_feedback : List ℕ → S → Option (Bool × S)
    process_rtcp_feedback [] c = none
    process_rtcp_feedback (b ∷ bytes) c =
        let (result, c') = api.rtcp_push (b ∷ bytes) c in
        some (if result == 0 then false else true, c')

    unfoldable pub get_target_rate : Sender → S → (ℕ × Bool) × S
    get_target_rate s c =
        let ((rate, force_idr), c') = api.target_rate s.ssrc c in
        ((rate, if force_idr == 0 then false else true), c')

    -- `format` is the `Sprintf` of the two limits.
    unfoldable pub update_bitrate_limits : (ℕ → ℕ → List ℕ) → Sender → ℕ → ℕ → S → S
    update_bitrate_limits format s low high c = api.plugin_update s.ssrc (format low high) c

    -- `Stats`, with the panic of `statsBuf[:statsLen]` beyond the buffer.
    unfoldable pub stats : Sender → Bool → S → Option (List ℕ) × S
    stats s clear c =
        let ((buf, len), c') = api.sender_stats 2048 s.ssrc (if clear then 1 else 0) c in
        (if leb len 2048 then some (take len buf) else none, c')

    -- Likewise.
    unfoldable pub stats_header : S → Option (List ℕ) × S
    stats_header c =
        let ((buf, len), c') = api.sender_stats_header 1024 c in
        (if leb len 1024 then some (take len buf) else none, c')

    -- What Close frees.
    abbrev pub release : Option ℕ → S → S
    release none c = c
    release (some p) c = api.free p c

    -- `Close` of the sender `i`.
    unfoldable pub close_sender : ℕ → World S → World S
    close_sender i w = elim (get_elem? w.senders i) [
      | none ↦ w
      | some s ↦ record {
        registry = delete (address s.cb_data) w.registry;
        senders = modify i (λ (t : Sender). record t { cb_data = none }) w.senders;
        c = release s.cb_data w.c;
      }
    ]
