-- ===== src/SideChannel/Messages.antt =====
-- The handlers of the two senders against one another.
use l4s_poc.Base.{
  ℕ, ◌<◌, ◌≡◌, refl, sym, ap, ◌∙◌, List, [], ◌∷◌, Option, none, some, All, length, lt→ltb,
}
use l4s_poc.Base.Int.{ℤ, pos, ◌+ℤ◌, ◌-ℤ◌}
use l4s_poc.Base.Words.{i64}
use l4s_poc.SideChannel.{
  BandwidthStats, Channel, Latency, Sequence, track_latency, track_seq, on_stats, on_datagram,
  on_message, on_datagrams, on_messages,
}

-- What the summaries read of the side channel, but for the time.
abbrev pub Counters : Type 0 → Type 0
Counters F = ℤ × ℤ × Option (BandwidthStats F) × Latency × Sequence

module _ {F : Type 0} where
  abbrev pub counters : Channel F → Counters F
  counters c = (c.bytes_recv, c.count, c.last_recv_stats, c.latency, c.sequence)

  -- One message, on the counters alone.
  abbrev received : Option (BandwidthStats F) → ℤ → ℕ → Counters F → Counters F
  received none now n (bytes, count, last, latency, sequence) =
      (i64 (bytes +ℤ pos n), i64 (count +ℤ pos 1), last, latency, sequence)
  received (some stats) now n (bytes, count, last, latency, sequence) = (
    i64 (bytes +ℤ pos n),
    i64 (count +ℤ pos 1),
    some stats,
    track_latency (i64 (now -ℤ stats.timestamp)) latency,
    track_seq stats.seq sequence,
  )

  module _ (parse : List ℕ → Option (BandwidthStats F)) where
    on_message-received :
        (now : ℤ) (d : List ℕ) (c : Channel F) (m : Option (BandwidthStats F))
        → parse d ≡ m
        → counters (on_message parse now d c) ≡ received m now (length d) (counters c)
    unfolding on_message on_stats
    on_message-received now d c none is = rw (is, on_message) refl
    on_message-received now d c (some stats) is = rw (is, on_message) refl

    on_datagram-received :
        (now : ℤ) (d : List ℕ) (c : Channel F) (m : Option (BandwidthStats F))
        → 0 < length d
        → parse d ≡ m
        → counters (on_datagram parse now d c) ≡ received m now (length d) (counters c)
    unfolding on_datagram on_stats
    on_datagram-received now d c none some_bytes is = rw (lt→ltb 0 (length d) some_bytes, is) refl
    on_datagram-received now d c (some stats) some_bytes is =
        rw (lt→ltb 0 (length d) some_bytes, is) refl

    -- The message handler of webrtc-send and the datagram handler of quic-send do the same to the
    -- counters: where theirs are the same, and the same messages arrive, none of them empty, they are
    -- the same afterwards.
    pub on_messages-on_datagrams :
        (xs : List (ℤ × List ℕ)) (c d : Channel F)
        → All (λ x. 0 < length x.1) xs
        → counters c ≡ counters d
        → counters (on_messages parse xs c) ≡ counters (on_datagrams parse xs d)
    unfolding on_messages on_datagrams
    on_messages-on_datagrams [] c d h same = same
    on_messages-on_datagrams ((now, b) ∷ xs) c d h same =
        on_messages-on_datagrams xs (on_message parse now b c) (on_datagram parse now b d) h.1 (
          on_message-received now b c (parse b) refl
          ∙ ap (received (parse b) now (length b)) same
          ∙ sym (on_datagram-received now b d (parse b) h.0 refl))
