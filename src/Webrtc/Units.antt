-- ===== src/Webrtc/Units.antt =====
-- What the track handler of webrtc-recv makes of the packets of one unit.
use l4s_poc.Base.{
  ℕ, ◌+◌, ◌<◌, ◌≡◌, refl, sym, ap, ◌∙◌, List, [], ◌∷◌, ◌++◌, append-nil, append_assoc, map, true,
  false, Option, some, arith, length, lt→ltb,
}
use l4s_poc.Base.Int.{pos}
use l4s_poc.Base.Words.{i64}
use l4s_poc.Nal.{NalUnit, start_code}
use l4s_poc.AnnexB.{write_nal}
use l4s_poc.AnnexB.RoundTrip.{append_write}
use l4s_poc.QuicSend.Frames.{count_up}
use l4s_poc.Rtp.{Packet}
use l4s_poc.Rtp.Packets.{last_only}
use l4s_poc.Webrtc.{Receiver, write_buffer, flush_buffer, accumulate, on_packet, on_packets}

-- A receiver between two units, which has written `a` of them, of `b` bytes.
abbrev pub between : {D W : Type 0} → D → W → ℕ → ℕ → Receiver D W
between d w a b = record {
  depacketizer = d;
  nal_buffer = [];
  out = w;
  nal_count = i64 (pos a);
  total_bytes = i64 (pos b);
}

-- What the receiver writes for these units, where the depacketizer puts `prefix` before each.
abbrev pub rewritten : List ℕ → List NalUnit → List ℕ
rewritten prefix [] = []
rewritten prefix (n ∷ ns) = (start_code ++ (prefix ++ n.payload)) ++ rewritten prefix ns

abbrev pub rewritten_bytes : List ℕ → List NalUnit → ℕ
rewritten_bytes prefix [] = 0
rewritten_bytes prefix (n ∷ ns) = length (prefix ++ n.payload) + rewritten_bytes prefix ns

module _ {D : Type 0} (unmarshal : List ℕ → D → Option (List ℕ) × D) where
  -- From the state `d`, these payloads are taken one after the other, and hold these bytes.
  abbrev pub Gathers : List (List ℕ) → D → List ℕ → D → Type 0
  Gathers [] d bytes d' = (bytes ≡ []) × (d' ≡ d)
  Gathers (x ∷ xs) d bytes d' =
      (b : List ℕ) × (e : D) × (rest : List ℕ) × (unmarshal x d ≡ (some b, e))
      × (bytes ≡ b ++ rest)
      × Gathers xs e rest d'

  abbrev quiet_packet : Packet → Receiver D (List ℕ) → Receiver D (List ℕ)
  quiet_packet = on_packet unmarshal append_write

  abbrev quiet_packets : List Packet → Receiver D (List ℕ) → Receiver D (List ℕ)
  quiet_packets = on_packets unmarshal append_write

  on_packet-inner :
      (k : Packet) (st : Receiver D (List ℕ)) (b : List ℕ) (e : D)
      → unmarshal k.payload st.depacketizer ≡ (some b, e)
      → k.marker ≡ false
      → quiet_packet k st ≡ record st { depacketizer = e; nal_buffer = st.nal_buffer ++ b }
  unfolding on_packet accumulate
  on_packet-inner k st b e read marker =
      ap (accumulate unmarshal append_write k.marker st) read ∙ rw marker refl

  on_packet-last :
      (k : Packet) (st : Receiver D (List ℕ)) (b : List ℕ) (e : D)
      → unmarshal k.payload st.depacketizer ≡ (some b, e)
      → k.marker ≡ true
      → 0 < length (st.nal_buffer ++ b)
      → quiet_packet k st
        ≡ write_buffer unmarshal append_write
            (record st { depacketizer = e; nal_buffer = st.nal_buffer ++ b })
  unfolding on_packet accumulate flush_buffer
  on_packet-last k st b e read marker some_byte =
      ap (accumulate unmarshal append_write k.marker st) read
      ∙ rw (marker, lt→ltb 0 (length (st.nal_buffer ++ b)) some_byte) refl

  -- The packets of one unit: it is written when the last has come.
  pub on_packets-unit :
      (ks : List Packet) (st : Receiver D (List ℕ)) (bytes : List ℕ) (d' : D)
      → Gathers (map (λ (k : Packet). k.payload) ks) st.depacketizer bytes d'
      → map (λ (k : Packet). k.marker) ks ≡ last_only (length ks)
      → 0 < length ks
      → 0 < length (st.nal_buffer ++ bytes)
      → quiet_packets ks st
        ≡ write_buffer unmarshal append_write
            (record st { depacketizer = d'; nal_buffer = st.nal_buffer ++ bytes })
  unfolding on_packets
  on_packets-unit [] st bytes d' g marks some_packet some_byte = elim some_packet [ ]
  on_packets-unit (k ∷ []) st bytes d' (b, e, rest, read, joined, (ended, same)) marks some_packet
        some_byte =
      let whole : bytes ≡ b = joined ∙ ap (◌++◌ b) ended ∙ append-nil b in
      let enough : 0 < length (st.nal_buffer ++ b) = rw (sym whole) some_byte in
      on_packet-last k st b e read (cc) enough ∙ (λ i.
        write_buffer unmarshal append_write
          (record st { depacketizer = sym same i; nal_buffer = st.nal_buffer ++ sym whole i }))
  on_packets-unit (k ∷ l ∷ ks) st bytes d' (b, e, rest, read, joined, g) marks some_packet
        some_byte =
      let all : (st.nal_buffer ++ b) ++ rest ≡ st.nal_buffer ++ bytes =
        append_assoc st.nal_buffer b rest ∙ ap (◌++◌ st.nal_buffer) (sym joined) in
      let some_more : 0 < length (l ∷ ks) = omega arith in
      let inner : k.marker ≡ false = cc in
      let others : map (λ (k : Packet). k.marker) (l ∷ ks) ≡ last_only (length (l ∷ ks)) = cc in
      let some_byte' : 0 < length ((st.nal_buffer ++ b) ++ rest) = rw all some_byte in
      ap (quiet_packets (l ∷ ks)) (on_packet-inner k st b e read inner)
      ∙ on_packets-unit (l ∷ ks) (record st { depacketizer = e; nal_buffer = st.nal_buffer ++ b })
          rest d' g others some_more some_byte'
      ∙ (λ i.
          write_buffer unmarshal append_write (record st { depacketizer = d'; nal_buffer = all i }))

  pub write_buffer-between :
      (d : D) (w : List ℕ) (a b : ℕ) (bytes : List ℕ)
      → write_buffer unmarshal append_write (record (between d w a b) { nal_buffer = bytes })
        ≡ between d (w ++ (start_code ++ bytes)) (a + 1) (b + length bytes)
  unfolding write_buffer write_nal
  write_buffer-between d w a b bytes = λ i. record {
    depacketizer = d;
    nal_buffer = [];
    out = append_assoc w start_code bytes i;
    nal_count = count_up a 1 i;
    total_bytes = count_up b (length bytes) i;
  }

  pub on_packets-append :
      (ks ls : List Packet) (st : Receiver D (List ℕ))
      → quiet_packets (ks ++ ls) st ≡ quiet_packets ls (quiet_packets ks st)
  unfolding on_packets
  on_packets-append [] ls st = refl
  on_packets-append (k ∷ ks) ls st = on_packets-append ks ls (quiet_packet k st)
