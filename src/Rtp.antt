-- ===== src/Rtp.antt =====
-- RTPPacketizer and RTPDepacketizer, pkg/h264/rtp.go. The payloader, the unmarshaller and the
-- partition head checker of github.com/pion/rtp/codecs are parameters.
pub mod Packets
pub mod Timestamp
mod Tests
use l4s_poc.Base.{
  ℕ, suc, ◌+◌, ◌-◌, ◌*◌, ◌%◌, ◌^◌, List, [], ◌∷◌, Bool, true, false, Option, none, some, ◌==◌,
  if◌then◌else◌, length,
}
use l4s_poc.Base.Words.{u16, u32}
use l4s_poc.Nal.{NalUnit, is_keyframe}

abbrev pub default_mtu : ℕ
default_mtu = 1200

-- `rtp.Packet` with its header.
pub record Packet : Type 0 where
  pub version : ℕ
  pub padding : Bool
  pub extension : Bool
  pub marker : Bool
  pub payload_type : ℕ
  pub sequence_number : ℕ
  pub timestamp : ℕ
  pub ssrc : ℕ
  pub payload : List ℕ

-- `P` is the state of the payloader.
pub record Packetizer (P : Type 0) : Type 0 where
  pub payloader : P
  pub mtu : ℕ
  pub ssrc : ℕ
  pub seq_num : ℕ
  pub timestamp : ℕ
  pub clock_rate : ℕ

module _ {P : Type 0} where
  -- `payloader` is the fresh H264Payloader with DisableStapA set.
  unfoldable pub new_packetizer : P → ℕ → ℕ → Packetizer P
  new_packetizer payloader ssrc mtu = record {
    payloader = payloader;
    mtu = if mtu == 0 then default_mtu else mtu;
    ssrc = ssrc;
    seq_num = 0;
    timestamp = 0;
    clock_rate = 90000;
  }

  unfoldable pub set_sequence_number : ℕ → Packetizer P → Packetizer P
  set_sequence_number n p = record p { seq_num = n }

  unfoldable pub set_timestamp : ℕ → Packetizer P → Packetizer P
  set_timestamp t p = record p { timestamp = t }

  unfoldable pub next_timestamp : ℕ → Packetizer P → Packetizer P
  next_timestamp ms p = record p { timestamp = u32 (p.timestamp + u32 (ms * 90)) }

  -- The packet that the loop of Packetize and PacketizeRaw makes of one payload.
  unfoldable pub packet : Packetizer P → Bool → List ℕ → Packet
  packet p marker payload = record {
    version = 2;
    padding = false;
    extension = false;
    marker = marker;
    payload_type = 96;
    sequence_number = p.seq_num;
    timestamp = p.timestamp;
    ssrc = p.ssrc;
    payload = payload;
  }

  -- The loop, from index `i` on, over `n` payloads in all.
  unfoldable pub packets_from : ℕ → ℕ → List (List ℕ) → Packetizer P → List Packet × Packetizer P
  unfolding packet
  packets_from i n [] p = ([], p)
  packets_from i n (payload ∷ payloads) p =
      let (rest, p') =
        packets_from (i + 1) n payloads (record p { seq_num = u16 (p.seq_num + 1) }) in
      (packet p (i == (n - 1)) payload ∷ rest, p')

  -- `p.payloader.Payload(mtu, data)`.
  module _ (payload : ℕ → List ℕ → P → List (List ℕ) × P) where
    unfoldable pub packetize_raw : List ℕ → Packetizer P → List Packet × Packetizer P
    unfolding packets_from
    packetize_raw bytes p =
        let (payloads, payloader) = payload (u16 (p.mtu + 2 ^ 16 - 12)) bytes p.payloader in
        packets_from 0 (length payloads) payloads (record p { payloader = payloader })

    unfoldable pub packetize : NalUnit → Packetizer P → (List Packet × Bool) × Packetizer P
    unfolding packets_from
    packetize n p =
        let (payloads, payloader) = payload (u16 (p.mtu + 2 ^ 16 - 12)) n.payload p.payloader in
        let (packets, p') =
          packets_from 0 (length payloads) payloads (record p { payloader = payloader }) in
        ((packets, is_keyframe n), p')

-- `D` is the state of the H264Packet, `unmarshal` its method; `none` stands for its error.
module _ {D : Type 0} (unmarshal : List ℕ → D → Option (List ℕ) × D) where
  unfoldable pub depacketize : Packet → D → Option (List ℕ × Bool) × D
  depacketize p d =
      let (res, d') = unmarshal p.payload d in
      elim res [ none ↦ (none, d') | some bytes ↦ (some (bytes, p.marker), d') ]

unfoldable pub is_partition_head : (List ℕ → Bool) → Packet → Bool
is_partition_head checker p = checker p.payload
