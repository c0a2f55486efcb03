-- ===== src/Webrtc/Program.antt =====
-- cmd/webrtc-send/main.go as a whole: the set-up of Webrtc.Offer, the sending loop of Webrtc, and the
-- end of `main`, lines 537 to 605, with the summary and the deferred `pc.Close()`. One state `S` is
-- that of pion and of all that it keeps; the side channel's counters when the summary is made are an
-- argument, and so are the times.
pub mod Counts
mod Tests
use l4s_poc.Base.{ℕ, zero, suc, ◌-◌, ◌/◌, ◌%◌, ◌^◌, Bool, List, Option, none, some}
use l4s_poc.Base.Int.{ℤ, pos, negsuc}
use l4s_poc.Io.{IoError, Stream}
use l4s_poc.AnnexB.{new_reader}
use l4s_poc.Rtp.{Packet, Packetizer, new_packetizer}
use l4s_poc.Floats.{Floats}
use l4s_poc.SideChannel.{Channel}
use l4s_poc.Summary.{Summary, final_summary}
use l4s_poc.Webrtc.{Sender, Stop, send_loop}
use l4s_poc.Webrtc.States.{Branch}
use l4s_poc.Webrtc.Offer.{
  Flags, Offerer, Posted, Failure, Setup, proceeds, dies, Ending, sends, leaves, set_up,
}

-- `uint32(1000 / *framerate)`, where a quotient is cut off towards 0 and a negative one wraps; a rate
-- of 0 panics.
unfoldable pub frame_duration : ℤ → Option ℕ
frame_duration (pos zero) = none
frame_duration (pos (suc n)) = some (1000 / suc n)
frame_duration (negsuc n) = some ((2 ^ 32 - 1000 / suc n) % 2 ^ 32)

-- How the process ends.
pub data Exit (F : Type 0) : Type 0 where
  fails : Failure → Exit F
  leaves_early panics out_of_fuel : Exit F
  prints : Summary F → Exit F

-- The variables before the loop.
abbrev pub new_sender : {S P : Type 0} → P → Stream → S → Sender P S
new_sender payloader input s = record {
  reader = new_reader input;
  packetizer = new_packetizer payloader 0x12345678 1200;
  track = s;
  nal_count = pos 0;
  total_bytes = pos 0;
}

module _ {S P T Y F : Type 0} (o : Offerer S P T) (post : List ℕ → List ℕ → S → Posted × S)
    (payload : ℕ → List ℕ → Y → List (List ℕ) × Y) (payloader : Y)
    (write_rtp : T → S → Packet → Option IoError × S) (f : Floats F) where
  -- From the label `finish` on.
  abbrev pub finish : ℤ → ℤ → Channel F → P → S → Option (Stop × Sender Y S) → Exit F × S
  finish elapsed since_start c pc s none = (out_of_fuel, s)
  finish elapsed since_start c pc s (some (why, st)) =
      (prints (final_summary f st.total_bytes elapsed since_start c), o.close pc st.track)

  abbrev pub send_input :
      (ℕ → Bool) → Stream → ℕ → ℤ → ℤ → Channel F → P → T → Option ℕ → S → Exit F × S
  send_input signalled input fuel elapsed since_start c pc track none s = (panics, o.close pc s)
  send_input signalled input fuel elapsed since_start c pc track (some ms) s =
      finish elapsed since_start c pc s
        (send_loop payload (write_rtp track) ms signalled fuel 0 (new_sender payloader input s))

  abbrev pub after_set_up : (P → T → S → Exit F × S) → Setup (Ending P T) × S → Exit F × S
  after_set_up go_on (dies why, s) = (fails why, s)
  after_set_up go_on (proceeds leaves, s) = (leaves_early, s)
  after_set_up go_on (proceeds (sends pc track), s) = go_on pc track s

  unfoldable pub main :
      Flags → ℤ → Branch → (ℕ → Bool) → Stream → ℕ → ℤ → ℤ → Channel F → S → Exit F × S
  main flags fps branch signalled input fuel elapsed since_start c s =
      after_set_up
        (λ pc track.
          send_input signalled input fuel elapsed since_start c pc track (frame_duration fps))
        (set_up o post flags branch s)
