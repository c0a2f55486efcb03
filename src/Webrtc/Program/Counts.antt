-- ===== src/Webrtc/Program/Counts.antt =====
-- What the summary at the end says of the bytes sent.
use l4s_poc.Base.{
  ℕ, zero, suc, ◌+◌, ◌<◌, ◌≡◌, refl, ap, ◌∙◌, List, [], ◌∷◌, false, Option, some, arith, length,
}
use l4s_poc.Base.Int.{ℤ, pos, negsuc, ◌+ℤ◌}
use l4s_poc.Base.Words.{i64}
use l4s_poc.Io.{IoError, Stream}
use l4s_poc.Nal.{NalUnit}
use l4s_poc.AnnexB.{new_reader}
use l4s_poc.AnnexB.Sound.{new_reader-IsValid, remaining-new_reader}
use l4s_poc.AnnexB.Drain.{drain}
use l4s_poc.Rtp.{Packet}
use l4s_poc.Floats.{Floats}
use l4s_poc.SideChannel.{Channel}
use l4s_poc.Summary.{final_summary}
use l4s_poc.QuicSend.Frames.{payload_bytes, count_up}
use l4s_poc.Webrtc.{Sender, send_unit}
use l4s_poc.Webrtc.Sending.{send_units, send_loop-send_units}
use l4s_poc.Webrtc.States.{Branch}
use l4s_poc.Webrtc.Offer.{Flags, Offerer, Posted, proceeds, sends, set_up}
use l4s_poc.Webrtc.Program.{
  frame_duration, prints, new_sender, finish, send_input, after_set_up, main,
}

frame_duration-some : (fps : ℤ) → ¬ (fps ≡ pos 0) → (ms : ℕ) × (frame_duration fps ≡ some ms)
unfolding frame_duration
frame_duration-some (pos zero) h = absurd (h refl)
frame_duration-some (pos (suc n)) h = (_, refl)
frame_duration-some (negsuc n) h = (_, refl)

start_total : pos 0 ≡ i64 (pos 0)
unfolding i64
start_total = refl

module _ {S Y : Type 0} (payload : ℕ → List ℕ → Y → List (List ℕ) × Y)
    (write_rtp : S → Packet → Option IoError × S) (ms : ℕ) where
  send_units-total :
      (ns : List NalUnit) (st : Sender Y S) (b : ℕ)
      → st.total_bytes ≡ i64 (pos b)
      → (send_units payload write_rtp ms ns st).total_bytes ≡ i64 (pos (b + payload_bytes ns))
  unfolding send_unit
  send_units-total [] st b e = e ∙ ap (λ n. i64 (pos n)) (omega arith)
  send_units-total (n ∷ ns) st b e =
      send_units-total ns (send_unit payload write_rtp ms n st) (b + length n.payload)
        (ap (λ t. i64 (t +ℤ pos (length n.payload))) e ∙ count_up b (length n.payload))
      ∙ ap (λ k. i64 (pos k)) (omega arith)

  new_sender-total :
      (payloader : Y) (ns : List NalUnit) (input : Stream) (s : S)
      → (send_units payload write_rtp ms ns (new_sender payloader input s)).total_bytes
        ≡ i64 (pos (payload_bytes ns))
  new_sender-total payloader ns input s =
      send_units-total ns (new_sender payloader input s) 0 start_total
      ∙ ap (λ k. i64 (pos k)) (omega arith)

module _ {S P T Y F : Type 0} (o : Offerer S P T) (post : List ℕ → List ℕ → S → Posted × S)
    (payload : ℕ → List ℕ → Y → List (List ℕ) × Y) (payloader : Y)
    (write_rtp : T → S → Packet → Option IoError × S) (f : Floats F) where
  -- Where webrtc-send comes to send, with a frame rate that is not 0 and no signal, it gets through any
  -- input, with the fuel that its bytes ask for, whatever the track answers: it prints a summary, whose
  -- bytes sent are those of the units that AnnexBReader reads from the input, as an int64, and it closes
  -- its connection.
  pub main-prints :
      (flags : Flags) (fps : ℤ) (branch : Branch) (input : Stream) (fuel : ℕ)
      (elapsed since_start : ℤ) (c : Channel F) (s s' : S) (pc : P) (track : T)
      → ¬ (fps ≡ pos 0)
      → set_up o post flags branch s ≡ (proceeds (sends pc track), s')
      → length input + 1 < fuel
      → (out : List NalUnit × IoError) × (end : S) × (drain fuel (new_reader input) ≡ some out)
        × (main o post payload payloader write_rtp f flags fps branch
              (λ _. false)
              input
              fuel
              elapsed
              since_start
              c
              s
            ≡ (
              prints (final_summary f (i64 (pos (payload_bytes out.0))) elapsed since_start c),
              o.close pc end,
            ))
  unfolding main
  main-prints flags fps branch input fuel elapsed since_start c s s' pc track rate ready enough =
      let st = new_sender payloader input s' in
      let (ms, lasts) = frame_duration-some fps rate in
      let (out, r, read, sent) =
        send_loop-send_units payload (write_rtp track) ms fuel 0 st (new_reader-IsValid input)
          (rw (remaining-new_reader input) enough) in
      let last = send_units payload (write_rtp track) ms out.0 st in
      (
        out,
        last.track,
        read,
        ap
              (after_set_up o post payload payloader write_rtp f (λ pc track.
                send_input o post payload payloader write_rtp f (λ _. false) input fuel elapsed
                  since_start c pc track (frame_duration fps)))
              ready
            ∙ ap
                (λ d.
                  send_input o post payload payloader write_rtp f (λ _. false) input fuel elapsed
                    since_start c pc track d s')
                lasts
            ∙ ap (finish o post payload payloader write_rtp f elapsed since_start c pc s') sent
            ∙ ap (λ b. (prints (final_summary f b elapsed since_start c), o.close pc last.track))
                (new_sender-total payload (write_rtp track) ms payloader out.0 input s'),
      )
