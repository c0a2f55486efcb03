-- ===== src/Webrtc/Program/Tests.antt =====
-- The whole sender against the endpoint, over the state of the tests of the set-up.
use l4s_poc.Base.{
  ℕ, suc, ◌/◌, ◌*◌, ◌++◌, ◌≡◌, refl, List, [], ◌∷◌, false, Option, none, some, length, arith, ltb,
}
use l4s_poc.Base.Int.{ℤ, pos, negsuc, pos_part}
use l4s_poc.Base.Words.{i64}
use l4s_poc.Io.{IoError, feed, Stream}
use l4s_poc.Nal.{NalUnit}
use l4s_poc.AnnexB.{new_reader}
use l4s_poc.AnnexB.Drain.{drain}
use l4s_poc.Rtp.{Packet}
use l4s_poc.Floats.{Floats}
use l4s_poc.SideChannel.{new_channel}
use l4s_poc.Summary.{final_summary}
use l4s_poc.QuicSend.Frames.{payload_bytes}
use l4s_poc.Webrtc.States.{Branch}
use l4s_poc.Webrtc.Whip.{handle, negotiate}
use l4s_poc.Webrtc.Offer.{Posted, proceeds, sends, set_up, establish, prepare, make_offer, exchange}
use l4s_poc.Webrtc.Offer.Join.{whip_post}
use l4s_poc.Webrtc.Offer.Tests.{Scene, new_scene, offerer, pion, flags}
use l4s_poc.Webrtc.Program.{frame_duration, prints, panics, main}
use l4s_poc.Webrtc.Program.Counts.{main-prints}

abbrev floats : Floats ℕ
floats = record {
  of_int = pos_part;
  seconds = λ d. pos_part d / 1_000_000_000;
  quotient = λ a b. a / b;
  product = λ a b. a * b;
  is_positive = ltb 0;
}

-- A parameter set of 2 bytes and a slice of 3.
abbrev input : Stream
input = feed (0 ∷ 0 ∷ 1 ∷ 103 ∷ 66 ∷ 0 ∷ 0 ∷ 1 ∷ 101 ∷ 8 ∷ 9 ∷ []) []

abbrev payload : ℕ → List ℕ → ℕ → List (List ℕ) × ℕ
payload size bytes calls = (bytes ∷ [], suc calls)

abbrev write_rtp : ℕ → Scene → Packet → Option IoError × Scene
write_rtp track w k = (none, record w { sizes = w.sizes ++ (length k.payload ∷ []) })

abbrev post : List ℕ → List ℕ → Scene → Posted × Scene
post = whip_post (offerer (5 ∷ [])) pion [] []

abbrev second : ℤ
second = pos 1_000_000_000

abbrev ready_scene : Scene
ready_scene = (set_up (offerer (5 ∷ [])) post flags Branch.goes_on new_scene).1

ready :
    set_up (offerer (5 ∷ [])) post flags Branch.goes_on new_scene
    ≡ (proceeds (sends 1 7), ready_scene)
unfolding set_up establish prepare make_offer exchange handle negotiate
ready = refl

not_zero : ¬ (pos 30 ≡ pos 0)
not_zero e = cc

-- 30 and -30 frames in a second.
frame_duration_test :
    (frame_duration (pos 30) ≡ some 33) × (frame_duration (negsuc 29) ≡ some 4_294_967_263)
unfolding frame_duration
frame_duration_test = (refl, refl)

main-prints_example :
    (out : List NalUnit × IoError) × (end : Scene) × (drain 13 (new_reader input) ≡ some out)
    × (main
          (offerer (5 ∷ []))
          post
          payload
          0
          write_rtp
          floats
          flags
          (pos 30)
          Branch.goes_on
          (λ _. false)
          input
          13
          second
          second
          (new_channel (pos 0))
          new_scene
        ≡ (
          prints (
              final_summary floats
                (i64 (pos (payload_bytes out.0)))
                second
                second
                (new_channel (pos 0))),
          (offerer (5 ∷ [])).close 1 end,
        ))
main-prints_example =
    main-prints (offerer (5 ∷ [])) post payload 0 write_rtp floats flags (pos 30) Branch.goes_on
      input 13 second second (new_channel (pos 0)) new_scene ready_scene 1 7 not_zero ready
      (omega arith)

-- With a frame rate of 0 the division panics.
rate_zero :
    (main
      (offerer (5 ∷ []))
      post
      payload
      0
      write_rtp
      floats
      flags
      (pos 0)
      Branch.goes_on
      (λ _. false)
      input
      13
      second
      second
      (new_channel (pos 0))
      new_scene).0
    ≡ panics
unfolding main frame_duration set_up establish prepare make_offer exchange handle negotiate
rate_zero = refl
