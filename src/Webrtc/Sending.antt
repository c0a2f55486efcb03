-- ===== src/Webrtc/Sending.antt =====
-- What the sending loop of webrtc-send does with its input, whatever the track answers.
use mathlib.Core.Option
use l4s_poc.Base.{
  ℕ, zero, suc, ◌+◌, ◌<◌, ◌≡◌, refl, ap, ◌∙◌, List, [], ◌∷◌, false, ◌⊎◌, inl, inr, Option, some,
  arith,
}
use l4s_poc.Io.{IoError, eof, unexpected_eof, fault}
use l4s_poc.Nal.{NalUnit}
use l4s_poc.AnnexB.{Reader, ReadResult, got, stopped, read_nal}
use l4s_poc.AnnexB.Sound.{IsValid, Holds, remaining, read_nal_lem, read_nal-remaining}
use l4s_poc.AnnexB.Drain.{drain, prepend, drain-got, drain-stop}
use l4s_poc.Rtp.{Packet}
use l4s_poc.Webrtc.{
  Sender, Stop, input_ended, input_error, Round, stop, resume, send_unit, on_read, send_loop,
}

-- Why the loop stops on this error of the reader.
abbrev pub why_stopped : IoError → Stop
why_stopped eof = input_ended
why_stopped unexpected_eof = input_error unexpected_eof
why_stopped (fault e) = input_error (fault e)

module _ {P W : Type 0} (payload : ℕ → List ℕ → P → List (List ℕ) × P)
    (write_rtp : W → Packet → Option IoError × W) (frame_duration_ms : ℕ) where
  -- The sending loop's body, for these units in turn.
  abbrev pub send_units : List NalUnit → Sender P W → Sender P W
  send_units [] st = st
  send_units (n ∷ ns) st = send_units ns (send_unit payload write_rtp frame_duration_ms n st)

  abbrev quiet_loop : ℕ → ℕ → Sender P W → Option (Stop × Sender P W)
  quiet_loop = send_loop payload write_rtp frame_duration_ms (λ _. false)

  abbrev on_result : Sender P W → ReadResult × Reader → Round P W
  on_result = on_read payload write_rtp frame_duration_ms

  -- The body does not look at the reader.
  send_units-reader :
      (ns : List NalUnit) (st : Sender P W) (r r' : Reader)
      → record (send_units ns (record st { reader = r })) { reader = r' }
        ≡ record (send_units ns st) { reader = r' }
  unfolding send_unit
  send_units-reader [] st r r' = refl
  send_units-reader (n ∷ ns) st r r' =
      send_units-reader ns (send_unit payload write_rtp frame_duration_ms n st) r r'

  on_result-stopped :
      (st : Sender P W) (r : Reader) (e : IoError)
      → on_result st (stopped e, r) ≡ stop (why_stopped e) (record st { reader = r })
  unfolding on_read
  on_result-stopped st r eof = refl
  on_result-stopped st r unexpected_eof = refl
  on_result-stopped st r (fault e) = refl

  -- The loop's end: the units that were read, and what became of them.
  abbrev Sent : ℕ → ℕ → Sender P W → Type 0
  Sent f k st =
      (out : List NalUnit × IoError) × (r : Reader) × (drain f st.reader ≡ some out)
      × (quiet_loop f k st ≡ some (why_stopped out.1, record (send_units out.0 st) { reader = r }))

  Sent-none :
      (f k : ℕ) (st : Sender P W) (r : Reader) (e : IoError)
      → read_nal st.reader ≡ (stopped e, r)
      → Sent (suc f) k st
  unfolding send_loop
  Sent-none f k st r e eq = (
    ([], e),
    r,
    drain-stop f st.reader r e eq,
    ap (λ p. resume (quiet_loop f (k + 1)) (on_result st p)) eq
        ∙ ap (resume (quiet_loop f (k + 1))) (on_result-stopped st r e),
  )

  Sent-more :
      (f k : ℕ) (st : Sender P W) (r : Reader) (n : NalUnit)
      → read_nal st.reader ≡ (got n, r)
      → Sent f (k + 1) (send_unit payload write_rtp frame_duration_ms n (record st { reader = r }))
      → Sent (suc f) k st
  unfolding send_loop on_read send_unit
  Sent-more f k st r n eq (out, last, run, loop) = (
    (n ∷ out.0, out.1),
    last,
    drain-got f st.reader r n eq ∙ ap (Option.map (prepend n)) run,
    ap (λ p. resume (quiet_loop f (k + 1)) (on_result st p)) eq
        ∙ loop
        ∙ ap (λ (s : Sender P W). some (why_stopped out.1, s))
            (send_units-reader out.0 (send_unit payload write_rtp frame_duration_ms n st) r last),
  )

  -- The sending loop of webrtc-send, with no signal, ends on any input, in as many rounds as the
  -- reader has bytes, errors and its end left, and one more. By then its body has run once for each
  -- of just the units that AnnexBReader reads from the input, in order, whatever the track answered
  -- to its packets; the loop stops for the reader's last answer only.
  pub send_loop-send_units :
      (f k : ℕ) (st : Sender P W)
      → IsValid st.reader
      → remaining st.reader < f
      → (out : List NalUnit × IoError) × (r : Reader) × (drain f st.reader ≡ some out)
        × (send_loop payload write_rtp frame_duration_ms (λ _. false) f k st
            ≡ some (why_stopped out.1, record (send_units out.0 st) { reader = r }))
  unfolding send_unit
  send_loop-send_units zero k st v h = elim h [ ]
  send_loop-send_units (suc f) k st v h =
      go (read_nal st.reader) refl (read_nal_lem st.reader v) (read_nal-remaining st.reader v)
        (λ s. send_loop-send_units f (k + 1) s)
    where
      go :
          (p : ReadResult × Reader)
          → read_nal st.reader ≡ p
          → Holds p
          → (p.0 ≡ stopped eof) ⊎ (remaining p.1 < remaining st.reader)
          → ((s : Sender P W) → IsValid s.reader → remaining s.reader < f → Sent f (k + 1) s)
          → Sent (suc f) k st
      go (stopped x, r) e ok less rec = Sent-none f k st r x e
      go (got n, r) e ok (inl end) rec = cc
      go (got n, r) e ok (inr less) rec = Sent-more f k st r n e (
          rec (send_unit payload write_rtp frame_duration_ms n (record st { reader = r })) ok.1
            (omega arith))
