-- ===== src/QuicSend/Ends.antt =====
-- The sending loop over any connection, whatever its writes answer.
use l4s_poc.Base.{
  ℕ, zero, suc, ◌+◌, ◌<◌, ◌≡◌, refl, ap, List, Bool, Bool-cases, inl, inr, Option, none, some,
  arith, length,
}
use l4s_poc.Io.{IoError, eof, unexpected_eof, fault, Stream}
use l4s_poc.Nal.{NalUnit}
use l4s_poc.AnnexB.{Reader, ReadResult, got, stopped, read_nal}
use l4s_poc.AnnexB.Sound.{
  IsValid, remaining, read_nal_lem, read_nal-remaining, new_reader-IsValid, remaining-new_reader,
}
use l4s_poc.Frame.{put_uint32}
use l4s_poc.QuicSend.{Sender, Stop, resume, new_sender, on_data, on_length, on_read, send_loop}

-- The loop has an end.
abbrev pub Ends : {W : Type 0} → Option (Stop × Sender W) → Type 0
Ends {W} r = (out : Stop × Sender W) × (r ≡ some out)

-- The connection at the end, if there is one, is as `P` says.
abbrev pub Kept : {W : Type 0} → (W → Type 0) → Option (Stop × Sender W) → Type 0
Kept P none = Unit {0}
Kept P (some (why, st)) = P st.conn

module _ {W : Type 0} (write : W → List ℕ → Option IoError × W) (signalled : ℕ → Bool) where
  abbrev loop : ℕ → ℕ → Sender W → Option (Stop × Sender W)
  loop = send_loop write signalled

  module _ (k : Sender W → Option (Stop × Sender W)) where
    on_data-Ends :
        (st : Sender W) (n : NalUnit) (p : Option IoError × W)
        → ((st' : Sender W) → st'.reader ≡ st.reader → Ends (k st'))
        → Ends (resume k (on_data write st n p))
    unfolding on_data
    on_data-Ends st n (some e, w) rec = (_, refl)
    on_data-Ends st n (none, w) rec = rec _ refl

    on_length-Ends :
        (st : Sender W) (n : NalUnit) (p : Option IoError × W)
        → ((st' : Sender W) → st'.reader ≡ st.reader → Ends (k st'))
        → Ends (resume k (on_length write st n p))
    unfolding on_length
    on_length-Ends st n (some e, w) rec = (_, refl)
    on_length-Ends st n (none, w) rec =
        on_data-Ends (record st { conn = w }) n (write w n.payload) rec

    on_read-Ends :
        (st : Sender W) (p : ReadResult × Reader)
        → ((n : NalUnit) → p.0 ≡ got n → (st' : Sender W) → st'.reader ≡ p.1 → Ends (k st'))
        → Ends (resume k (on_read write st p))
    unfolding on_read
    on_read-Ends st (stopped eof, r) rec = (_, refl)
    on_read-Ends st (stopped unexpected_eof, r) rec = (_, refl)
    on_read-Ends st (stopped (fault e), r) rec = (_, refl)
    on_read-Ends st (got n, r) rec =
        on_length-Ends (record st { reader = r }) n (write st.conn (put_uint32 (length n.payload)))
          (rec n refl)

  loop-Ends :
      (f k : ℕ) (st : Sender W) → IsValid st.reader → remaining st.reader < f → Ends (loop f k st)
  unfolding send_loop
  loop-Ends zero k st v h = elim h [ ]
  loop-Ends (suc f) k st v h = elim (Bool-cases (signalled k)) [
    | inl is ↦ rw is (_, refl)
    | inr isnt ↦ rw isnt (
        on_read-Ends (loop f (k + 1)) st (read_nal st.reader) (λ n e st' same.
          loop-Ends f (k + 1) st' (rw same (read_nal_lem st.reader v).1)
            (elim (read_nal-remaining st.reader v) [
              | inl end ↦ cc
              | inr less ↦ omega (arith, ap remaining same)
            ])))
  ]

  -- The sending loop ends, whatever the input stream gives, the connection answers to its writes and
  -- the signals are, in fewer rounds than the stream has bytes and errors and two more.
  pub send_loop-Ends :
      (src : Stream) (w : W) (f : ℕ)
      → length src + 1 < f
      → Ends (send_loop write signalled f 0 (new_sender src w))
  unfolding new_sender
  send_loop-Ends src w f enough =
      loop-Ends f 0 (new_sender src w) (new_reader-IsValid src)
        (rw (remaining-new_reader src) enough)

  -- What every write keeps true of the connection.
  module _ (P : W → Type 0) (keeps : (w : W) (b : List ℕ) → P w → P (write w b).1) where
    on_data-Kept :
        (k : Sender W → Option (Stop × Sender W)) (st : Sender W) (n : NalUnit)
        (p : Option IoError × W)
        → P p.1
        → ((st' : Sender W) → P st'.conn → Kept P (k st'))
        → Kept P (resume k (on_data write st n p))
    unfolding on_data
    on_data-Kept k st n (some e, w) good rec = good
    on_data-Kept k st n (none, w) good rec = rec _ good

    on_length-Kept :
        (k : Sender W → Option (Stop × Sender W)) (st : Sender W) (n : NalUnit)
        (p : Option IoError × W)
        → P p.1
        → ((st' : Sender W) → P st'.conn → Kept P (k st'))
        → Kept P (resume k (on_length write st n p))
    unfolding on_length
    on_length-Kept k st n (some e, w) good rec = good
    on_length-Kept k st n (none, w) good rec =
        on_data-Kept k (record st { conn = w }) n (write w n.payload) (keeps w n.payload good) rec

    on_read-Kept :
        (k : Sender W → Option (Stop × Sender W)) (st : Sender W) (p : ReadResult × Reader)
        → P st.conn
        → ((st' : Sender W) → P st'.conn → Kept P (k st'))
        → Kept P (resume k (on_read write st p))
    unfolding on_read
    on_read-Kept k st (stopped eof, r) good rec = good
    on_read-Kept k st (stopped unexpected_eof, r) good rec = good
    on_read-Kept k st (stopped (fault e), r) good rec = good
    on_read-Kept k st (got n, r) good rec =
        on_length-Kept k (record st { reader = r }) n
          (write st.conn (put_uint32 (length n.payload)))
          (keeps st.conn (put_uint32 (length n.payload)) good) rec

    pub send_loop-Kept :
        (f k : ℕ) (st : Sender W) → P st.conn → Kept P (send_loop write signalled f k st)
    unfolding send_loop
    send_loop-Kept zero k st good = tt
    send_loop-Kept (suc f) k st good = elim (Bool-cases (signalled k)) [
      | inl is ↦ rw is good
      | inr isnt ↦ rw isnt (
          on_read-Kept (loop f (k + 1)) st (read_nal st.reader) good
            (λ st' fine. send_loop-Kept f (k + 1) st' fine))
    ]
