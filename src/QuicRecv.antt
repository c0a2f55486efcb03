-- ===== src/QuicRecv.antt =====
-- cmd/quic-recv/main.go: the loop that reads frames from stream 0 and writes the NAL units to the
-- standard output in Annex B form. The connection, behind `io.ReadFull(&connReader{conn}, …)`, is a
-- source; `write` is the `Write` of the standard output.
pub mod Rounds
pub mod Units
mod Tests
use l4s_poc.Base.{
  ℕ, zero, suc, ◌+◌, ◌*◌, List, [], ◌∷◌, ◌++◌, Bool, true, false, ◌||◌, Option, none, some, ◌==◌,
  ltb, if◌then◌else◌, length, get_or,
}
use l4s_poc.Base.Int.{ℤ, pos, ◌+ℤ◌}
use l4s_poc.Base.Words.{i64}
use l4s_poc.Io.{IoError, eof, unexpected_eof, fault, Stream, Result, ok, err, read_full}
use l4s_poc.Nal.{NalUnit, nal_of}
use l4s_poc.AnnexB.{write_nal}
use l4s_poc.Frame.{get_uint32}

-- `is_open` says that the channel `firstNALReceived` has been closed, which starts the reports.
pub record Receiver (W : Type 0) : Type 0 where
  pub conn : Stream
  pub out : W
  pub nal_count : ℤ
  pub total_bytes : ℤ
  pub is_open : Bool

-- Why the loop ends.
pub data Stop : Type 0 where
  interrupted stream_ended : Stop
  length_error data_error write_error : IoError → Stop
  invalid_length : ℕ → Stop

pub data Round (W : Type 0) : Type 0 where
  next : Receiver W → Round W
  stop : Stop → Receiver W → Round W

abbrev pub resume :
    {W : Type 0} → (Receiver W → Option (Stop × Receiver W)) → Round W → Option (Stop × Receiver W)
resume k (next st) = k st
resume k (stop why st) = some (why, st)

abbrev pub max_nal_length : ℕ
max_nal_length = 10 * 1024 * 1024

unfoldable pub new_receiver : {W : Type 0} → Stream → W → Receiver W
new_receiver conn out = record {
  conn = conn;
  out = out;
  nal_count = pos 0;
  total_bytes = pos 0;
  is_open = false;
}

-- Whether `firstNALReceived` is closed after the count has become this.
abbrev pub opened : ℤ → Bool → Bool
opened (pos (suc zero)) is_open = true
opened count is_open = is_open

module _ {W : Type 0} (write : W → List ℕ → Option IoError × W) where
  -- After `annexBWriter.WriteNAL(nal)`; the first unit opens the data channel.
  unfoldable pub on_write : Receiver W → ℕ → Option IoError × W → Round W
  on_write st n (some e, w) = stop (write_error e) (record st { out = w })
  on_write st n (none, w) = next (record st {
    out = w;
    nal_count = i64 (st.nal_count +ℤ pos 1);
    total_bytes = i64 (st.total_bytes +ℤ pos n);
    is_open = opened (i64 (st.nal_count +ℤ pos 1)) st.is_open;
  })

  -- After the data has been read; the type is `nalData[0] & 0x1F`.
  unfoldable pub on_data : Receiver W → ℕ → Result (List ℕ) × Stream → Round W
  unfolding on_write
  on_data st n (err e, src) = stop (data_error e) (record st { conn = src })
  on_data st n (ok bytes, src) =
      on_write (record st { conn = src }) n (write_nal write st.out (nal_of bytes))

  -- The length is there.
  unfoldable pub on_length : Receiver W → ℕ → Round W
  unfolding on_data
  on_length st n =
      if n == 0 || ltb max_nal_length n
      then stop (invalid_length n) st
      else on_data st n (read_full n st.conn)

  -- After the length prefix has been read.
  unfoldable pub on_prefix : Receiver W → Result (List ℕ) × Stream → Round W
  unfolding on_length
  on_prefix st (err eof, src) = stop stream_ended (record st { conn = src })
  on_prefix st (err unexpected_eof, src) =
      stop (length_error unexpected_eof) (record st { conn = src })
  on_prefix st (err (fault e), src) = stop (length_error (fault e)) (record st { conn = src })
  on_prefix st (ok prefix, src) = on_length (record st { conn = src }) (get_uint32 prefix)

  module _ (signalled : ℕ → Bool) where
    -- The loop from round `k` on. `none` means that the fuel ran out.
    unfoldable pub receive_loop : ℕ → ℕ → Receiver W → Option (Stop × Receiver W)
    receive_loop zero k st = none
    receive_loop (suc f) k st =
        if signalled k
        then some (interrupted, st)
        else resume (receive_loop f (k + 1)) (on_prefix st (read_full 4 st.conn))
