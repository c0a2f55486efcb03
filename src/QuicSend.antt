-- ===== src/QuicSend.antt =====
-- cmd/quic-send/main.go: the loop that reads NAL units from the standard input and sends each as a
-- frame on stream 0. `write` is the `Write` of the picoquic connection with its error; the count that
-- it returns is ignored by the code. `signalled k` says whether the signal handler has set `done` when
-- round `k` begins.
pub mod Frames
pub mod Ends
mod Tests
use l4s_poc.Base.{
  ℕ, zero, suc, ◌+◌, List, [], ◌∷◌, ◌++◌, Bool, Option, none, some, if◌then◌else◌, length,
}
use l4s_poc.Base.Int.{ℤ, pos, ◌+ℤ◌}
use l4s_poc.Base.Words.{i64}
use l4s_poc.Io.{IoError, eof, unexpected_eof, fault, Stream}
use l4s_poc.Nal.{NalUnit}
use l4s_poc.AnnexB.{Reader, ReadResult, got, stopped, read_nal, new_reader}
use l4s_poc.Frame.{put_uint32}

pub record Sender (W : Type 0) : Type 0 where
  pub reader : Reader
  pub conn : W
  pub nal_count : ℤ
  pub total_bytes : ℤ

-- Why the loop ends.
pub data Stop : Type 0 where
  interrupted input_ended : Stop
  input_error length_error data_error : IoError → Stop

pub data Round (W : Type 0) : Type 0 where
  next : Sender W → Round W
  stop : Stop → Sender W → Round W

abbrev pub resume :
    {W : Type 0} → (Sender W → Option (Stop × Sender W)) → Round W → Option (Stop × Sender W)
resume k (next st) = k st
resume k (stop why st) = some (why, st)

unfoldable pub new_sender : {W : Type 0} → Stream → W → Sender W
new_sender src conn = record {
  reader = new_reader src;
  conn = conn;
  nal_count = pos 0;
  total_bytes = pos 0;
}

module _ {W : Type 0} (write : W → List ℕ → Option IoError × W) where
  -- After the NAL data has been written.
  unfoldable pub on_data : Sender W → NalUnit → Option IoError × W → Round W
  on_data st n (some e, w) = stop (data_error e) (record st { conn = w })
  on_data st n (none, w) = next (record st {
    conn = w;
    nal_count = i64 (st.nal_count +ℤ pos 1);
    total_bytes = i64 (st.total_bytes +ℤ pos (length n.payload));
  })

  -- After the length prefix has been written.
  unfoldable pub on_length : Sender W → NalUnit → Option IoError × W → Round W
  unfolding on_data
  on_length st n (some e, w) = stop (length_error e) (record st { conn = w })
  on_length st n (none, w) = on_data (record st { conn = w }) n (write w n.payload)

  -- After `reader.ReadNAL()`.
  unfoldable pub on_read : Sender W → ReadResult × Reader → Round W
  unfolding on_length
  on_read st (stopped eof, r) = stop input_ended (record st { reader = r })
  on_read st (stopped unexpected_eof, r) =
      stop (input_error unexpected_eof) (record st { reader = r })
  on_read st (stopped (fault e), r) = stop (input_error (fault e)) (record st { reader = r })
  on_read st (got n, r) =
      on_length (record st { reader = r }) n (write st.conn (put_uint32 (length n.payload)))

  module _ (signalled : ℕ → Bool) where
    -- The loop from round `k` on. `none` means that the fuel ran out.
    unfoldable pub send_loop : ℕ → ℕ → Sender W → Option (Stop × Sender W)
    send_loop zero k st = none
    send_loop (suc f) k st =
        if signalled k
        then some (interrupted, st)
        else resume (send_loop f (k + 1)) (on_read st (read_nal st.reader))
