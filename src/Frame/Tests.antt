-- ===== src/Frame/Tests.antt =====
-- Runs of LengthPrefixedReader and LengthPrefixedWriter.
use l4s_poc.Base.{ℕ, ◌≡◌, refl, List, [], ◌∷◌, none, arith, take}
use l4s_poc.Io.{eof, unexpected_eof, fail, Stream, feed, err}
use l4s_poc.Nal.{nal_of}
use l4s_poc.AnnexB.RoundTrip.{append_write}
use l4s_poc.Frame.{put_uint32, read_nal, write_nal}
use l4s_poc.Frame.RoundTrip.{frame, read_nal-cut}

abbrev bytes : List ℕ
bytes = 101 ∷ 8 ∷ 9 ∷ []

abbrev following : Stream
following = fail 5 ∷ []

write_nal_three :
    write_nal append_write [] (nal_of bytes) ≡ (none, 0 ∷ 0 ∷ 0 ∷ 3 ∷ 101 ∷ 8 ∷ 9 ∷ [])
unfolding write_nal put_uint32 nal_of
write_nal_three = refl

-- After the prefix, and after one byte more.
read_nal-cut_example : read_nal (feed (take 4 (frame bytes)) []) ≡ (err eof, [])
unfolding put_uint32
read_nal-cut_example = read_nal-cut bytes 4 (omega arith) (omega arith)

cut_within_data : read_nal (feed (take 5 (frame bytes)) []) ≡ (err unexpected_eof, [])
unfolding put_uint32
cut_within_data = read_nal-cut bytes 5 (omega arith) (omega arith)
