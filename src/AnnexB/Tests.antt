-- ===== src/AnnexB/Tests.antt =====
-- Runs of AnnexBReader and AnnexBWriter.
use l4s_poc.Base.{ℕ, ◌≡◌, refl, List, [], ◌∷◌, some, arith, All}
use l4s_poc.Io.{Stream, fail, fault, eof, feed}
use l4s_poc.Nal.{NalUnit, nal_of, nal_type}
use l4s_poc.AnnexB.{
  stopped, read_nal, new_reader, scan, scan_byte, flush, strip, found, at_end, has_prefix,
}
use l4s_poc.AnnexB.StartCode.{contains3}
use l4s_poc.AnnexB.Sound.{IsNal, Holds, read_nal_lem, new_reader-IsValid}
use l4s_poc.AnnexB.Split.{Pieces, units_of, drain-units_of}
use l4s_poc.AnnexB.Pieces.{drain-Pieces}
use l4s_poc.AnnexB.Drain.{drain}
use l4s_poc.AnnexB.RoundTrip.{write_all, drain-write_all}
use l4s_poc.AnnexB.Resume.{read_nal_resume, without_fault}

-- An SPS and an IDR slice.
abbrev pub sps : NalUnit
sps = record { unit_type = 7; payload = 103 ∷ 66 ∷ [] }

abbrev pub idr : NalUnit
idr = record { unit_type = 5; payload = 101 ∷ 0 ∷ 0 ∷ 3 ∷ 1 ∷ [] }

abbrev pub two_units : List NalUnit
two_units = sps ∷ idr ∷ []

pub two_units-IsNal : All IsNal two_units
unfolding contains3
two_units-IsNal = (
  record { nonempty = omega arith; typed = omega arith; free = refl },
  (record { nonempty = omega arith; typed = omega arith; free = refl }, tt),
)

-- A start code of three bytes, a unit, an error of the stream, and another unit.
abbrev broken : Stream
broken = feed (0 ∷ 0 ∷ 1 ∷ 103 ∷ 66 ∷ []) (fail 9 ∷ feed (7 ∷ 0 ∷ 0 ∷ 1 ∷ 101 ∷ 8 ∷ []) [])

read_nal-broken : (read_nal (new_reader broken)).0 ≡ stopped (fault 9)
unfolding read_nal new_reader scan scan_byte found at_end strip has_prefix
read_nal-broken = refl

drain-broken : drain 9 (new_reader broken) ≡ some ([], fault 9)
unfolding drain read_nal new_reader scan scan_byte found at_end strip has_prefix
drain-broken = refl

abbrev mixed : Stream
mixed = feed (0 ∷ 0 ∷ 1 ∷ 103 ∷ 66 ∷ 0 ∷ 0 ∷ 0 ∷ 1 ∷ 101 ∷ 0 ∷ 0 ∷ 3 ∷ 1 ∷ []) []

drain-mixed : drain 20 (new_reader mixed) ≡ some (two_units, eof)
unfolding drain read_nal new_reader scan scan_byte found at_end strip has_prefix flush nal_of
    nal_type
drain-mixed = refl

read_nal_example : Holds (read_nal (new_reader broken))
read_nal_example = read_nal_lem (new_reader broken) (new_reader-IsValid broken)

drain-write_all_example :
    drain 4 (new_reader (feed (write_all [] two_units) [])) ≡ some (two_units, eof)
drain-write_all_example = drain-write_all two_units 4 two_units-IsNal (omega arith)

read_nal_resume_example :
    read_nal (read_nal (new_reader broken)).1
    ≡ read_nal (record (new_reader broken) { source = without_fault (new_reader broken).source })
read_nal_resume_example =
    read_nal_resume (new_reader broken) 9 (new_reader-IsValid broken) read_nal-broken

-- A start code of three bytes, then one of four, then two without anything between.
abbrev ragged : List ℕ
ragged = 0 ∷ 0 ∷ 1 ∷ 103 ∷ 66 ∷ 0 ∷ 0 ∷ 0 ∷ 1 ∷ 0 ∷ 0 ∷ 1 ∷ 101 ∷ 0 ∷ []

abbrev ragged_pieces : List (List ℕ)
ragged_pieces = [] ∷ (103 ∷ 66 ∷ 0 ∷ []) ∷ [] ∷ (101 ∷ 0 ∷ []) ∷ []

ragged-Pieces : Pieces ragged ragged_pieces
unfolding contains3
ragged-Pieces = (_, refl, refl, (_, refl, refl, (_, refl, refl, (refl, refl))))

drain-Pieces_example : drain 16 (new_reader (feed ragged [])) ≡ some (units_of ragged_pieces, eof)
drain-Pieces_example = drain-Pieces ragged 16 ragged_pieces (omega arith) ragged-Pieces

drain-units_of_example :
    (ds : List (List ℕ)) × Pieces ragged ds
    × (drain 16 (new_reader (feed ragged [])) ≡ some (units_of ds, eof))
drain-units_of_example = drain-units_of ragged 16 (omega arith)
