-- ===== src/Nal.antt =====
-- NALUnit and the classification of NAL units, pkg/h264/annexb.go lines 10 to 38.
use l4s_poc.Base.{ℕ, ◌%◌, ◌^◌, List, [], ◌∷◌, Bool, ◌||◌, ◌==◌, get_or}

abbrev pub nal_type_slice : ℕ
nal_type_slice = 1

abbrev pub nal_type_idr : ℕ
nal_type_idr = 5

abbrev pub nal_type_sps : ℕ
nal_type_sps = 7

abbrev pub nal_type_pps : ℕ
nal_type_pps = 8

abbrev pub start_code : List ℕ
start_code = 0 ∷ 0 ∷ 0 ∷ 1 ∷ []

abbrev pub start_code3 : List ℕ
start_code3 = 0 ∷ 0 ∷ 1 ∷ []

-- `Data` is `payload`, the NAL header byte included.
pub record NalUnit : Type 0 where
  pub unit_type : ℕ
  pub payload : List ℕ

-- `b & 0x1F`.
unfoldable pub nal_type : ℕ → ℕ
nal_type b = b % 2 ^ 5

unfoldable pub is_keyframe : NalUnit → Bool
is_keyframe n =
    n.unit_type == nal_type_sps || n.unit_type == nal_type_pps || n.unit_type == nal_type_idr

-- `&NALUnit{Type: NALType(nalData[0]), Data: nalData}`, which the readers build where
-- `len(nalData) > 0`.
unfoldable pub nal_of : List ℕ → NalUnit
unfolding nal_type
nal_of bytes = record { unit_type = nal_type (get_or bytes 0 0); payload = bytes }
