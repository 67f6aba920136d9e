-- ===== src/Tests/Times.antt =====
-- Tests of the modules that are about src/pes.rs and src/mpegts_crc.rs.
use mpeg2ts_reader.Base.{ℕ, ◌+◌, ◌-◌, ◌^◌, ◌≡◌, refl, arith, true, List, [], ◌∷◌}
use mpeg2ts_reader.Base.{ok, err}
use mpeg2ts_reader.Error.{DemuxError}
use mpeg2ts_reader.Pes.Timestamp.{
  Timestamp, marker_bit_not_set, incorrect_prefix_bits, from_bytes, from_pts_bytes, from_dts_bytes,
  likely_wrapped_since,
}
use mpeg2ts_reader.Pes.Timestamp.Codec.{
  encode, from_bytes_lem, from_bytes-encode, from_pts-from_dts-encode, likely_wrapped_since_iff,
}
use mpeg2ts_reader.Crc.{sum32, sum_from, crc_round, crc_table}
use mpeg2ts_reader.Crc.Division.{crc_reference}
use mpeg2ts_reader.Crc.Reference.{sum32-crc_reference, sum32_residue, crc_bytes}

abbrev time : Timestamp
time = record { val = 2 ^ 32 + 12345 }

from_bytes_lem_example :
    from_bytes (0x21 ∷ 0x00 ∷ 0x00 ∷ 0x00 ∷ 0x01 ∷ []) ≡ err (marker_bit_not_set 23)
from_bytes_lem_example =
    from_bytes_lem 0x21 0x00 0x00 0x00 0x01 []
      (omega arith, (omega arith, (omega arith, (omega arith, (omega arith, tt)))))

from_bytes-encode_example : from_bytes (encode 2 time) ≡ ok time
from_bytes-encode_example = from_bytes-encode 2 time (omega arith) (omega arith)

from_pts-from_dts-encode_example :
    (from_pts_bytes (encode 3 time) ≡ ok time)
    × (from_dts_bytes (encode 3 time) ≡ err (incorrect_prefix_bits 1 3))
from_pts-from_dts-encode_example = from_pts-from_dts-encode 3 time (omega arith) (omega arith)

likely_wrapped_since_iff_example :
    likely_wrapped_since (record { val = 4 }) (record { val = 2 ^ 33 - 6 }) ≡ true
likely_wrapped_since_iff_example =
    likely_wrapped_since_iff (record { val = 2 ^ 33 - 6 }) 10 (omega arith) (omega arith)

-- The check value of CRC-32/MPEG-2.
abbrev digits : List ℕ
digits = 0x31 ∷ 0x32 ∷ 0x33 ∷ 0x34 ∷ 0x35 ∷ 0x36 ∷ 0x37 ∷ 0x38 ∷ 0x39 ∷ []

check_value : sum32 {E = DemuxError} digits ≡ ok 0x0376_e6e7
unfolding sum32 sum_from crc_round crc_table
check_value = refl

sum32-crc_reference_example :
    sum32 {E = DemuxError} (0x31 ∷ 0x32 ∷ []) ≡ ok (crc_reference 0xffff_ffff (0x31 ∷ 0x32 ∷ []))
sum32-crc_reference_example =
    sum32-crc_reference {E = DemuxError} (0x31 ∷ 0x32 ∷ []) (omega arith, (omega arith, tt))

sum32_residue_example :
    sum32 {E = DemuxError} (0x31 ∷ 0x32 ∷ crc_bytes (crc_reference 0xffff_ffff (0x31 ∷ 0x32 ∷ [])))
    ≡ ok 0
sum32_residue_example =
    sum32_residue {E = DemuxError} (0x31 ∷ 0x32 ∷ []) (omega arith, (omega arith, tt))
