-- ===== src/Pes/Header.antt =====
-- src/pes.rs: the fixed header of a PES packet.
use mpeg2ts_reader.Base.{ℕ, not, ltb, ◌==◌, if◌then◌else◌, bit_or, List, length}
use mpeg2ts_reader.Base.{Outcome, ok, err, index, ◌>>=◌}
use mpeg2ts_reader.Base.Bits.{shl16, shl32}

pub data PesError : Type 0 where
  field_not_present : PesError
  pts_dts_flags_invalid : PesError
  -- the bytes requested and available
  not_enough_data : ℕ → ℕ → PesError
  marker_bit_not_set : PesError
  invalid_start_code : PesError
  invalid_check_bits : PesError
  header_length_exceeds_buffer : PesError
  header_data_length_mismatch : PesError

pub record PesHeader : Type 0 where
  pub buf : List ℕ

abbrev pub pes_header_size : ℕ
pes_header_size = 6

pub data PesLength : Type 0 where
  unbounded : PesLength
  bounded : ℕ → PesLength

-- `PesHeader::from_bytes`.
unfoldable pub pes_from_bytes : List ℕ → Outcome PesError PesHeader
pes_from_bytes buf =
    if ltb (length buf) pes_header_size
    then err (not_enough_data pes_header_size (length buf))
    else (do
      b0 ← index buf 0
      b1 ← index buf 1
      b2 ← index buf 2
      let packet_start_code_prefix = bit_or (bit_or (shl32 b0 16) (shl32 b1 8)) b2
      if not (packet_start_code_prefix == 1)
          then err invalid_start_code
          else ok (record { buf = buf }))

module _ {E : Type 0} (h : PesHeader) where
  unfoldable pub stream_id : Outcome E ℕ
  stream_id = index h.buf 3

  unfoldable pub pes_packet_length : Outcome E PesLength
  pes_packet_length = do
    b4 ← index h.buf 4
    b5 ← index h.buf 5
    let len = bit_or (shl16 b4 8) b5
    ok (if len == 0 then unbounded else bounded len)
