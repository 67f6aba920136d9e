-- ===== src/Pes/Contents.antt =====
-- src/pes.rs: `PesParsedContents`, the header behind the fixed one: the flags, and where each
-- optional field ends.
pub mod Fields
pub mod Offsets
pub mod Values
pub mod Trick
pub mod Bounds
pub mod Layout
pub mod Parts
pub mod RoundTrip
use mpeg2ts_reader.Base.{
  ℕ, ◌+◌, ◌*◌, Bool, true, false, not, ltb, ◌==◌, if◌then◌else◌, bit_and, List, length,
}
use mpeg2ts_reader.Base.{Outcome, ok, err, panic, index, slice_range, slice_from, ◌>>=◌}
use mpeg2ts_reader.Base.Bits.{has_bits, shr}
use mpeg2ts_reader.Pes.Header.{
  PesError, not_enough_data, invalid_check_bits, header_length_exceeds_buffer,
  header_data_length_mismatch,
}

pub record PesParsedContents : Type 0 where
  pub buf : List ℕ

pub data DataAlignment : Type 0 where
  aligned not_aligned : DataAlignment

pub data Copyright : Type 0 where
  protected undefined : Copyright

pub data OriginalOrCopy : Type 0 where
  original copy : OriginalOrCopy

abbrev pub fixed_header_size : ℕ
fixed_header_size = 3

abbrev pub timestamp_size : ℕ
timestamp_size = 5

abbrev pub escr_size : ℕ
escr_size = 6

abbrev pub es_rate_size : ℕ
es_rate_size = 3

abbrev pub dsm_trick_mode_size : ℕ
dsm_trick_mode_size = 1

abbrev pub additional_copy_info_size : ℕ
additional_copy_info_size = 1

abbrev pub previous_pes_packet_crc_size : ℕ
previous_pes_packet_crc_size = 2

-- A flag of the second byte: `self.buf[1] >> bit & 1 != 0`.
abbrev flag : {E : Type 0} → PesParsedContents → ℕ → Outcome E Bool
flag h bit = do b1 ← index h.buf 1; ok (has_bits (shr b1 bit) 1)

module _ {E : Type 0} (h : PesParsedContents) where
  unfoldable pub pes_priority : Outcome E ℕ
  pes_priority = do b0 ← index h.buf 0; ok (bit_and (shr b0 3) 1)

  unfoldable pub data_alignment_indicator : Outcome E DataAlignment
  data_alignment_indicator = do
    b0 ← index h.buf 0
    ok (if has_bits b0 0b100 then aligned else not_aligned)

  unfoldable pub copyright : Outcome E Copyright
  copyright = do b0 ← index h.buf 0; ok (if has_bits b0 0b10 then protected else undefined)

  unfoldable pub original_or_copy : Outcome E OriginalOrCopy
  original_or_copy = do b0 ← index h.buf 0; ok (if has_bits b0 0b1 then original else copy)

  unfoldable pub pts_dts_flags : Outcome E ℕ
  pts_dts_flags = do b1 ← index h.buf 1; ok (shr b1 6)

  unfoldable pub escr_flag : Outcome E Bool
  escr_flag = flag h 5

  unfoldable pub esrate_flag : Outcome E Bool
  esrate_flag = flag h 4

  unfoldable pub dsm_trick_mode_flag : Outcome E Bool
  dsm_trick_mode_flag = flag h 3

  unfoldable pub additional_copy_info_flag : Outcome E Bool
  additional_copy_info_flag = flag h 2

  unfoldable pub pes_crc_flag : Outcome E Bool
  pes_crc_flag = flag h 1

  unfoldable pub pes_extension_flag : Outcome E Bool
  pes_extension_flag = do b1 ← index h.buf 1; ok (has_bits b1 1)

  unfoldable pub pes_header_data_len : Outcome E ℕ
  pes_header_data_len = index h.buf 2

  unfoldable pub pts_dts_end : Outcome E ℕ
  pts_dts_end = pts_dts_flags >>= λ v.
      if v == 0b00
      then ok fixed_header_size
      else if v == 0b01
      then ok fixed_header_size
      else if v == 0b10
      then ok (fixed_header_size + timestamp_size)
      else if v == 0b11
      then ok (fixed_header_size + timestamp_size * 2)
      else panic

  unfoldable pub escr_end : Outcome E ℕ
  escr_end = do
    end ← pts_dts_end
    present ← escr_flag
    ok (end + (if present then escr_size else 0))

  unfoldable pub es_rate_end : Outcome E ℕ
  es_rate_end = do
    end ← escr_end
    present ← esrate_flag
    ok (end + (if present then es_rate_size else 0))

  unfoldable pub dsm_trick_mode_end : Outcome E ℕ
  dsm_trick_mode_end = do
    end ← es_rate_end
    present ← dsm_trick_mode_flag
    ok (end + (if present then dsm_trick_mode_size else 0))

  unfoldable pub additional_copy_info_end : Outcome E ℕ
  additional_copy_info_end = do
    end ← dsm_trick_mode_end
    present ← additional_copy_info_flag
    ok (end + (if present then additional_copy_info_size else 0))

  unfoldable pub pes_crc_end : Outcome E ℕ
  pes_crc_end = do
    end ← additional_copy_info_end
    present ← pes_crc_flag
    ok (end + (if present then previous_pes_packet_crc_size else 0))

  unfoldable pub payload : Outcome E (List ℕ)
  payload = do len ← pes_header_data_len; slice_from h.buf (fixed_header_size + len)

unfoldable pub header_slice : PesParsedContents → ℕ → ℕ → Outcome PesError (List ℕ)
header_slice h from to = do
  len ← pes_header_data_len h
  if ltb (len + fixed_header_size) to
      then err (not_enough_data to (len + fixed_header_size))
      else if ltb (length h.buf) to
      then err (not_enough_data to (length h.buf))
      else slice_range h.buf from to

-- `PesParsedContents::from_bytes`.
unfoldable pub contents_from_bytes : List ℕ → Outcome PesError PesParsedContents
contents_from_bytes buf =
    if ltb (length buf) fixed_header_size
    then err (not_enough_data fixed_header_size (length buf))
    else (do
      b0 ← index buf 0
      let check_bits = shr b0 6
      if not (check_bits == 0b10) then err invalid_check_bits else (do
        let contents : PesParsedContents = record { buf = buf }
        len ← pes_header_data_len contents
        if ltb (length buf) (fixed_header_size + len) then err header_length_exceeds_buffer else (do
          end ← pes_crc_end contents
          if ltb (fixed_header_size + len) end
              then err header_data_length_mismatch
              else ok contents)))
