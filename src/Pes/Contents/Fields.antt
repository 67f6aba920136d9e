-- ===== src/Pes/Contents/Fields.antt =====
-- src/pes.rs: the optional fields of `PesParsedContents`, and `PesHeader::contents`.
use mpeg2ts_reader.Base.{
  ℕ, ◌+◌, ◌*◌, ◌^◌, Bool, ltb, ◌==◌, if◌then◌else◌, bit_and, bit_or, ◌⊎◌, inl, inr, List,
}
use mpeg2ts_reader.Base.{
  Outcome, ok, err, panic, assert, index, slice_range, slice_from, ◌>>=◌, ◌>>◌,
}
use mpeg2ts_reader.Base.Bits.{has_bits, shl16, shl32, shr}
use mpeg2ts_reader.Packet.ClockRef.{ClockRef}
use mpeg2ts_reader.Pes.Timestamp.{Timestamp, TimestampError, from_bytes}
use mpeg2ts_reader.Pes.Header.{
  PesError, PesHeader, pes_header_size, stream_id, field_not_present, pts_dts_flags_invalid,
  marker_bit_not_set,
}
use mpeg2ts_reader.Pes.StreamId.{is_parsed}
use mpeg2ts_reader.Pes.Extension.{PesExtension, extension_from_bytes, escr_clock}
use mpeg2ts_reader.Pes.Contents.{
  PesParsedContents, header_slice, fixed_header_size, timestamp_size, escr_size, es_rate_size,
  dsm_trick_mode_size, additional_copy_info_size, previous_pes_packet_crc_size, pts_dts_flags,
  escr_flag, esrate_flag, dsm_trick_mode_flag, additional_copy_info_flag, pes_crc_flag,
  pes_extension_flag, pes_header_data_len, pts_dts_end, escr_end, es_rate_end, dsm_trick_mode_end,
  additional_copy_info_end, pes_crc_end, contents_from_bytes,
}

-- A `Result` that is kept as a value: `Err` on the left, `Ok` on the right.
abbrev pub kept : {E X A : Type 0} → Outcome X A → Outcome E (X ⊎ A)
kept (ok a) = ok (inr a)
kept (err e) = ok (inl e)
kept panic = panic

-- `none` and `invalid` stand in the source, which never makes them.
pub data PtsDts : Type 0 where
  none : PtsDts
  pts_only : TimestampError ⊎ Timestamp → PtsDts
  invalid : PtsDts
  both : TimestampError ⊎ Timestamp → TimestampError ⊎ Timestamp → PtsDts

-- `FrequencyTruncationCoefficientSelection`.
pub data FrequencyTruncation : Type 0 where
  dc_non_zero first_three_non_zero first_six_non_zero all_maybe_non_zero : FrequencyTruncation

-- `FrequencyTruncationCoefficientSelection::from_id`.
unfoldable pub from_id : {E : Type 0} → ℕ → Outcome E FrequencyTruncation
from_id id =
    if id == 0b00
    then ok dc_non_zero
    else if id == 0b01
    then ok first_three_non_zero
    else if id == 0b10
    then ok first_six_non_zero
    else if id == 0b11
    then ok all_maybe_non_zero
    else panic

pub data DsmTrickMode : Type 0 where
  fast_forward : ℕ → Bool → FrequencyTruncation → DsmTrickMode
  slow_motion : ℕ → DsmTrickMode
  freeze_frame : ℕ → ℕ → DsmTrickMode
  fast_reverse : ℕ → Bool → FrequencyTruncation → DsmTrickMode
  slow_reverse : ℕ → DsmTrickMode
  reserved : ℕ → DsmTrickMode

pub record EsRate : Type 0 where
  pub val : ℕ

unfoldable pub new_rate : {E : Type 0} → ℕ → Outcome E EsRate
new_rate es_rate = do assert (ltb es_rate (2 ^ 22)); ok (record { val = es_rate })

-- A `u32` product: a rate is below 2^22, so it does not overflow.
abbrev pub bytes_per_second : EsRate → ℕ
bytes_per_second r = r.val * 50

-- The body of the closure of `dsm_trick_mode`, on the byte of the field.
unfoldable pub trick_mode_of : {E : Type 0} → ℕ → Outcome E DsmTrickMode
unfolding from_id
trick_mode_of s0 =
    let trick_mode_control = shr s0 5 in
    let trick_mode_data = bit_and s0 0b0001_1111 in
    if trick_mode_control == 0b000
    then (from_id (bit_and trick_mode_data 0b11) >>= λ f.
        ok (fast_forward (shr trick_mode_data 3) (has_bits trick_mode_data 0b100) f))
    else if trick_mode_control == 0b001
    then ok (slow_motion trick_mode_data)
    else if trick_mode_control == 0b010
    then ok (freeze_frame (shr trick_mode_data 3) (bit_and trick_mode_data 0b111))
    else if trick_mode_control == 0b011
    then (from_id (bit_and trick_mode_data 0b11) >>= λ f.
        ok (fast_reverse (shr trick_mode_data 3) (has_bits trick_mode_data 0b100) f))
    else if trick_mode_control == 0b100
    then ok (slow_reverse trick_mode_data)
    else ok (reserved trick_mode_control)

module _ (h : PesParsedContents) where
  unfoldable pub pts_dts : Outcome PesError PtsDts
  pts_dts = pts_dts_flags h >>= λ v.
      if v == 0b00
      then err field_not_present
      else if v == 0b01
      then err pts_dts_flags_invalid
      else if v == 0b10
      then (do
        end ← pts_dts_end h
        s ← header_slice h fixed_header_size end
        pts ← kept (from_bytes s)
        ok (pts_only pts))
      else if v == 0b11
      then (do
        end ← pts_dts_end h
        s ← header_slice h fixed_header_size end
        first ← slice_range s 0 timestamp_size
        pts ← kept (from_bytes first)
        second ← slice_from s timestamp_size
        dts ← kept (from_bytes second)
        ok (both pts dts))
      else panic

  unfoldable pub escr : Outcome PesError ClockRef
  escr = escr_flag h >>= λ present.
      if present
      then (do start ← pts_dts_end h; s ← header_slice h start (start + escr_size); escr_clock s)
      else err field_not_present

  unfoldable pub es_rate : Outcome PesError EsRate
  es_rate = esrate_flag h >>= λ present.
      if present
      then (do
        start ← escr_end h
        s ← header_slice h start (start + es_rate_size)
        s0 ← index s 0
        s1 ← index s 1
        s2 ← index s 2
        new_rate (
            bit_or (bit_or (shl32 (bit_and s0 0b0111_1111) 15) (shl32 s1 7))
              (shr (bit_and s2 0b1111_1110) 1)))
      else err field_not_present

  unfoldable pub dsm_trick_mode : Outcome PesError DsmTrickMode
  dsm_trick_mode = dsm_trick_mode_flag h >>= λ present.
      if present
      then (do
        start ← es_rate_end h
        s ← header_slice h start (start + dsm_trick_mode_size)
        s0 ← index s 0
        trick_mode_of s0)
      else err field_not_present

  unfoldable pub additional_copy_info : Outcome PesError ℕ
  additional_copy_info = additional_copy_info_flag h >>= λ present.
      if present
      then (do
        start ← dsm_trick_mode_end h
        s ← header_slice h start (start + additional_copy_info_size)
        s0 ← index s 0
        if bit_and s0 0b1000_0000 == 0 then err marker_bit_not_set else ok (bit_and s0 0b0111_1111))
      else err field_not_present

  unfoldable pub previous_pes_packet_crc : Outcome PesError ℕ
  previous_pes_packet_crc = pes_crc_flag h >>= λ present.
      if present
      then (do
        start ← additional_copy_info_end h
        s ← header_slice h start (start + previous_pes_packet_crc_size)
        s0 ← index s 0
        s1 ← index s 1
        ok (bit_or (shl16 s0 8) s1))
      else err field_not_present

  unfoldable pub pes_extension : Outcome PesError PesExtension
  pes_extension = pes_extension_flag h >>= λ present.
      if present
      then (do
        start ← pes_crc_end h
        len ← pes_header_data_len h
        s ← header_slice h start (len + fixed_header_size)
        extension_from_bytes s)
      else err field_not_present

-- `PesContents`.
pub data PesContents : Type 0 where
  parsed : PesError ⊎ PesParsedContents → PesContents
  payload_only : List ℕ → PesContents

-- `PesHeader::contents`.
unfoldable pub contents : {E : Type 0} → PesHeader → Outcome E PesContents
contents h = do
  rest ← slice_from h.buf pes_header_size
  id ← stream_id h
  if is_parsed id
      then (kept (contents_from_bytes rest) >>= λ r. ok (parsed r))
      else ok (payload_only rest)
