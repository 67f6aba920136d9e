-- ===== src/Packet/AdaptationField.antt =====
-- src/packet.rs: the optional fields of `AdaptationField` and of its extension.
pub mod Parts
pub mod Layout
pub mod Bounds
use mpeg2ts_reader.Base.{
  ℕ, ◌+◌, ◌-◌, ltb, ◌==◌, if◌then◌else◌, Bool, bit_and, bit_or, Option, some, none, List, length,
}
use mpeg2ts_reader.Base.{Outcome, ok, err, index, slice_range, map_err, ◌>>=◌}
use mpeg2ts_reader.Base.Bits.{has_bits, shl16, shl32, shr}
use mpeg2ts_reader.Packet.ClockRef.{ClockRef, from_slice}
use mpeg2ts_reader.Packet.Header.{AdaptationField}
use mpeg2ts_reader.Pes.Timestamp.{Timestamp, TimestampError, from_bytes}

-- The integers, over the numbers of the model: `negsuc n` is `-(n + 1)`.
pub data ℤ : Type 0 where
  pos : ℕ → ℤ
  negsuc : ℕ → ℤ

-- `b as i8`.
abbrev pub as_i8 : ℕ → ℤ
as_i8 b = if ltb b 128 then pos b else negsuc (255 - b)

pub data AdaptationFieldError : Type 0 where
  field_not_present : AdaptationFieldError
  not_enough_data : AdaptationFieldError
  splice_timestamp_error : TimestampError → AdaptationFieldError

abbrev pub pcr_size : ℕ
pcr_size = 6

-- `AdaptationField::slice` and `AdaptationFieldExtension::slice`.
unfoldable pub slice : List ℕ → ℕ → ℕ → Outcome AdaptationFieldError (List ℕ)
slice buf from to = if ltb (length buf) to then err not_enough_data else slice_range buf from to

-- A flag of the first byte: `self.buf[0] & mask != 0`.
abbrev pub flag : {E : Type 0} → List ℕ → ℕ → Outcome E Bool
flag buf mask = do b0 ← index buf 0; ok (has_bits b0 mask)

pub record AdaptationFieldExtension : Type 0 where
  pub buf : List ℕ

-- `AdaptationFieldExtension::new`.
unfoldable pub new_extension : List ℕ → Outcome AdaptationFieldError AdaptationFieldExtension
new_extension buf = if length buf == 0 then err not_enough_data else ok (record { buf = buf })

module _ (f : AdaptationField) where
  unfoldable pub discontinuity_indicator : Outcome AdaptationFieldError Bool
  discontinuity_indicator = flag f.buf 0b1000_0000

  unfoldable pub random_access_indicator : Outcome AdaptationFieldError Bool
  random_access_indicator = flag f.buf 0b0100_0000

  unfoldable pub elementary_stream_priority_indicator : Outcome AdaptationFieldError ℕ
  elementary_stream_priority_indicator = do b0 ← index f.buf 0; ok (shr (bit_and b0 0b10_0000) 5)

  unfoldable pub pcr : Outcome AdaptationFieldError ClockRef
  pcr = flag f.buf 0b1_0000 >>= λ present.
      if present then (do s ← slice f.buf 1 (1 + pcr_size); from_slice s) else err field_not_present

  unfoldable pub opcr_offset : Outcome AdaptationFieldError ℕ
  opcr_offset = do present ← flag f.buf 0b1_0000; ok (if present then 1 + pcr_size else 1)

  unfoldable pub opcr : Outcome AdaptationFieldError ClockRef
  opcr = flag f.buf 0b1000 >>= λ present.
      if present
      then (do off ← opcr_offset; s ← slice f.buf off (off + pcr_size); from_slice s)
      else err field_not_present

  unfoldable pub splice_countdown_offset : Outcome AdaptationFieldError ℕ
  splice_countdown_offset = do
    off ← opcr_offset
    present ← flag f.buf 0b1000
    ok (off + (if present then pcr_size else 0))

  unfoldable pub splice_countdown : Outcome AdaptationFieldError ℤ
  splice_countdown = flag f.buf 0b100 >>= λ present.
      if present
      then (do
        off ← splice_countdown_offset
        s ← slice f.buf off (off + 1)
        b ← index s 0
        ok (as_i8 b))
      else err field_not_present

  unfoldable pub private_data_offset : Outcome AdaptationFieldError ℕ
  private_data_offset = do
    off ← splice_countdown_offset
    present ← flag f.buf 0b100
    ok (off + (if present then 1 else 0))

  unfoldable pub transport_private_data : Outcome AdaptationFieldError (List ℕ)
  transport_private_data = flag f.buf 0b10 >>= λ present.
      if present
      then (do
        off ← private_data_offset
        s ← slice f.buf off (off + 1)
        len ← index s 0
        slice f.buf (off + 1) (off + 1 + len))
      else err field_not_present

  unfoldable pub extension_offset : Outcome AdaptationFieldError ℕ
  extension_offset = do
    off ← private_data_offset
    present ← flag f.buf 0b10
    if present
        then (do s ← slice f.buf off (off + 1); len ← index s 0; ok (off + (len + 1)))
        else ok (off + 0)

  unfoldable pub adaptation_field_extension : Outcome AdaptationFieldError AdaptationFieldExtension
  adaptation_field_extension = flag f.buf 0b1 >>= λ present.
      if present
      then (do
        off ← extension_offset
        s ← slice f.buf off (off + 1)
        len ← index s 0
        body ← slice f.buf (off + 1) (off + 1 + len)
        new_extension body)
      else err field_not_present

pub record SeamlessSplice : Type 0 where
  pub splice_type : ℕ
  pub dts_next_au : Timestamp

module _ (x : AdaptationFieldExtension) where
  unfoldable pub ltw_offset : Outcome AdaptationFieldError (Option ℕ)
  ltw_offset = flag x.buf 0b1000_0000 >>= λ present.
      if present
      then (do
        dat ← slice x.buf 1 3
        d0 ← index dat 0
        let valid : Outcome AdaptationFieldError (Option ℕ) = do
          d1 ← index dat 1
          ok (some (bit_or (shl16 (bit_and d0 0b0111_1111) 8) d1))
        if has_bits d0 0b1000_0000 then valid else ok none)
      else err field_not_present

  unfoldable pub piecewise_rate_offset : Outcome AdaptationFieldError ℕ
  piecewise_rate_offset = do present ← flag x.buf 0b1000_0000; ok (1 + (if present then 2 else 0))

  unfoldable pub piecewise_rate : Outcome AdaptationFieldError ℕ
  piecewise_rate = flag x.buf 0b0100_0000 >>= λ present.
      if present
      then (do
        off ← piecewise_rate_offset
        dat ← slice x.buf off (off + 3)
        d0 ← index dat 0
        d1 ← index dat 1
        d2 ← index dat 2
        ok (bit_or (bit_or (shl32 (bit_and d0 0b0011_1111) 16) (shl32 d1 8)) d2))
      else err field_not_present

  unfoldable pub seamless_splice_offset : Outcome AdaptationFieldError ℕ
  seamless_splice_offset = do
    off ← piecewise_rate_offset
    present ← flag x.buf 0b0100_0000
    ok (off + (if present then 3 else 0))

  unfoldable pub seamless_splice : Outcome AdaptationFieldError SeamlessSplice
  seamless_splice = flag x.buf 0b0010_0000 >>= λ present.
      if present
      then (do
        off ← seamless_splice_offset
        dat ← slice x.buf off (off + 5)
        d0 ← index dat 0
        dts ← map_err splice_timestamp_error (from_bytes dat)
        ok (record { splice_type = shr d0 4; dts_next_au = dts }))
      else err field_not_present
