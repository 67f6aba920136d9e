-- ===== src/Pes/Timestamp.antt =====
-- src/pes.rs: `Timestamp`, 33 bits of a 90kHz clock, and its five-byte form with marker bits.
pub mod Codec
use mpeg2ts_reader.Base.{
  ℕ, ◌+◌, ◌-◌, ◌*◌, ◌/◌, ◌%◌, ◌^◌, Bool, ◌&&◌, not, leb, ltb, ◌==◌, if◌then◌else◌, bit_and, bit_or,
  List,
}
use mpeg2ts_reader.Base.{Outcome, ok, err, assert, index, ◌>>=◌, ◌>>◌}
use mpeg2ts_reader.Base.Bits.{has_bits, shl64, shr}

pub data TimestampError : Type 0 where
  incorrect_prefix_bits : ℕ → ℕ → TimestampError
  marker_bit_not_set : ℕ → TimestampError

pub record Timestamp : Type 0 where
  pub val : ℕ

abbrev pub max_val : ℕ
max_val = 2 ^ 33 - 1

unfoldable pub check_prefix : List ℕ → ℕ → Outcome TimestampError (Unit {0})
check_prefix buf expected = do
  assert (leb expected 0b1111)
  b0 ← index buf 0
  if shr b0 4 == expected then ok tt else err (incorrect_prefix_bits expected (shr b0 4))

unfoldable pub check_marker_bit : List ℕ → ℕ → Outcome TimestampError (Unit {0})
check_marker_bit buf bit_number = do
  let byte_index = bit_number / 8
  let bit_index = bit_number % 8
  let bit_mask = 1 * 2 ^ (7 - bit_index) % 2 ^ 8
  b ← index buf byte_index
  if has_bits b bit_mask then ok tt else err (marker_bit_not_set bit_number)

unfoldable pub from_bytes : List ℕ → Outcome TimestampError Timestamp
unfolding check_marker_bit
from_bytes buf = do
  check_marker_bit buf 7
  check_marker_bit buf 23
  check_marker_bit buf 39
  b0 ← index buf 0
  b1 ← index buf 1
  b2 ← index buf 2
  b3 ← index buf 3
  b4 ← index buf 4
  ok (record {
    val =
        bit_or
          (bit_or
            (bit_or (bit_or (shl64 (bit_and b0 0b0000_1110) 29) (shl64 b1 22))
              (shl64 (bit_and b2 0b1111_1110) 14))
            (shl64 b3 7))
          (shr b4 1);
  })

unfoldable pub from_pts_bytes : List ℕ → Outcome TimestampError Timestamp
from_pts_bytes buf = do
  b0 ← index buf 0
  let actual = shr b0 4
  if not (actual == 0b0010) && not (actual == 0b0011)
      then err (incorrect_prefix_bits 0b0010 actual)
      else from_bytes buf

unfoldable pub from_dts_bytes : List ℕ → Outcome TimestampError Timestamp
unfolding check_prefix
from_dts_bytes buf = do check_prefix buf 0b0001; from_bytes buf

unfoldable pub from_u64 : {E : Type 0} → ℕ → Outcome E Timestamp
from_u64 val = do assert (leb val max_val); ok (record { val = val })

-- The subtraction is made only where `since` is not below `self`.
unfoldable pub likely_wrapped_since : Timestamp → Timestamp → Bool
likely_wrapped_since self since = leb self.val since.val && ltb (max_val / 2) (since.val - self.val)
