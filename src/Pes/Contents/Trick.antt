-- ===== src/Pes/Contents/Trick.antt =====
-- src/pes.rs: the byte of the trick mode, and that every mode is read back from it.
use mpeg2ts_reader.Base.{
  ℕ, ◌+◌, ◌*◌, ◌/◌, ◌%◌, ◌^◌, ◌≤◌, ◌<◌, ◌≡◌, refl, ◌∙◌, arith, Bool, true, false, ◌==◌, bit_and,
}
use mpeg2ts_reader.Base.{ok, ≢→==}
use mpeg2ts_reader.Base.Bits.{and_mask, has_bits, has_bit, shr}
use mpeg2ts_reader.Pes.Contents.Fields.{
  FrequencyTruncation, dc_non_zero, first_three_non_zero, first_six_non_zero, all_maybe_non_zero,
  DsmTrickMode, fast_forward, slow_motion, freeze_frame, fast_reverse, slow_reverse, reserved,
  from_id, trick_mode_of,
}

abbrev id_of : FrequencyTruncation → ℕ
id_of dc_non_zero = 0
id_of first_three_non_zero = 1
id_of first_six_non_zero = 2
id_of all_maybe_non_zero = 3

abbrev bit_of : Bool → ℕ
bit_of true = 1
bit_of false = 0

-- Three bits for the mode, five for what it has.
abbrev pub encode : DsmTrickMode → ℕ
encode (fast_forward f i c) = f * 8 + bit_of i * 4 + id_of c
encode (slow_motion r) = 32 + r
encode (freeze_frame f r) = 64 + f * 8 + r
encode (fast_reverse f i c) = 96 + f * 8 + bit_of i * 4 + id_of c
encode (slow_reverse r) = 128 + r
encode (reserved m) = m * 32

abbrev pub IsMode : DsmTrickMode → Type 0
IsMode (fast_forward f i c) = f < 4
IsMode (slow_motion r) = r < 32
IsMode (freeze_frame f r) = (f < 4) × (r < 8)
IsMode (fast_reverse f i c) = f < 4
IsMode (slow_reverse r) = r < 32
IsMode (reserved m) = (5 ≤ m) × (m < 8)

from_id_lem : {E : Type 0} (c : FrequencyTruncation) → from_id {E = E} (id_of c) ≡ ok c
unfolding from_id
from_id_lem dc_non_zero = refl
from_id_lem first_three_non_zero = refl
from_id_lem first_six_non_zero = refl
from_id_lem all_maybe_non_zero = refl

id_of-lt : (c : FrequencyTruncation) → id_of c < 4
id_of-lt dc_non_zero = omega arith
id_of-lt first_three_non_zero = omega arith
id_of-lt first_six_non_zero = omega arith
id_of-lt all_maybe_non_zero = omega arith

bit_of-le : (i : Bool) → bit_of i ≤ 1
bit_of-le true = omega arith
bit_of-le false = omega arith

bit_of_test : (i : Bool) → (bit_of i == 1) ≡ i
bit_of_test true = refl
bit_of_test false = refl

-- What the five bits of a fast mode read.
fast_lem :
    {E : Type 0} (f : ℕ) (i : Bool) (c : FrequencyTruncation)
    → f < 4
    → (shr (f * 8 + bit_of i * 4 + id_of c) 3 ≡ f)
      × (has_bits (f * 8 + bit_of i * 4 + id_of c) 0b100 ≡ i)
      × (from_id {E = E} (bit_and (f * 8 + bit_of i * 4 + id_of c) 0b11) ≡ ok c)
fast_lem {E} f i c h =
    let s = id_of-lt c in
    let b = bit_of-le i in
    let low = f * 8 + bit_of i * 4 + id_of c in
    let flag : low / 2 ^ 2 % 2 ≡ bit_of i = omega arith in
    let id : low % 4 ≡ id_of c = omega arith in
    (
      omega arith,
      has_bit 2 low (omega arith) (omega arith) ∙ rw flag (bit_of_test i),
      rw (and_mask 2 low, id) (from_id_lem {E = E} c),
    )

-- Every mode is read back from its byte.
pub trick_mode_of-encode :
    {E : Type 0} (m : DsmTrickMode) → IsMode m → trick_mode_of {E = E} (encode m) ≡ ok m
unfolding trick_mode_of
trick_mode_of-encode {E} (fast_forward f i c) h =
    let s = id_of-lt c in
    let b = bit_of-le i in
    let byte = f * 8 + bit_of i * 4 + id_of c in
    let control : shr byte 5 ≡ 0 = omega arith in
    let value : byte % 32 ≡ f * 8 + bit_of i * 4 + id_of c = omega arith in
    let (field, flag, id) = fast_lem {E = E} f i c h in
    rw (control, and_mask 5 byte, value, field, flag, id) refl
trick_mode_of-encode (slow_motion r) h =
    let control : shr (32 + r) 5 ≡ 1 = omega arith in
    let value : (32 + r) % 32 ≡ r = omega arith in rw (control, and_mask 5 (32 + r), value) refl
trick_mode_of-encode (freeze_frame f r) (h, l) =
    let control : shr (64 + f * 8 + r) 5 ≡ 2 = omega arith in
    let value : (64 + f * 8 + r) % 32 ≡ f * 8 + r = omega arith in
    let field : shr (f * 8 + r) 3 ≡ f = omega arith in
    let low : (f * 8 + r) % 8 ≡ r = omega arith in
    rw (control, and_mask 5 (64 + f * 8 + r), value, field, and_mask 3 (f * 8 + r), low) refl
trick_mode_of-encode {E} (fast_reverse f i c) h =
    let s = id_of-lt c in
    let b = bit_of-le i in
    let byte = 96 + f * 8 + bit_of i * 4 + id_of c in
    let control : shr byte 5 ≡ 3 = omega arith in
    let value : byte % 32 ≡ f * 8 + bit_of i * 4 + id_of c = omega arith in
    let (field, flag, id) = fast_lem {E = E} f i c h in
    rw (control, and_mask 5 byte, value, field, flag, id) refl
trick_mode_of-encode (slow_reverse r) h =
    let control : shr (128 + r) 5 ≡ 4 = omega arith in
    let value : (128 + r) % 32 ≡ r = omega arith in rw (control, and_mask 5 (128 + r), value) refl
trick_mode_of-encode (reserved m) (l, h) =
    let control : shr (m * 32) 5 ≡ m = omega arith in
    let e0 : (m == 0) ≡ false = ≢→== m 0 (omega arith) in
    let e1 : (m == 1) ≡ false = ≢→== m 1 (omega arith) in
    let e2 : (m == 2) ≡ false = ≢→== m 2 (omega arith) in
    let e3 : (m == 3) ≡ false = ≢→== m 3 (omega arith) in
    let e4 : (m == 4) ≡ false = ≢→== m 4 (omega arith) in rw (control, e0, e1, e2, e3, e4) refl
