-- ===== src/Pes/Timestamp/Codec.antt =====
-- src/pes.rs: what `Timestamp::from_bytes` reads, which errors it reports, and the round trip with
-- the layout of ISO/IEC 13818-1.
use mpeg2ts_reader.Base.{
  ℕ, ◌+◌, ◌*◌, ◌/◌, ◌%◌, ◌^◌, ◌≤◌, ◌<◌, ◌≡◌, refl, ◌∙◌, arith, List, [], ◌∷◌, bit_and, bit_or, ◌==◌,
  ==→≡, if◌then◌else◌, ◌||◌, ltb,
}
use mpeg2ts_reader.Base.{ok, err}
use mpeg2ts_reader.Base.Bits.{IsBytes, has_bit, shl64, shr, or_add, all_below, for_bytes}
use mpeg2ts_reader.Pes.Timestamp.{
  Timestamp, marker_bit_not_set, incorrect_prefix_bits, from_bytes, from_pts_bytes, from_dts_bytes,
  likely_wrapped_since, max_val,
}

mask_0e : (x : ℕ) → x < 256 → bit_and x 0x0e ≡ x / 2 % 8 * 2
unfolding all_below
mask_0e x h = ==→≡ _ _ (for_bytes (λ x. bit_and x 0x0e == x / 2 % 8 * 2) refl x h)

mask_fe : (x : ℕ) → x < 256 → bit_and x 0xfe ≡ x / 2 * 2
unfolding all_below
mask_fe x h = ==→≡ _ _ (for_bytes (λ x. bit_and x 0xfe == x / 2 * 2) refl x h)

-- The 33 bits of a time, with the marker bits left out.
abbrev pub time_of : ℕ → ℕ → ℕ → ℕ → ℕ → ℕ
time_of b0 b1 b2 b3 b4 = b0 / 2 % 8 * 2 ^ 30 + b1 * 2 ^ 22 + b2 / 2 * 2 ^ 15 + b3 * 2 ^ 7 + b4 / 2

-- A time as five bytes: the four prefix bits, then 3, 15 and 15 bits, each group with its marker.
abbrev pub encode : ℕ → Timestamp → List ℕ
encode prefix t =
    (prefix * 16 + t.val / 2 ^ 30 * 2 + 1)
    ∷ t.val / 2 ^ 22 % 256
    ∷ (t.val / 2 ^ 15 % 128 * 2 + 1)
    ∷ t.val / 2 ^ 7 % 256
    ∷ (t.val % 128 * 2 + 1)
    ∷ []

module _ (b0 b1 b2 b3 b4 : ℕ) (rest : List ℕ) (h : IsBytes (b0 ∷ b1 ∷ b2 ∷ b3 ∷ b4 ∷ [])) where
  val_lem :
      bit_or
        (bit_or
          (bit_or (bit_or (shl64 (bit_and b0 0x0e) 29) (shl64 b1 22)) (shl64 (bit_and b2 0xfe) 14))
          (shl64 b3 7))
        (shr b4 1)
      ≡ time_of b0 b1 b2 b3 b4
  val_lem =
      rw
        (
          mask_0e b0 (omega arith),
          mask_fe b2 (omega arith),
          or_add 30 (shl64 (b0 / 2 % 8 * 2) 29) (shl64 b1 22) (omega arith) (omega arith),
          or_add 22 (shl64 (b0 / 2 % 8 * 2) 29 + shl64 b1 22) (shl64 (b2 / 2 * 2) 14) (omega arith)
              (omega arith),
          or_add 15 (shl64 (b0 / 2 % 8 * 2) 29 + shl64 b1 22 + shl64 (b2 / 2 * 2) 14) (shl64 b3 7)
              (omega arith) (omega arith),
          or_add 7 (shl64 (b0 / 2 % 8 * 2) 29 + shl64 b1 22 + shl64 (b2 / 2 * 2) 14 + shl64 b3 7)
              (shr b4 1) (omega arith) (omega arith),
        )
        (omega arith)

  -- What `from_bytes` gives for any five bytes: the three marker bits are tested in order, the
  -- first that is clear is the error, and else the other bits are the time.
  pub from_bytes_lem : from_bytes (b0 ∷ b1 ∷ b2 ∷ b3 ∷ b4 ∷ rest) ≡ (
      if b0 % 2 == 1
      then (if b2 % 2 == 1
          then (if b4 % 2 == 1
              then ok (record { val = time_of b0 b1 b2 b3 b4 })
              else err (marker_bit_not_set 39))
          else err (marker_bit_not_set 23))
      else err (marker_bit_not_set 7))
  unfolding from_bytes
  from_bytes_lem = rw val_lem (
      ground (
        arith,
        has_bit 0 b0 (omega arith) (omega arith),
        has_bit 0 b2 (omega arith) (omega arith),
        has_bit 0 b4 (omega arith) (omega arith),
      ))

-- A time never exceeds `Timestamp::MAX`.
pub from_bytes-le_max :
    (b0 b1 b2 b3 b4 : ℕ) (rest : List ℕ) (t : Timestamp)
    → IsBytes (b0 ∷ b1 ∷ b2 ∷ b3 ∷ b4 ∷ [])
    → from_bytes (b0 ∷ b1 ∷ b2 ∷ b3 ∷ b4 ∷ rest) ≡ ok t
    → t.val ≤ max_val
from_bytes-le_max b0 b1 b2 b3 b4 rest t h e = ground (arith, from_bytes_lem b0 b1 b2 b3 b4 rest h)

-- Every time survives the round trip under any prefix.
pub from_bytes-encode :
    (prefix : ℕ) (t : Timestamp)
    → prefix < 16
    → t.val ≤ max_val
    → from_bytes (encode prefix t) ≡ ok t
from_bytes-encode prefix t hp ht = from_bytes_lem _ _ _ _ _ [] (omega arith) ∙ ground arith

-- Every time up to `Timestamp::MAX`, written under a four-bit prefix, is read back by the reader
-- whose prefix it is, and refused by the other one with the prefix found.
pub from_pts-from_dts-encode :
    (prefix : ℕ) (t : Timestamp)
    → prefix < 16
    → t.val ≤ max_val
    → (from_pts_bytes (encode prefix t)
        ≡ (if (prefix == 2) || (prefix == 3) then ok t else err (incorrect_prefix_bits 2 prefix)))
      × (from_dts_bytes (encode prefix t)
          ≡ (if prefix == 1 then ok t else err (incorrect_prefix_bits 1 prefix)))
unfolding from_pts_bytes from_dts_bytes
from_pts-from_dts-encode prefix t hp ht =
    let read = from_bytes-encode prefix t hp ht in
    let top : (prefix * 16 + t.val / 2 ^ 30 * 2 + 1) / 2 ^ 4 ≡ prefix = omega arith in
    (rw (top, read) (ground arith), rw (top, read) (ground arith))

-- A clock that has advanced by no more than half of its range, from a time up to `Timestamp::MAX`,
-- is seen to wrap exactly when it did.
pub likely_wrapped_since_iff :
    (since : Timestamp) (elapsed : ℕ)
    → since.val ≤ max_val
    → elapsed ≤ max_val / 2
    → likely_wrapped_since (record { val = (since.val + elapsed) % 2 ^ 33 }) since
      ≡ ltb max_val (since.val + elapsed)
unfolding likely_wrapped_since
likely_wrapped_since_iff since elapsed hs he = ground arith
