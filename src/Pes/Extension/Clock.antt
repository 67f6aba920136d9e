-- ===== src/Pes/Extension/Clock.antt =====
-- src/pes.rs: the clock references of the ESCR field and of the pack header, among their marker
-- bits.
use mpeg2ts_reader.Base.{
  ℕ, ◌+◌, ◌*◌, ◌/◌, ◌%◌, ◌^◌, ◌≤◌, ◌<◌, ◌≡◌, refl, ◌∙◌, arith, lt→ltb, ◌==◌, ==→≡, List, [], ◌∷◌,
  length, get_or, bit_and, bit_or,
}
use mpeg2ts_reader.Base.{ok}
use mpeg2ts_reader.Base.Bits.{IsBytes, all_below, for_bytes, and_mask, or_add, shl16, shl64, shr}
use mpeg2ts_reader.Packet.ClockRef.{ClockRef, from_parts}
use mpeg2ts_reader.Pes.Extension.{escr_clock}

-- Masks of the middle and of the high bits of a byte.
pub mask_38 : (x : ℕ) → x < 256 → bit_and x 0b0011_1000 ≡ x / 8 % 8 * 8
unfolding all_below
mask_38 x h = ==→≡ _ _ (for_bytes (λ b. bit_and b 0b0011_1000 == b / 8 % 8 * 8) refl x h)

pub mask_f8 : (x : ℕ) → x < 256 → bit_and x 0b1111_1000 ≡ x / 8 * 8
unfolding all_below
mask_f8 x h = ==→≡ _ _ (for_bytes (λ b. bit_and b 0b1111_1000 == b / 8 * 8) refl x h)

pub mask_fe : (x : ℕ) → x < 256 → bit_and x 0b1111_1110 ≡ x / 2 * 2
unfolding all_below
mask_fe x h = ==→≡ _ _ (for_bytes (λ b. bit_and b 0b1111_1110 == b / 2 * 2) refl x h)

-- The bits between the markers, as a number.
abbrev pub base_of : (s0 s1 s2 s3 s4 : ℕ) → ℕ
base_of s0 s1 s2 s3 s4 =
    s0 / 8 % 8 * 2 ^ 30
    + s0 % 4 * 2 ^ 28
    + s1 * 2 ^ 20
    + s2 / 8 * 2 ^ 15
    + s2 % 4 * 2 ^ 13
    + s3 * 2 ^ 5
    + s4 / 8

abbrev pub extension_of : (s4 s5 : ℕ) → ℕ
extension_of s4 s5 = s4 % 4 * 128 + s5 / 2

module _ (s0 s1 s2 s3 s4 s5 : ℕ) (h : IsBytes (s0 ∷ s1 ∷ s2 ∷ s3 ∷ s4 ∷ s5 ∷ [])) where
  base_lem :
      bit_or
        (bit_or
          (bit_or
            (bit_or
              (bit_or
                (bit_or (shl64 (bit_and s0 0b0011_1000) 27) (shl64 (bit_and s0 0b0000_0011) 28))
                (shl64 s1 20))
              (shl64 (bit_and s2 0b1111_1000) 12))
            (shl64 (bit_and s2 0b0000_0011) 13))
          (shl64 s3 5))
        (shr (bit_and s4 0b1111_1000) 3)
      ≡ base_of s0 s1 s2 s3 s4
  base_lem =
      let v0 : shl64 (s0 / 8 % 8 * 8) 27 ≡ s0 / 8 % 8 * 2 ^ 30 = omega arith in
      let v1 : shl64 (s0 % 4) 28 ≡ s0 % 4 * 2 ^ 28 = omega arith in
      let v2 : shl64 s1 20 ≡ s1 * 2 ^ 20 = omega arith in
      let v3 : shl64 (s2 / 8 * 8) 12 ≡ s2 / 8 * 2 ^ 15 = omega arith in
      let v4 : shl64 (s2 % 4) 13 ≡ s2 % 4 * 2 ^ 13 = omega arith in
      let v5 : shl64 s3 5 ≡ s3 * 2 ^ 5 = omega arith in
      let v6 : shr (s4 / 8 * 8) 3 ≡ s4 / 8 = omega arith in
      rw
        (
          mask_38 s0 (omega arith),
          and_mask 2 s0,
          mask_f8 s2 (omega arith),
          and_mask 2 s2,
          mask_f8 s4 (omega arith),
          v0,
          v1,
          v2,
          v3,
          v4,
          v5,
          v6,
          or_add 30 (s0 / 8 % 8 * 2 ^ 30) (s0 % 4 * 2 ^ 28) (omega arith) (omega arith),
          or_add 28 (s0 / 8 % 8 * 2 ^ 30 + s0 % 4 * 2 ^ 28) (s1 * 2 ^ 20) (omega arith)
              (omega arith),
          or_add 20 (s0 / 8 % 8 * 2 ^ 30 + s0 % 4 * 2 ^ 28 + s1 * 2 ^ 20) (s2 / 8 * 2 ^ 15)
              (omega arith) (omega arith),
          or_add 15 (s0 / 8 % 8 * 2 ^ 30 + s0 % 4 * 2 ^ 28 + s1 * 2 ^ 20 + s2 / 8 * 2 ^ 15)
              (s2 % 4 * 2 ^ 13) (omega arith) (omega arith),
          or_add 13
              (s0 / 8 % 8 * 2 ^ 30
                + s0 % 4 * 2 ^ 28
                + s1 * 2 ^ 20
                + s2 / 8 * 2 ^ 15
                + s2 % 4 * 2 ^ 13)
              (s3 * 2 ^ 5) (omega arith) (omega arith),
          or_add 5
              (s0 / 8 % 8 * 2 ^ 30
                + s0 % 4 * 2 ^ 28
                + s1 * 2 ^ 20
                + s2 / 8 * 2 ^ 15
                + s2 % 4 * 2 ^ 13
                + s3 * 2 ^ 5)
              (s4 / 8) (omega arith) (omega arith),
        )
        refl

  extension_lem :
      bit_or (shl16 (bit_and s4 0b0000_0011) 7) (shr (bit_and s5 0b1111_1110) 1)
      ≡ extension_of s4 s5
  extension_lem =
      let v0 : shl16 (s4 % 4) 7 ≡ s4 % 4 * 128 = omega arith in
      let v1 : shr (s5 / 2 * 2) 1 ≡ s5 / 2 = omega arith in
      rw
        (
          and_mask 2 s4,
          mask_fe s5 (omega arith),
          v0,
          v1,
          or_add 7 (s4 % 4 * 128) (s5 / 2) (omega arith) (omega arith),
        )
        refl

  from_parts_lem :
      {E : Type 0}
      → from_parts {E = E} (base_of s0 s1 s2 s3 s4) (extension_of s4 s5)
        ≡ ok (record { base = base_of s0 s1 s2 s3 s4; extension = extension_of s4 s5 })
  unfolding from_parts
  from_parts_lem =
      rw
        (
          lt→ltb (base_of s0 s1 s2 s3 s4) (2 ^ 33) (omega arith),
          lt→ltb (extension_of s4 s5) (2 ^ 9) (omega arith),
        )
        refl

  clock_lem :
      {E : Type 0} (rest : List ℕ)
      → escr_clock {E = E} (s0 ∷ s1 ∷ s2 ∷ s3 ∷ s4 ∷ s5 ∷ rest)
        ≡ ok (record { base = base_of s0 s1 s2 s3 s4; extension = extension_of s4 s5 })
  unfolding escr_clock
  clock_lem {E} rest = rw (base_lem, extension_lem) (from_parts_lem {E = E})

-- The read of six bytes never panics: the bits fit a base of 33 and an extension of 9.
pub escr_clock_lem :
    {E : Type 0} (s : List ℕ)
    → 6 ≤ length s
    → IsBytes s
    → escr_clock {E = E} s
      ≡ ok (record {
        base = base_of (get_or s 0 0) (get_or s 1 0) (get_or s 2 0) (get_or s 3 0) (get_or s 4 0);
        extension = extension_of (get_or s 4 0) (get_or s 5 0);
      })
escr_clock_lem (s0 ∷ s1 ∷ s2 ∷ s3 ∷ s4 ∷ s5 ∷ rest) n (h0, (h1, (h2, (h3, (h4, (h5, h)))))) =
    clock_lem s0 s1 s2 s3 s4 s5 (h0, (h1, (h2, (h3, (h4, (h5, tt)))))) rest
escr_clock_lem _ n h = absurd (omega arith)

-- The six bytes of a clock reference, with every marker bit set.
abbrev pub encode : ClockRef → List ℕ
encode c =
    (c.base / 2 ^ 30 * 8 + 4 + c.base / 2 ^ 28 % 4)
    ∷ c.base / 2 ^ 20 % 256
    ∷ (c.base / 2 ^ 15 % 32 * 8 + 4 + c.base / 2 ^ 13 % 4)
    ∷ c.base / 2 ^ 5 % 256
    ∷ (c.base % 32 * 8 + 4 + c.extension / 128)
    ∷ (c.extension % 128 * 2 + 1)
    ∷ []

-- Every clock reference that `from_parts` accepts survives the round trip through its six bytes.
pub escr_clock-encode :
    {E : Type 0} (c : ClockRef)
    → c.base < 2 ^ 33
    → c.extension < 2 ^ 9
    → escr_clock {E = E} (encode c) ≡ ok c
escr_clock-encode {E} c hb he =
    let base : base_of (c.base / 2 ^ 30 * 8 + 4 + c.base / 2 ^ 28 % 4) (c.base / 2 ^ 20 % 256)
          (c.base / 2 ^ 15 % 32 * 8 + 4 + c.base / 2 ^ 13 % 4) (c.base / 2 ^ 5 % 256)
          (c.base % 32 * 8 + 4 + c.extension / 128)
        ≡ c.base =
      omega arith in
    let extension : extension_of (c.base % 32 * 8 + 4 + c.extension / 128)
          (c.extension % 128 * 2 + 1)
        ≡ c.extension =
      omega arith in
    escr_clock_lem {E = E} (encode c) (omega arith)
      (omega arith, (omega arith, (omega arith, (omega arith, (omega arith, (omega arith, tt))))))
    ∙ rw (base, extension) refl
