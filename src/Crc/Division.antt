-- ===== src/Crc/Division.antt =====
-- src/mpegts_crc.rs: the division bit by bit that the table stands for, and its linearity.
use mpeg2ts_reader.Base.{
  ℕ, zero, suc, ◌*◌, ◌/◌, ◌%◌, ◌^◌, ◌<◌, ◌≡◌, refl, sym, ap, ap₂, ◌∙◌, arith, List, [], ◌∷◌,
  bit_xor,
}
use mpeg2ts_reader.Base.Bits.Xor.{xor_zero, xor-shift, xor-lt, xor_swap, xor_split}

abbrev pub generator : ℕ
generator = 0x04c1_1db7

-- What the bit shifted out subtracts.
abbrev pub subtrahend : ℕ → ℕ
subtrahend zero = 0
subtrahend (suc t) = generator

-- One step of the division: shift a bit out, and subtract the generator if it was set.
unfoldable pub crc_bit : ℕ → ℕ
crc_bit c = bit_xor (c % 2 ^ 31 * 2) (subtrahend (c / 2 ^ 31))

unfoldable pub crc_bits : ℕ → ℕ → ℕ
unfolding crc_bit
crc_bits zero c = c
crc_bits (suc n) c = crc_bits n (crc_bit c)

unfoldable pub crc_reference : ℕ → List ℕ → ℕ
unfolding crc_bits
crc_reference c [] = c
crc_reference c (d ∷ rest) = crc_reference (crc_bits 8 (bit_xor c (d * 2 ^ 24))) rest

pub subtrahend-xor :
    (s t : ℕ) → s < 2 → t < 2 → subtrahend (bit_xor s t) ≡ bit_xor (subtrahend s) (subtrahend t)
subtrahend-xor zero zero h l = refl
subtrahend-xor zero (suc zero) h l = refl
subtrahend-xor (suc zero) zero h l = refl
subtrahend-xor (suc zero) (suc zero) h l = refl
subtrahend-xor (suc (suc s)) t h l = absurd (omega arith)
subtrahend-xor zero (suc (suc t)) h l = absurd (omega arith)
subtrahend-xor (suc zero) (suc (suc t)) h l = absurd (omega arith)

pub subtrahend-lt : (t : ℕ) → subtrahend t < 2 ^ 32
subtrahend-lt zero = omega arith
subtrahend-lt (suc t) = omega arith

pub crc_bit-lt : (c : ℕ) → crc_bit c < 2 ^ 32
unfolding crc_bit
crc_bit-lt c = xor-lt 32 _ _ (omega arith) (subtrahend-lt (c / 2 ^ 31))

pub crc_bit-xor :
    (a b : ℕ) → a < 2 ^ 32 → b < 2 ^ 32 → crc_bit (bit_xor a b) ≡ bit_xor (crc_bit a) (crc_bit b)
unfolding crc_bit
crc_bit-xor a b h l =
    let split = xor_split 31 a b in
    ap₂ bit_xor (ap (λ (t : ℕ). t * 2) split.1 ∙ sym (xor-shift 1 (a % 2 ^ 31) (b % 2 ^ 31)))
      (ap subtrahend split.0 ∙ subtrahend-xor (a / 2 ^ 31) (b / 2 ^ 31) (omega arith) (omega arith))
    ∙ xor_swap (a % 2 ^ 31 * 2) (b % 2 ^ 31 * 2) (subtrahend (a / 2 ^ 31)) (subtrahend (b / 2 ^ 31))

pub crc_bits-lt : (n c : ℕ) → c < 2 ^ 32 → crc_bits n c < 2 ^ 32
unfolding crc_bits
crc_bits-lt zero c h = h
crc_bits-lt (suc n) c h = crc_bits-lt n (crc_bit c) (crc_bit-lt c)

pub crc_bits-xor :
    (n a b : ℕ)
    → a < 2 ^ 32
    → b < 2 ^ 32
    → crc_bits n (bit_xor a b) ≡ bit_xor (crc_bits n a) (crc_bits n b)
unfolding crc_bits
crc_bits-xor zero a b h l = refl
crc_bits-xor (suc n) a b h l =
    ap (crc_bits n) (crc_bit-xor a b h l)
    ∙ crc_bits-xor n (crc_bit a) (crc_bit b) (crc_bit-lt a) (crc_bit-lt b)

-- Low bits are only shifted.
pub crc_bit_low : (c : ℕ) → c < 2 ^ 31 → crc_bit c ≡ c * 2
unfolding crc_bit
crc_bit_low c h =
    let top : c / 2 ^ 31 ≡ 0 = omega arith in rw top (xor_zero (c % 2 ^ 31 * 2) ∙ omega arith)

pub crc_bits_low : (c : ℕ) → c < 2 ^ 24 → crc_bits 8 c ≡ c * 256
unfolding crc_bits
crc_bits_low c h =
    rw
      (
        crc_bit_low c (omega arith),
        crc_bit_low (c * 2) (omega arith),
        crc_bit_low (c * 2 * 2) (omega arith),
        crc_bit_low (c * 2 * 2 * 2) (omega arith),
        crc_bit_low (c * 2 * 2 * 2 * 2) (omega arith),
        crc_bit_low (c * 2 * 2 * 2 * 2 * 2) (omega arith),
        crc_bit_low (c * 2 * 2 * 2 * 2 * 2 * 2) (omega arith),
        crc_bit_low (c * 2 * 2 * 2 * 2 * 2 * 2 * 2) (omega arith),
      )
      (omega arith)
