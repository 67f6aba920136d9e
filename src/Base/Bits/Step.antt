-- ===== src/Base/Bits/Step.antt =====
-- One binary digit of `&`, `|` and `^`. The native operations mean a recursion on the digits of
-- the first number, with a count of digits that these lemmas remove.
use Prim.Native.Nat.{ℕ, zero, suc, ◌+◌, ◌*◌, ◌/◌, ◌%◌, ◌≤◌, ◌<◌, min, max, digits, bitwise, differ}
use Prim.Native.Nat.{bit_and, bit_or, bit_xor, bit_and-bitwise, bit_or-bitwise, bit_xor-bitwise}
use mathlib.Core.Path.{◌≡◌, refl, ap}
use native.Mathlib.Omega.{arith}

module _ (z : ℕ → ℕ) (f : ℕ → ℕ → ℕ) where
  -- A count beyond the number of digits makes no difference.
  spare_count : (a b n m : ℕ) → a ≤ n → n ≤ m → digits z f m a b ≡ digits z f n a b
  spare_count zero b zero zero h l = refl
  spare_count zero b zero (suc m) h l = refl
  spare_count a b (suc n) zero h l = absurd (omega arith)
  spare_count (suc a) b zero m h l = absurd (omega arith)
  spare_count zero b (suc n) (suc m) h l = refl
  spare_count (suc a) b (suc n) (suc m) h l =
      let next = spare_count (suc a / 2) (b / 2) n m (omega arith) (omega arith) in
      ap (λ (d : ℕ). d * 2 + f (suc a % 2) (b % 2)) next

  halved : (a b : ℕ) → digits z f a (suc a / 2) (b / 2) ≡ bitwise z f (suc a / 2) (b / 2)
  halved a b = spare_count (suc a / 2) (b / 2) (suc a / 2) a (omega arith) (omega arith)

differ_bits : (a b : ℕ) → a < 2 → b < 2 → differ a b ≡ (a + b) % 2
differ_bits zero b h k = omega arith
differ_bits (suc zero) zero h k = refl
differ_bits (suc zero) (suc zero) h k = refl
differ_bits (suc zero) (suc (suc b)) h k = absurd (omega arith)
differ_bits (suc (suc a)) b h k = absurd (omega arith)

-- Where the first number is zero the tactics see the digits at once.
pub bit_and_step : (a b : ℕ) → bit_and a b ≡ bit_and (a / 2) (b / 2) * 2 + min (a % 2) (b % 2)
bit_and_step (suc a) b =
    omega (
      arith,
      halved (λ y. 0) min a b,
      bit_and-bitwise (suc a) b,
      bit_and-bitwise (suc a / 2) (b / 2),
    )
bit_and_step zero b = omega (arith, bit_and-bitwise 0 b, bit_and-bitwise 0 (b / 2))

pub bit_or_step : (a b : ℕ) → bit_or a b ≡ bit_or (a / 2) (b / 2) * 2 + max (a % 2) (b % 2)
bit_or_step (suc a) b =
    omega
      (arith, halved (λ y. y) max a b, bit_or-bitwise (suc a) b, bit_or-bitwise (suc a / 2) (b / 2))
bit_or_step zero b = omega (arith, bit_or-bitwise 0 b, bit_or-bitwise 0 (b / 2))

xor_differ_step : (a b : ℕ) → bit_xor a b ≡ bit_xor (a / 2) (b / 2) * 2 + differ (a % 2) (b % 2)
xor_differ_step (suc a) b = omega (
  arith,
  halved (λ y. y) differ a b,
  bit_xor-bitwise (suc a) b,
  bit_xor-bitwise (suc a / 2) (b / 2),
)
xor_differ_step zero b = omega (arith, bit_xor-bitwise 0 b, bit_xor-bitwise 0 (b / 2))

-- The lowest digit of `a ^ b` is that of `a + b`.
pub bit_xor_step : (a b : ℕ) → bit_xor a b ≡ bit_xor (a / 2) (b / 2) * 2 + (a + b) % 2
bit_xor_step a b =
    omega (arith, xor_differ_step a b, differ_bits (a % 2) (b % 2) (omega arith) (omega arith))
