-- ===== src/Base/Bits.antt =====
-- Words of Rust as native numbers: shifts, `|` of disjoint fields, `&` with a mask, and the bits
-- of a byte.
mod Step
pub mod Xor
mod Byte
unfoldable pub use Byte.*
use Step.{bit_or_step, bit_and_step}
use Prim.Native.Nat.{ℕ, zero, suc, ◌+◌, ◌-◌, ◌*◌, ◌/◌, ◌%◌, ◌^◌, ◌<◌, ◌≤◌, bit_and, bit_or}
use mathlib.Core.Path.{◌≡◌, refl, ap}
use native.Mathlib.Omega.{arith}
use native.Mathlib.Nat.{pow-suc, one-le-pow}

-- `x << k` on the unsigned types, which drops the bits shifted out; `x >> k`.
abbrev pub shl16 : ℕ → ℕ → ℕ
shl16 x k = x * 2 ^ k % 2 ^ 16

abbrev pub shl32 : ℕ → ℕ → ℕ
shl32 x k = x * 2 ^ k % 2 ^ 32

abbrev pub shl64 : ℕ → ℕ → ℕ
shl64 x k = x * 2 ^ k % 2 ^ 64

abbrev pub shr : ℕ → ℕ → ℕ
shr x k = x / 2 ^ k

or_zero_fuel : (n a : ℕ) → a ≤ n → bit_or a 0 ≡ a
or_zero_fuel zero zero h = refl
or_zero_fuel zero (suc a) h = absurd (omega arith)
or_zero_fuel (suc n) a h = omega (arith, bit_or_step a 0, or_zero_fuel n (a / 2) (omega arith))

and_zero_fuel : (n a : ℕ) → a ≤ n → bit_and a 0 ≡ 0
and_zero_fuel zero zero h = refl
and_zero_fuel zero (suc a) h = absurd (omega arith)
and_zero_fuel (suc n) a h = omega (arith, bit_and_step a 0, and_zero_fuel n (a / 2) (omega arith))

-- A field above the low `k` bits, joined to one that fits them, is a sum.
pub or_fields : (k q r : ℕ) → r < 2 ^ k → bit_or (q * 2 ^ k) r ≡ q * 2 ^ k + r
or_fields zero q r h = ground (arith, or_zero_fuel q q)
or_fields (suc k) q r h =
    let half : q * 2 ^ suc k ≡ 2 * (q * 2 ^ k) =
      omega (arith, ap (λ (t : ℕ). q * t) (pow-suc 2 k)) in
    ground (
      arith,
      half,
      pow-suc 2 k,
      bit_or_step (q * 2 ^ suc k) r,
      or_fields k q (r / 2) (omega (arith, pow-suc 2 k)),
    )

and_fields : (k q r : ℕ) → r < 2 ^ k → bit_and (q * 2 ^ k + r) (2 ^ k - 1) ≡ r
and_fields zero q r h = ground (arith, and_zero_fuel (q * 2 ^ 0 + r) (q * 2 ^ 0 + r))
and_fields (suc k) q r h =
    let half : q * 2 ^ suc k ≡ 2 * (q * 2 ^ k) =
      omega (arith, ap (λ (t : ℕ). q * t) (pow-suc 2 k)) in
    ground (
      arith,
      half,
      pow-suc 2 k,
      bit_and_step (q * 2 ^ suc k + r) (2 ^ suc k - 1),
      and_fields k q (r / 2) (omega (arith, pow-suc 2 k)),
    )

-- A mask of the `k` low bits is a remainder.
pub and_mask : (k a : ℕ) → bit_and a (2 ^ k - 1) ≡ a % 2 ^ k
and_mask k a = ground (arith, one-le-pow k 2, and_fields k (a / 2 ^ k) (a % 2 ^ k))

-- `|` with a word that has none of the low `k` bits.
pub or_add : (k a r : ℕ) → a % 2 ^ k ≡ 0 → r < 2 ^ k → bit_or a r ≡ a + r
or_add k a r h l =
    let e : a ≡ a / 2 ^ k * 2 ^ k = ground arith in
    let joined : bit_or (a / 2 ^ k * 2 ^ k) r ≡ a / 2 ^ k * 2 ^ k + r =
      or_fields k (a / 2 ^ k) r l in
    rw e joined

-- Two bytes as a big-endian `u16`.
pub or_bytes : (hi lo : ℕ) → hi < 256 → lo < 256 → bit_or (shl16 hi 8) lo ≡ hi * 256 + lo
or_bytes hi lo h l =
    let e : shl16 hi 8 ≡ hi * 256 = omega arith in rw e (or_add 8 (hi * 256) lo (omega arith) l)
