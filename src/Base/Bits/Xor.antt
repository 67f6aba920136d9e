-- ===== src/Base/Bits/Xor.antt =====
-- The laws of `^` on words of every width.
use Prim.Native.Nat.{ℕ, zero, suc, ◌+◌, ◌*◌, ◌/◌, ◌%◌, ◌^◌, ◌≤◌, ◌<◌, bit_xor}
use mathlib.Core.Path.{◌≡◌, refl, sym, ap, ap₂, ◌∙◌}
use native.Mathlib.Omega.{arith}
use native.Mathlib.Nat.{pow-suc, one-le-pow}
use mpeg2ts_reader.Base.Bits.Step.{bit_xor_step}

xor_self_fuel : (n a : ℕ) → a ≤ n → bit_xor a a ≡ 0
xor_self_fuel zero zero h = refl
xor_self_fuel zero (suc a) h = absurd (omega arith)
xor_self_fuel (suc n) a h = omega (arith, bit_xor_step a a, xor_self_fuel n (a / 2) (omega arith))

pub xor_self : (a : ℕ) → bit_xor a a ≡ 0
xor_self a = xor_self_fuel a a (omega arith)

zero_xor_fuel : (n a : ℕ) → a ≤ n → bit_xor 0 a ≡ a
zero_xor_fuel zero zero h = refl
zero_xor_fuel zero (suc a) h = absurd (omega arith)
zero_xor_fuel (suc n) a h = omega (arith, bit_xor_step 0 a, zero_xor_fuel n (a / 2) (omega arith))

pub zero_xor : (a : ℕ) → bit_xor 0 a ≡ a
zero_xor a = zero_xor_fuel a a (omega arith)

xor_comm_fuel : (n a b : ℕ) → a ≤ n → b ≤ n → bit_xor a b ≡ bit_xor b a
xor_comm_fuel zero zero zero h k = refl
xor_comm_fuel zero zero (suc b) h k = absurd (omega arith)
xor_comm_fuel zero (suc a) b h k = absurd (omega arith)
xor_comm_fuel (suc n) a b h k = omega (
  arith,
  bit_xor_step a b,
  bit_xor_step b a,
  xor_comm_fuel n (a / 2) (b / 2) (omega arith) (omega arith),
)

pub xor_comm : (a b : ℕ) → bit_xor a b ≡ bit_xor b a
xor_comm a b = xor_comm_fuel (a + b) a b (omega arith) (omega arith)

pub xor_zero : (a : ℕ) → bit_xor a 0 ≡ a
xor_zero a = xor_comm a 0 ∙ zero_xor a

xor_half : (a b : ℕ) → bit_xor a b / 2 ≡ bit_xor (a / 2) (b / 2)
xor_half a b = omega (arith, bit_xor_step a b)

xor_parity : (a b : ℕ) → bit_xor a b % 2 ≡ (a + b) % 2
xor_parity a b = omega (arith, bit_xor_step a b)

xor_assoc_fuel :
    (n a b c : ℕ) → a ≤ n → b ≤ n → c ≤ n → bit_xor (bit_xor a b) c ≡ bit_xor a (bit_xor b c)
xor_assoc_fuel zero zero zero c h k l = rw (zero_xor c, zero_xor c) refl
xor_assoc_fuel zero zero (suc b) c h k l = absurd (omega arith)
xor_assoc_fuel zero (suc a) b c h k l = absurd (omega arith)
xor_assoc_fuel (suc n) a b c h k l =
    let ih = xor_assoc_fuel n (a / 2) (b / 2) (c / 2) (omega arith) (omega arith) (omega arith) in
    let left : bit_xor (bit_xor a b / 2) (c / 2) ≡ bit_xor (a / 2) (bit_xor b c / 2) =
      rw (xor_half a b, xor_half b c) ih in
    omega (
      arith,
      bit_xor_step (bit_xor a b) c,
      bit_xor_step a (bit_xor b c),
      xor_parity a b,
      xor_parity b c,
      left,
    )

pub xor_assoc : (a b c : ℕ) → bit_xor (bit_xor a b) c ≡ bit_xor a (bit_xor b c)
xor_assoc a b c = xor_assoc_fuel (a + b + c) a b c (omega arith) (omega arith) (omega arith)

pub xor-shift : (k a b : ℕ) → bit_xor (a * 2 ^ k) (b * 2 ^ k) ≡ bit_xor a b * 2 ^ k
xor-shift zero a b =
    let ea : a * 2 ^ 0 ≡ a = omega arith in
    let eb : b * 2 ^ 0 ≡ b = omega arith in rw (ea, eb) (omega arith)
xor-shift (suc k) a b =
    let ea : a * 2 ^ suc k ≡ 2 * (a * 2 ^ k) = omega (arith, ap (λ (t : ℕ). a * t) (pow-suc 2 k)) in
    let eb : b * 2 ^ suc k ≡ 2 * (b * 2 ^ k) = omega (arith, ap (λ (t : ℕ). b * t) (pow-suc 2 k)) in
    let ec : bit_xor a b * 2 ^ suc k ≡ 2 * (bit_xor a b * 2 ^ k) =
      omega (arith, ap (λ (t : ℕ). bit_xor a b * t) (pow-suc 2 k)) in
    ground (arith, ea, eb, ec, bit_xor_step (a * 2 ^ suc k) (b * 2 ^ suc k), xor-shift k a b)

-- Disjoint fields: `^` is a sum.
pub xor_fields : (k q r : ℕ) → r < 2 ^ k → bit_xor (q * 2 ^ k) r ≡ q * 2 ^ k + r
xor_fields zero q r h = ground (arith, xor_zero q)
xor_fields (suc k) q r h =
    let half : q * 2 ^ suc k ≡ 2 * (q * 2 ^ k) =
      omega (arith, ap (λ (t : ℕ). q * t) (pow-suc 2 k)) in
    ground (
      arith,
      half,
      pow-suc 2 k,
      bit_xor_step (q * 2 ^ suc k) r,
      xor_fields k q (r / 2) (omega (arith, pow-suc 2 k)),
    )

pub xor-lt : (k a b : ℕ) → a < 2 ^ k → b < 2 ^ k → bit_xor a b < 2 ^ k
xor-lt zero zero zero h l = omega arith
xor-lt zero zero (suc b) h l = absurd (omega arith)
xor-lt zero (suc a) b h l = absurd (omega arith)
xor-lt (suc k) a b h l = omega (
  arith,
  pow-suc 2 k,
  bit_xor_step a b,
  xor-lt k (a / 2) (b / 2) (omega (arith, pow-suc 2 k)) (omega (arith, pow-suc 2 k)),
)

pub xor_swap :
    (a b c d : ℕ) → bit_xor (bit_xor a b) (bit_xor c d) ≡ bit_xor (bit_xor a c) (bit_xor b d)
xor_swap a b c d =
    xor_assoc a b (bit_xor c d)
    ∙ ap (bit_xor a)
        (sym (xor_assoc b c d) ∙ ap (λ (t : ℕ). bit_xor t d) (xor_comm b c) ∙ xor_assoc c b d)
    ∙ sym (xor_assoc a c (bit_xor b d))

quot_lem : (m q r : ℕ) → r < m → (q * m + r) / m ≡ q
quot_lem m q r h = grind arith

rem_lem : (m q r : ℕ) → r < m → (q * m + r) % m ≡ r
rem_lem m q r h = grind arith

-- `^` acts on the high and on the low bits separately.
pub xor_split :
    (k a b : ℕ)
    → (bit_xor a b / 2 ^ k ≡ bit_xor (a / 2 ^ k) (b / 2 ^ k))
      × (bit_xor a b % 2 ^ k ≡ bit_xor (a % 2 ^ k) (b % 2 ^ k))
xor_split k a b =
    let m = 2 ^ k in
    let pos = one-le-pow k 2 in
    let fa : a ≡ bit_xor (a / m * m) (a % m) =
      sym (xor_fields k (a / m) (a % m) (ground (arith, pos)) ∙ ground (arith, pos)) in
    let fb : b ≡ bit_xor (b / m * m) (b % m) =
      sym (xor_fields k (b / m) (b % m) (ground (arith, pos)) ∙ ground (arith, pos)) in
    let low : bit_xor (a % m) (b % m) < m =
      xor-lt k (a % m) (b % m) (ground (arith, pos)) (ground (arith, pos)) in
    let regroup : bit_xor (bit_xor (a / m * m) (a % m)) (bit_xor (b / m * m) (b % m))
        ≡ bit_xor (bit_xor (a / m) (b / m) * m) (bit_xor (a % m) (b % m)) =
      xor_swap (a / m * m) (a % m) (b / m * m) (b % m)
      ∙ ap (λ (t : ℕ). bit_xor t (bit_xor (a % m) (b % m))) (xor-shift k (a / m) (b / m)) in
    let whole : bit_xor a b ≡ bit_xor (a / m) (b / m) * m + bit_xor (a % m) (b % m) =
      ap₂ bit_xor fa fb
      ∙ regroup
      ∙ xor_fields k (bit_xor (a / m) (b / m)) (bit_xor (a % m) (b % m)) low in
    (rw whole (quot_lem m _ _ low), rw whole (rem_lem m _ _ low))
