-- ===== src/Base/Bits/Byte.antt =====
-- Single bits of a byte, by a check of all its values.
use Prim.Native.Nat.{ℕ, zero, suc, ◌/◌, ◌%◌, ◌^◌, ◌<◌, bit_and}
use mathlib.Core.Path.{◌≡◌, refl}
use mathlib.Core.List.{List, [], ◌∷◌, ◌++◌}
use mpeg2ts_reader.Base.Lists.{get_or, take, drop, All}
use mathlib.Core.Bool.{Bool, true, not, beq, ◌&&◌}
use native.Mathlib.Omega.{arith}
use mpeg2ts_reader.Base.Tests.{◌==◌}

-- `x & mask != 0`.
abbrev pub has_bits : ℕ → ℕ → Bool
has_bits x mask = not (bit_and x mask == 0)

unfoldable pub all_below : ℕ → (ℕ → Bool) → Bool
all_below zero p = true
all_below (suc n) p = p n && all_below n p

all_below_lem : (n : ℕ) (p : ℕ → Bool) (x : ℕ) → all_below n p ≡ true → x < n → p x ≡ true
unfolding all_below
all_below_lem zero p x h l = absurd (omega arith)
all_below_lem (suc n) p x h l = ground (arith, all_below_lem n p x)

-- A property of bytes that is checked at each of the 256 values.
pub for_bytes : (p : ℕ → Bool) → all_below 256 p ≡ true → (x : ℕ) → x < 256 → p x ≡ true
for_bytes p h x l = all_below_lem 256 p x h l

bit_row : ℕ → Bool
unfolding all_below
bit_row k = all_below 256 (λ b. beq (has_bits b (2 ^ k)) (b / 2 ^ k % 2 == 1))

bit_rows : all_below 8 bit_row ≡ true
unfolding all_below bit_row
bit_rows = refl

pub beq→≡ : (a b : Bool) → beq a b ≡ true → a ≡ b
beq→≡ a b h = ground arith

-- The test of bit `k` of a byte, as arithmetic.
pub has_bit : (k b : ℕ) → k < 8 → b < 256 → has_bits b (2 ^ k) ≡ (b / 2 ^ k % 2 == 1)
unfolding bit_row
has_bit k b h l = beq→≡ _ _ (
    all_below_lem 256 (λ b. beq (has_bits b (2 ^ k)) (b / 2 ^ k % 2 == 1)) b
      (all_below_lem 8 bit_row k bit_rows h) l)

-- The bytes of a buffer.
abbrev pub IsBytes : List ℕ → Type 0
IsBytes buf = All (λ b. b < 256) buf

pub byte-lt : (buf : List ℕ) (i : ℕ) → IsBytes buf → get_or buf i 0 < 256
byte-lt [] i h = omega arith
byte-lt (x ∷ xs) zero h = h.0
byte-lt (x ∷ xs) (suc i) h = byte-lt xs i h.1

pub IsBytes-take : (n : ℕ) (buf : List ℕ) → IsBytes buf → IsBytes (take n buf)
IsBytes-take zero buf h = tt
IsBytes-take (suc n) [] h = tt
IsBytes-take (suc n) (x ∷ xs) h = (h.0, IsBytes-take n xs h.1)

pub IsBytes-drop : (n : ℕ) (buf : List ℕ) → IsBytes buf → IsBytes (drop n buf)
IsBytes-drop zero buf h = h
IsBytes-drop (suc n) [] h = tt
IsBytes-drop (suc n) (x ∷ xs) h = IsBytes-drop n xs h.1

pub IsBytes-append : (xs ys : List ℕ) → IsBytes xs → IsBytes ys → IsBytes (xs ++ ys)
IsBytes-append [] ys h k = k
IsBytes-append (x ∷ xs) ys h k = (h.0, IsBytes-append xs ys h.1 k)

pub IsBytes-suffix : (xs ys : List ℕ) → IsBytes (xs ++ ys) → IsBytes ys
IsBytes-suffix [] ys h = h
IsBytes-suffix (x ∷ xs) ys h = IsBytes-suffix xs ys h.1

pub IsBytes-prefix : (xs ys : List ℕ) → IsBytes (xs ++ ys) → IsBytes xs
IsBytes-prefix [] ys h = tt
IsBytes-prefix (x ∷ xs) ys h = (h.0, IsBytes-prefix xs ys h.1)
