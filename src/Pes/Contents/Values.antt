-- ===== src/Pes/Contents/Values.antt =====
-- src/pes.rs: the values of the optional fields of a PES header: reading them does not panic.
use mpeg2ts_reader.Base.{
  ℕ, ◌+◌, ◌*◌, ◌/◌, ◌%◌, ◌^◌, ◌<◌, ◌≡◌, refl, arith, Bool, true, false, lt→ltb, ◌==◌, if◌then◌else◌,
  bit_and, bit_or,
}
use mpeg2ts_reader.Base.{Outcome, ok, err, panic, Ends, Ends-if, Ends-bind, Holds}
use mpeg2ts_reader.Base.Bits.{and_mask, or_add, shl32, shr}
use mpeg2ts_reader.Pes.Header.{PesError, not_enough_data, field_not_present}
use mpeg2ts_reader.Pes.Extension.Clock.{mask_fe}
use mpeg2ts_reader.Pes.Contents.Fields.{kept, new_rate, from_id, trick_mode_of}

-- The accessor returns a value, or an error other than that bytes are missing.
abbrev pub Settles : {A : Type 0} → Outcome PesError A → Type 0
Settles (ok a) = Unit {0}
Settles (err (not_enough_data r a)) = ⊥
Settles (err e) = Unit {0}
Settles panic = ⊥

pub Settles-Ends : {A : Type 0} (m : Outcome PesError A) → Ends m → Settles m
Settles-Ends m (a, e) = rw e tt

pub Settles-flag :
    {A : Type 0} (b : Bool) (x : Outcome PesError A)
    → (b ≡ true → Settles x)
    → Settles (if b then x else err field_not_present)
Settles-flag true x h = h refl
Settles-flag false x h = tt

pub Settles-if :
    {A : Type 0} (b : Bool) (x y : Outcome PesError A)
    → (b ≡ true → Settles x)
    → (b ≡ false → Settles y)
    → Settles (if b then x else y)
Settles-if true x y h k = h refl
Settles-if false x y h k = k refl

-- A `Result` that is kept never fails.
pub kept-Ends :
    {X A : Type 0} (m : Outcome X A) → Holds (λ a. Unit {0}) m → Ends (kept {E = PesError} m)
kept-Ends (ok a) h = (_, refl)
kept-Ends (err e) h = (_, refl)
kept-Ends panic h = absurd h

pub new_rate_lem :
    {E : Type 0} (s0 s1 s2 : ℕ)
    → s0 < 256
    → s1 < 256
    → s2 < 256
    → new_rate {E = E} (
        bit_or
          (bit_or (shl32 (bit_and s0 0b0111_1111) 15) (shl32 s1 7))
          (shr (bit_and s2 0b1111_1110) 1))
      ≡ ok (record { val = s0 % 128 * 2 ^ 15 + s1 * 128 + s2 / 2 })
unfolding new_rate
new_rate_lem s0 s1 s2 h0 h1 h2 =
    let v0 : shl32 (s0 % 128) 15 ≡ s0 % 128 * 2 ^ 15 = omega arith in
    let v1 : shl32 s1 7 ≡ s1 * 128 = omega arith in
    let v2 : shr (s2 / 2 * 2) 1 ≡ s2 / 2 = omega arith in
    rw
      (
        and_mask 7 s0,
        mask_fe s2 h2,
        v0,
        v1,
        v2,
        or_add 15 (s0 % 128 * 2 ^ 15) (s1 * 128) (omega arith) (omega arith),
        or_add 7 (s0 % 128 * 2 ^ 15 + s1 * 128) (s2 / 2) (omega arith) (omega arith),
        lt→ltb (s0 % 128 * 2 ^ 15 + s1 * 128 + s2 / 2) (2 ^ 22) (omega arith),
      )
      refl

pub from_id-Ends : {E : Type 0} (x : ℕ) → x < 4 → Ends (from_id {E = E} x)
unfolding from_id
from_id-Ends x h =
    Ends-if (x == 0) _ _ (λ e. (_, refl))
      (λ e0.
        Ends-if (x == 1) _ _ (λ e. (_, refl))
          (λ e1.
            Ends-if (x == 2) _ _ (λ e. (_, refl))
              (λ e2. Ends-if (x == 3) _ _ (λ e. (_, refl)) (λ e3. absurd (ground arith)))))

pub trick_mode_of-Ends : {E : Type 0} (s0 : ℕ) → Ends (trick_mode_of {E = E} s0)
unfolding trick_mode_of
trick_mode_of-Ends {E} s0 =
    let mode = shr s0 5 in
    let low : bit_and (bit_and s0 0b0001_1111) 0b11 < 4 =
      omega (arith, and_mask 2 (bit_and s0 0b0001_1111)) in
    let coefficients = from_id-Ends {E = E} (bit_and (bit_and s0 0b0001_1111) 0b11) low in
    Ends-if (mode == 0) _ _
      (λ e.
        Ends-bind (from_id {E = E} (bit_and (bit_and s0 0b0001_1111) 0b11)) _ coefficients
          (λ f r. (_, refl)))
      (λ e0.
        Ends-if (mode == 1) _ _ (λ e. (_, refl))
          (λ e1.
            Ends-if (mode == 2) _ _ (λ e. (_, refl))
              (λ e2.
                Ends-if (mode == 3) _ _
                  (λ e.
                    Ends-bind (from_id {E = E} (bit_and (bit_and s0 0b0001_1111) 0b11)) _
                      coefficients (λ f r. (_, refl)))
                  (λ e3. Ends-if (mode == 4) _ _ (λ e. (_, refl)) (λ e4. (_, refl))))))
