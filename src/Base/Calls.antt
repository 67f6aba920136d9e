-- ===== src/Base/Calls.antt =====
-- What a Rust call comes to: a value (`Ok`), an error that is returned (`Err`), or a panic (an
-- index or a slice out of range, a failed `assert!`, an arithmetic overflow). A function that
-- returns no `Result` is generic in the type of errors.
use Prim.Native.Nat.{ℕ, zero, suc, ◌-◌, ◌≤◌, ◌<◌}
use mathlib.Core.Path.{◌≡◌, refl, ap}
use mathlib.Core.Bool.{Bool, true, false, ◌&&◌}
use mathlib.Core.List.{List, [], ◌∷◌}
use native.Mathlib.Omega.{arith}
use mpeg2ts_reader.Base.Tests.{leb, if◌then◌else◌}
use mpeg2ts_reader.Base.Lists.{length, take, drop, get_or}

pub data Outcome (E A : Type 0) : Type 0 where
  ok : A → Outcome E A
  err : E → Outcome E A
  panic : Outcome E A

-- The `?` operator.
infixl 5 ◌>>=◌ ◌>>◌
abbrev pub ◌>>=◌ : {E A B : Type 0} → Outcome E A → (A → Outcome E B) → Outcome E B
ok a >>= f = f a
err e >>= f = err e
panic >>= f = panic

abbrev pub ◌>>◌ : {E B : Type 0} → Outcome E (Unit {0}) → Outcome E B → Outcome E B
m >> k = m >>= λ _. k

abbrev pub map_err : {E F A : Type 0} → (E → F) → Outcome E A → Outcome F A
map_err f (ok a) = ok a
map_err f (err e) = err (f e)
map_err f panic = panic

-- `assert!`.
abbrev pub assert : {E : Type 0} → Bool → Outcome E (Unit {0})
assert true = ok tt
assert false = panic

-- `buf[i]`.
abbrev pub index : {E A : Type 0} → List A → ℕ → Outcome E A
index [] i = panic
index (x ∷ xs) zero = ok x
index (x ∷ xs) (suc i) = index xs i

-- `&buf[from..to]`.
unfoldable pub slice_range : {E A : Type 0} → List A → ℕ → ℕ → Outcome E (List A)
slice_range buf from to =
    if leb from to && leb to (length buf) then ok (take (to - from) (drop from buf)) else panic

-- `&buf[from..]`.
unfoldable pub slice_from : {E A : Type 0} → List A → ℕ → Outcome E (List A)
slice_from buf from = if leb from (length buf) then ok (drop from buf) else panic

-- The call ends, with a value or with an error, and does not panic.
abbrev pub NoPanic : {E A : Type 0} → Outcome E A → Type 0
NoPanic (ok a) = Unit {0}
NoPanic (err e) = Unit {0}
NoPanic panic = ⊥

pub index-lt :
    {E : Type 0} (buf : List ℕ) (i : ℕ) → i < length buf → index {E = E} buf i ≡ ok (get_or buf i 0)
index-lt [] i h = absurd (omega arith)
index-lt (x ∷ xs) zero h = refl
index-lt (x ∷ xs) (suc i) h = index-lt xs i (omega arith)

pub slice_range_lem :
    {E : Type 0} (buf : List ℕ) (from to : ℕ)
    → from ≤ to
    → to ≤ length buf
    → slice_range {E = E} buf from to ≡ ok (take (to - from) (drop from buf))
unfolding slice_range
slice_range_lem buf from to h k = ground arith

pub slice_from_lem :
    {E : Type 0} (buf : List ℕ) (from : ℕ)
    → from ≤ length buf
    → slice_from {E = E} buf from ≡ ok (drop from buf)
unfolding slice_from
slice_from_lem buf from h = ground arith

pub slice_prefix :
    {E : Type 0} (buf : List ℕ) (n : ℕ)
    → n ≤ length buf
    → slice_range {E = E} buf 0 n ≡ ok (take n buf)
slice_prefix buf n h =
    let e : n - 0 ≡ n = omega arith in
    rw (slice_range_lem buf 0 n (omega arith) h) (ap (λ (k : ℕ). ok (take k buf)) e)

pub bind_assoc :
    {E A B D : Type 0} (m : Outcome E A) (f : A → Outcome E B) (g : B → Outcome E D)
    → ((m >>= f) >>= g) ≡ (m >>= λ a. f a >>= g)
bind_assoc (ok a) f g = refl
bind_assoc (err e) f g = refl
bind_assoc panic f g = refl

pub bind_ext :
    {E A B : Type 0} (m : Outcome E A) (f g : A → Outcome E B)
    → ((a : A) → f a ≡ g a)
    → (m >>= f) ≡ (m >>= g)
bind_ext (ok a) f g h = h a
bind_ext (err e) f g h = refl
bind_ext panic f g h = refl

-- Two chains that begin with the same call.
pub bind_same :
    {E A X Y B : Type 0} (m : Outcome E A) (f : A → Outcome E X) (g : A → Outcome E Y)
    (h : X → Outcome E B) (k : Y → Outcome E B)
    → ((a : A) → (f a >>= h) ≡ (g a >>= k))
    → ((m >>= f) >>= h) ≡ ((m >>= g) >>= k)
bind_same (ok a) f g h k e = e a
bind_same (err x) f g h k e = refl
bind_same panic f g h k e = refl

-- The call returns a value.
abbrev pub Ends : {E A : Type 0} → Outcome E A → Type 0
Ends {E} {A} m = (a : A) × (m ≡ ok a)

pub Ends-if :
    {E A : Type 0} (b : Bool) (x y : Outcome E A)
    → (b ≡ true → Ends x)
    → (b ≡ false → Ends y)
    → Ends (if b then x else y)
Ends-if true x y h k = h refl
Ends-if false x y h k = k refl

pub Ends-bind :
    {E A B : Type 0} (m : Outcome E A) (f : A → Outcome E B)
    → Ends m
    → ((a : A) → m ≡ ok a → Ends (f a))
    → Ends (m >>= f)
Ends-bind (ok a) f h k = k a refl
Ends-bind (err e) f h k = cc
Ends-bind panic f h k = cc

-- The call does not panic, and a value that it returns has the property.
abbrev pub Holds : {E A : Type 0} → (A → Type 0) → Outcome E A → Type 0
Holds P (ok a) = P a
Holds P (err e) = Unit {0}
Holds P panic = ⊥

pub Holds-if :
    {E A : Type 0} (P : A → Type 0) (b : Bool) (x y : Outcome E A)
    → (b ≡ true → Holds P x)
    → (b ≡ false → Holds P y)
    → Holds P (if b then x else y)
Holds-if P true x y h k = h refl
Holds-if P false x y h k = k refl

pub Holds-bind :
    {E A B : Type 0} (P : A → Type 0) (Q : B → Type 0) (m : Outcome E A) (f : A → Outcome E B)
    → Holds P m
    → ((a : A) → P a → Holds Q (f a))
    → Holds Q (m >>= f)
Holds-bind P Q (ok a) f h k = k a h
Holds-bind P Q (err e) f h k = tt
Holds-bind P Q panic f h k = absurd h

pub Holds-index :
    (E : Type 0) (P : ℕ → Type 0) (buf : List ℕ) (i : ℕ)
    → i < length buf
    → P (get_or buf i 0)
    → Holds P (index {E = E} buf i)
Holds-index E P buf i n p = rw (index-lt {E = E} buf i n) p

pub Holds-weaken :
    {E A : Type 0} (P Q : A → Type 0) (m : Outcome E A)
    → Holds P m
    → ((a : A) → P a → Q a)
    → Holds Q m
Holds-weaken P Q (ok a) h k = k a h
Holds-weaken P Q (err e) h k = tt
Holds-weaken P Q panic h k = absurd h

-- The call does not panic, a value that it returns has the property, and an error has the reason.
abbrev pub HoldsOr : {E A : Type 0} → (A → Type 0) → Type 0 → Outcome E A → Type 0
HoldsOr P R (ok a) = P a
HoldsOr P R (err e) = R
HoldsOr P R panic = ⊥

pub HoldsOr-if :
    {E A : Type 0} (P : A → Type 0) (R : Type 0) (b : Bool) (x y : Outcome E A)
    → (b ≡ true → HoldsOr P R x)
    → (b ≡ false → HoldsOr P R y)
    → HoldsOr P R (if b then x else y)
HoldsOr-if P R true x y h k = h refl
HoldsOr-if P R false x y h k = k refl

pub HoldsOr-bind :
    {E A B : Type 0} (P : A → Type 0) (Q : B → Type 0) (R : Type 0) (m : Outcome E A)
    (f : A → Outcome E B)
    → HoldsOr P R m
    → ((a : A) → P a → HoldsOr Q R (f a))
    → HoldsOr Q R (m >>= f)
HoldsOr-bind P Q R (ok a) f h k = k a h
HoldsOr-bind P Q R (err e) f h k = h
HoldsOr-bind P Q R panic f h k = absurd h

pub HoldsOr-reason :
    {E A : Type 0} (P : A → Type 0) (R R' : Type 0) (m : Outcome E A)
    → HoldsOr P R m
    → (R → R')
    → HoldsOr P R' m
HoldsOr-reason P R R' (ok a) h k = h
HoldsOr-reason P R R' (err e) h k = k h
HoldsOr-reason P R R' panic h k = absurd h
