-- ===== src/Demultiplex/Filters.antt =====
-- src/demultiplex.rs: `Filters`, the growable table of packet filters by PID, and the changes to it
-- that a filter may ask for.
use mpeg2ts_reader.Base.{
  ℕ, zero, suc, ◌+◌, ◌≤◌, ◌<◌, ◌≡◌, refl, sym, ap, ◌∙◌, arith, Bool, true, false, ◌&&◌, ltb, leb,
  ◌==◌, ==→≡, ==→≢, Bool-cases, inl, inr, if◌then◌else◌, Option, some, none, List, [], ◌∷◌, length,
  get_or,
}
use mpeg2ts_reader.Packet.Fields.{Pid}

-- `Vec<Option<F>>`, by the value of the PID.
abbrev pub Filters : Type 0 → Type 0
Filters F = List (Option F)

abbrev pub is_some : {F : Type 0} → Option F → Bool
is_some none = false
is_some (some f) = true

-- `resize_with(n, || None)`, for a vector that is not longer.
unfoldable pub resize_with : {F : Type 0} → ℕ → Filters F → Filters F
resize_with zero fs = fs
resize_with (suc n) [] = none ∷ resize_with n []
resize_with (suc n) (x ∷ fs) = x ∷ resize_with n fs

-- `fs[i] = x`, for an index within the vector.
unfoldable pub assign : {F : Type 0} → Filters F → ℕ → Option F → Filters F
assign [] i x = []
assign (y ∷ fs) zero x = x ∷ fs
assign (y ∷ fs) (suc i) x = y ∷ assign fs i x

module _ {F : Type 0} where
  unfoldable pub contains : Filters F → Pid → Bool
  contains fs pid = ltb pid.val (length fs) && is_some (get_or fs pid.val none)

  unfoldable pub get : Filters F → Pid → Option F
  get fs pid = if leb (length fs) pid.val then none else get_or fs pid.val none

  unfoldable pub insert : Filters F → Pid → F → Filters F
  unfolding resize_with assign
  insert fs pid filter =
      let fs' = if leb (length fs) pid.val then resize_with (pid.val + 1) fs else fs in
      assign fs' pid.val (some filter)

  unfoldable pub remove : Filters F → Pid → Filters F
  unfolding assign
  remove fs pid = if ltb pid.val (length fs) then assign fs pid.val none else fs

-- `FilterChange`.
pub data FilterChange (F : Type 0) : Type 0 where
  insertion : Pid → F → FilterChange F
  removal : Pid → FilterChange F

-- `FilterChange::apply`.
abbrev pub apply_change : {F : Type 0} → FilterChange F → Filters F → Filters F
apply_change (insertion pid filter) fs = insert fs pid filter
apply_change (removal pid) fs = remove fs pid

-- The loop of `FilterChangeset::apply`.
unfoldable pub apply_all : {F : Type 0} → List (FilterChange F) → Filters F → Filters F
apply_all [] fs = fs
apply_all (u ∷ us) fs = apply_all us (apply_change u fs)

get_or-resize_with :
    {F : Type 0} (n : ℕ) (fs : Filters F) (i : ℕ)
    → get_or (resize_with n fs) i none ≡ get_or fs i none
unfolding resize_with
get_or-resize_with zero fs i = refl
get_or-resize_with (suc n) [] zero = refl
get_or-resize_with (suc n) [] (suc i) = get_or-resize_with n [] i
get_or-resize_with (suc n) (x ∷ fs) zero = refl
get_or-resize_with (suc n) (x ∷ fs) (suc i) = get_or-resize_with n fs i

length-resize_with : {F : Type 0} (n : ℕ) (fs : Filters F) → n ≤ length (resize_with n fs)
unfolding resize_with
length-resize_with zero fs = omega arith
length-resize_with {F} (suc n) [] = omega (arith, length-resize_with {F = F} n [])
length-resize_with (suc n) (x ∷ fs) = omega (arith, length-resize_with n fs)

get_or-assign_same :
    {F : Type 0} (fs : Filters F) (i : ℕ) (x : Option F)
    → i < length fs
    → get_or (assign fs i x) i none ≡ x
unfolding assign
get_or-assign_same [] i x h = absurd (omega arith)
get_or-assign_same (y ∷ fs) zero x h = refl
get_or-assign_same (y ∷ fs) (suc i) x h = get_or-assign_same fs i x (omega arith)

get_or-assign_other :
    {F : Type 0} (fs : Filters F) (i j : ℕ) (x : Option F)
    → (i ≡ j → ⊥)
    → get_or (assign fs i x) j none ≡ get_or fs j none
unfolding assign
get_or-assign_other [] i j x h = refl
get_or-assign_other (y ∷ fs) zero zero x h = absurd (h refl)
get_or-assign_other (y ∷ fs) zero (suc j) x h = refl
get_or-assign_other (y ∷ fs) (suc i) zero x h = refl
get_or-assign_other (y ∷ fs) (suc i) (suc j) x h = get_or-assign_other fs i j x (λ e. h (ap suc e))

get_or_past : {F : Type 0} (fs : Filters F) (i : ℕ) → length fs ≤ i → get_or fs i none ≡ none
get_or_past [] i h = refl
get_or_past (y ∷ fs) zero h = absurd (omega arith)
get_or_past (y ∷ fs) (suc i) h = get_or_past fs i (omega arith)

-- A lookup past the end finds nothing, as one in an empty place.
pub get_lem : {F : Type 0} (fs : Filters F) (pid : Pid) → get fs pid ≡ get_or fs pid.val none
unfolding get
get_lem fs pid = elim (Bool-cases (leb (length fs) pid.val)) [
  | inl e ↦ rw e (sym (get_or_past fs pid.val (ground arith)))
  | inr e ↦ rw e refl
]

pub contains_lem :
    {F : Type 0} (fs : Filters F) (pid : Pid) → contains fs pid ≡ is_some (get fs pid)
unfolding contains
contains_lem fs pid = elim (Bool-cases (ltb pid.val (length fs))) [
  | inl e ↦ rw (e, get_lem fs pid) refl
  | inr e ↦ rw (e, get_lem fs pid, get_or_past fs pid.val (ground arith)) refl
]

abbrev pub same : Pid → Pid → Bool
same p q = p.val == q.val

get_or-assign :
    {F : Type 0} (fs : Filters F) (i j : ℕ) (x : Option F)
    → i < length fs
    → get_or (assign fs i x) j none ≡ (if i == j then x else get_or fs j none)
get_or-assign fs i j x h = elim (Bool-cases (i == j)) [
  | inl e ↦ rw (e, sym (==→≡ i j e)) (get_or-assign_same fs i x h)
  | inr e ↦ rw e (get_or-assign_other fs i j x (==→≢ i j e))
]

nothing_past :
    {F : Type 0} (fs : Filters F) (i j : ℕ)
    → length fs ≤ i
    → get_or fs j none ≡ (if i == j then none else get_or fs j none)
nothing_past fs i j h = elim (Bool-cases (i == j)) [
  | inl e ↦ rw (e, sym (==→≡ i j e)) (get_or_past fs i h)
  | inr e ↦ rw e refl
]

-- The table is a map: what was inserted is found under its PID, and every other PID finds what it
-- found before.
pub get-insert :
    {F : Type 0} (fs : Filters F) (p q : Pid) (f : F)
    → get (insert fs p f) q ≡ (if same p q then some f else get fs q)
unfolding insert
get-insert fs p q f = elim (Bool-cases (leb (length fs) p.val)) [
  | inl e ↦
      rw (get_lem (insert fs p f) q, get_lem fs q, e)
        (get_or-assign (resize_with (p.val + 1) fs) p.val q.val (some f)
            (omega (arith, length-resize_with (p.val + 1) fs))
          ∙ rw (get_or-resize_with (p.val + 1) fs q.val) refl)
  | inr e ↦
      rw (get_lem (insert fs p f) q, get_lem fs q, e)
        (get_or-assign fs p.val q.val (some f) (ground arith))
]

-- A removed PID finds nothing, and every other PID what it found before.
pub get-remove :
    {F : Type 0} (fs : Filters F) (p q : Pid)
    → get (remove fs p) q ≡ (if same p q then none else get fs q)
unfolding remove
get-remove fs p q = elim (Bool-cases (ltb p.val (length fs))) [
  | inl e ↦
      rw (get_lem (remove fs p) q, get_lem fs q, e)
        (get_or-assign fs p.val q.val none (ground arith))
  | inr e ↦
      rw (get_lem (remove fs p) q, get_lem fs q, e) (nothing_past fs p.val q.val (ground arith))
]

-- What a queue of changes leaves under a PID: the effect of the last change to that PID.
unfoldable pub last_change : {F : Type 0} → List (FilterChange F) → Pid → Option F → Option F
last_change [] q found = found
last_change (insertion p f ∷ us) q found = last_change us q (if same p q then some f else found)
last_change (removal p ∷ us) q found = last_change us q (if same p q then none else found)

-- Applying a queue in order leaves each PID with the effect of the last change to it.
pub get-apply_all :
    {F : Type 0} (us : List (FilterChange F)) (fs : Filters F) (q : Pid)
    → get (apply_all us fs) q ≡ last_change us q (get fs q)
unfolding apply_all last_change
get-apply_all [] fs q = refl
get-apply_all (insertion p f ∷ us) fs q =
    get-apply_all us (insert fs p f) q ∙ ap (last_change us q) (get-insert fs p q f)
get-apply_all (removal p ∷ us) fs q =
    get-apply_all us (remove fs p) q ∙ ap (last_change us q) (get-remove fs p q)
