-- ===== src/Demultiplex/Tables/Places.antt =====
-- src/demultiplex.rs: the places of the table of filters, and the bit sets that say which to remove.
use mpeg2ts_reader.Base.{
  ℕ, ◌%◌, ◌^◌, ◌≤◌, ◌<◌, ◌≡◌, refl, ap, ◌∙◌, arith, Bool, true, false, not, ◌&&◌, ◌||◌, ◌==◌,
  if◌then◌else◌, Option, some, none, List, [], ◌∷◌, ◌++◌,
}
use mpeg2ts_reader.Base.{ok, panic}
use mpeg2ts_reader.Packet.Fields.{new_pid}
use mpeg2ts_reader.Error.{DemuxError}
use mpeg2ts_reader.Psi.Section.{Fault}
use mpeg2ts_reader.Demultiplex.Filters.{Filters, FilterChange, is_some, apply_change, apply_all}
use mpeg2ts_reader.Demultiplex.Context.{DemuxContext, FilterRequest}
use mpeg2ts_reader.Demultiplex.Tables.{FixedBitSet}

abbrev pub occurs : ℕ → List ℕ → Bool
occurs q [] = false
occurs q (p ∷ ps) = p == q || occurs q ps

-- What the crate documents: a set has only bits within its bounds, it is empty at first, `insert`
-- adds a bit that is within the bounds and panics on any other, and `difference` gives the bits that
-- it says.
pub record SetLaws {B : ℕ → Type 0} (S : FixedBitSet B) : Type 0 where
  pub member : {n : ℕ} → B n → ℕ → Bool
  pub member-lt : {n : ℕ} (b : B n) (q : ℕ) → member b q ≡ true → q < n
  pub member-with_capacity : (n q : ℕ) → member (S.with_capacity n) q ≡ false
  pub insert-member :
      {n : ℕ} (b : B n) (p : ℕ)
      → p < n
      → (b' : B n) × (S.insert b p ≡ ok b') × ((q : ℕ) → member b' q ≡ (p == q || member b q))
  pub insert-panic : {n : ℕ} (b : B n) (p : ℕ) → n ≤ p → S.insert b p ≡ panic
  pub occurs-difference :
      {n m : ℕ} (a : B n) (b : B m) (q : ℕ)
      → occurs q (S.difference a b) ≡ (member a q && not (member b q))

-- A context that leaves the queue of changes alone when it makes a filter or takes a report.
pub record IsSteady {C F : Type 0} (D : DemuxContext C F) : Type 0 where
  pub steady-construct :
      (c : C) (r : FilterRequest) → D.filter_changeset (D.construct c r).1 ≡ D.filter_changeset c
  pub steady-error :
      (c : C) (e : DemuxError) → D.filter_changeset (D.error c e) ≡ D.filter_changeset c

pub apply_all-append :
    {F : Type 0} (us : List (FilterChange F)) (u : FilterChange F) (fs : Filters F)
    → apply_all (us ++ u ∷ []) fs ≡ apply_change u (apply_all us fs)
unfolding apply_all
apply_all-append [] u fs = refl
apply_all-append (v ∷ us) u fs = apply_all-append us u (apply_change v fs)

pub new_pid_lem : (p : ℕ) → p < 8192 → new_pid {E = Fault} (p % 2 ^ 16) ≡ ok (record { val = p })
unfolding new_pid
new_pid_lem p h = let e : p % 2 ^ 16 ≡ p = omega arith in rw e (ground arith)

pub emptied :
    {F : Type 0} (a b : Bool) (x y : Option F)
    → x ≡ (if a then none else y)
    → (if b then none else x) ≡ (if a || b then none else y)
emptied true true x y e = refl
emptied true false x y e = e
emptied false true x y e = refl
emptied false false x y e = e

-- A place that has a filter, or else is as it was.
abbrev pub Places : {F : Type 0} → Bool → Option F → Option F → Type 0
Places true x y = is_some x ≡ true
Places false x y = x ≡ y

pub placed :
    {F : Type 0} (a b : Bool) (x y z : Option F) (f : F)
    → Places b z x
    → x ≡ (if a then some f else y)
    → Places (a || b) z y
placed true true x y z f h e = h
placed true false x y z f h e = ap is_some (h ∙ e)
placed false true x y z f h e = h
placed false false x y z f h e = h ∙ e

-- What a removal leaves of the places.
pub cleared :
    {F : Type 0} (a r : Bool) (x y z : Option F)
    → Places a x y
    → z ≡ (if (r || a) && not a then none else x)
    → Places a z (if r then none else y)
cleared true true x y z h e = ap is_some e ∙ h
cleared true false x y z h e = ap is_some e ∙ h
cleared false true x y z h e = e
cleared false false x y z h e = e ∙ h

pub or_true : (a : Bool) {b : Bool} → b ≡ true → a || b ≡ true
or_true a e = ground arith
