-- ===== src/Demultiplex/Tables/Entries.antt =====
-- src/demultiplex.rs: what the entries of a table leave in the table of filters. An entry is an error
-- to report, or a PID and the request for its filter.
use mpeg2ts_reader.Base.{
  ℕ, ◌%◌, ◌^◌, ◌<◌, ◌≡◌, refl, sym, ap, ap₂, ◌∙◌, subst, arith, Bool, true, false, not, ◌&&◌, ◌||◌,
  ◌==◌, ==_refl, if◌then◌else◌, ◌⊎◌, inl, inr, Option, some, none, List, [], ◌∷◌, ◌++◌, All,
}
use mpeg2ts_reader.Base.{ok, ◌>>=◌}
use mpeg2ts_reader.Packet.Fields.{Pid, pid_count, new_pid}
use mathlib.Core.Bool.{or-false}
use mpeg2ts_reader.Error.{DemuxError}
use mpeg2ts_reader.Psi.Section.{Fault, Run}
use mpeg2ts_reader.Demultiplex.Filters.{
  Filters, insertion, removal, get, apply_all, get-insert, get-remove,
}
use mpeg2ts_reader.Demultiplex.Context.{DemuxContext, ContextLaws, FilterRequest}
use mpeg2ts_reader.Demultiplex.Tables.{
  FixedBitSet, queue_insert, queue_remove, remove_all, Pass, register,
}
use mpeg2ts_reader.Demultiplex.Tables.Places.{
  occurs, SetLaws, IsSteady, apply_all-append, new_pid_lem, emptied, Places, placed, cleared,
  or_true,
}

and_left : (a b : Bool) → (a && b) ≡ true → a ≡ true
and_left a b e = ground arith

-- What two sets of PIDs differ in are PIDs.
pub difference-lt :
    {B : ℕ → Type 0} (S : FixedBitSet B) (sets : SetLaws S) (a b : B pid_count) (q : ℕ)
    → occurs q (S.difference a b) ≡ true
    → q < 8192
difference-lt S sets a b q o =
    sets.member-lt a q
      (and_left (sets.member a q) (not (sets.member b q)) (sym (sets.occurs-difference a b q) ∙ o))

module _ {C F : Type 0} (D : DemuxContext C F) (laws : ContextLaws D) (fs : Filters F) where
  -- What is found under a PID once the queue is applied.
  unfoldable pub found : C → ℕ → Option F
  found c q = get (apply_all (D.filter_changeset c) fs) (record { val = q })

  found-queue_insert :
      (c : C) (p : Pid) (f : F) (q : ℕ)
      → found (queue_insert D c p f) q ≡ (if p.val == q then some f else found c q)
  unfolding found queue_insert
  found-queue_insert c p f q =
      rw
        (
          laws.get-set c (D.filter_changeset c ++ insertion p f ∷ []),
          apply_all-append (D.filter_changeset c) (insertion p f) fs,
        )
        (get-insert (apply_all (D.filter_changeset c) fs) p (record { val = q }) f)

  found-queue_remove :
      (c : C) (p : Pid) (q : ℕ)
      → found (queue_remove D c p) q ≡ (if p.val == q then none else found c q)
  unfolding found queue_remove
  found-queue_remove c p q =
      rw
        (
          laws.get-set c (D.filter_changeset c ++ removal p ∷ []),
          apply_all-append (D.filter_changeset c) (removal p) fs,
        )
        (get-remove (apply_all (D.filter_changeset c) fs) p (record { val = q }))

  found-same :
      (c d : C) (q : ℕ) → D.filter_changeset c ≡ D.filter_changeset d → found c q ≡ found d q
  unfolding found
  found-same c d q e = ap (λ us. get (apply_all us fs) (record { val = q })) e

  -- The loop of `remove_outdated` empties the places it is given, and no other.
  pub found-remove_all :
      (c : C) (ps : List ℕ)
      → ((q : ℕ) → occurs q ps ≡ true → q < 8192)
      → (d : C) × (remove_all D c ps ≡ ok d)
        × ((q : ℕ) → found d q ≡ (if occurs q ps then none else found c q))
  unfolding remove_all new_pid
  found-remove_all c [] h = (c, refl, λ q. refl)
  found-remove_all c (p ∷ ps) h =
      let small : p < 8192 = h p (rw (==_refl p) refl) in
      let p' : Pid = record { val = p } in
      let fits : new_pid {E = Fault} (p % 2 ^ 16) ≡ ok p' = new_pid_lem p small in
      let (d, e, k) = found-remove_all (queue_remove D c p') ps (λ q r. h q (or_true (p == q) r)) in
      (d, rw fits e, λ q. k q ∙ emptied (p == q) (occurs q ps) _ _ (found-queue_remove c p' q))

abbrev pub Entry : Type 0
Entry = DemuxError ⊎ (Pid × FilterRequest)

-- Does an entry name the PID?
abbrev pub named : ℕ → List Entry → Bool
named q [] = false
named q (inl e ∷ is) = named q is
named q (inr d ∷ is) = d.0.val == q || named q is

-- The PID of the entry fits a set of PIDs.
abbrev pub IsPidEntry : Entry → Type 0
IsPidEntry (inl e) = Unit {0}
IsPidEntry (inr d) = d.0.val < pid_count

or_front : (a b c m n : Bool) → m ≡ (n || b) → n ≡ (a || c) → m ≡ (c || (a || b))
or_front a b c m n e k = ground arith

module _ {B : ℕ → Type 0} {C F : Type 0} (S : FixedBitSet B) (D : DemuxContext C F) where
  -- The body of a loop over entries.
  unfoldable pub enter : Pass S D → Entry → Run (Pass S D)
  enter s (inl e) = ok (s.0, s.1, D.error s.2 e)
  enter s (inr d) = let (filter, c) = D.construct s.2 d.1 in register S D s d.0 filter c

  unfoldable pub enter_all : Pass S D → List Entry → Run (Pass S D)
  enter_all s [] = ok s
  enter_all s (i ∷ is) = enter s i >>= λ t. enter_all t is

module _ {B : ℕ → Type 0} {C F : Type 0} (S : FixedBitSet B) (sets : SetLaws S)
    (D : DemuxContext C F) where
  -- A PID is registered, seen, and queued with its filter.
  pub register-Ends :
      (s : Pass S D) (p : Pid) (f : F) (c : C)
      → p.val < pid_count
      → (t : Pass S D) × (register S D s p f c ≡ ok t)
        × ((q : ℕ) → sets.member t.0 q ≡ (p.val == q || sets.member s.0 q))
        × ((q : ℕ) → sets.member t.1 q ≡ (p.val == q || sets.member s.1 q))
        × (t.2 ≡ queue_insert D c p f)
  unfolding register
  register-Ends s p f c h =
      let (seen, e1, k1) = sets.insert-member s.1 p.val h in
      let (registered, e0, k0) = sets.insert-member s.0 p.val h in
      ((registered, seen, queue_insert D c p f), rw (e1, e0) refl, k0, k1, refl)

  module _ (laws : ContextLaws D) (steady : IsSteady D) (fs : Filters F) where
    -- What a loop over entries does to the sets and to the places.
    pub record Enters (s : Pass S D) (is : List Entry) : Type 0 where
      pub out : Pass S D
      pub returns : enter_all S D s is ≡ ok out
      pub registered : (q : ℕ) → sets.member out.0 q ≡ (sets.member s.0 q || named q is)
      pub seen : (q : ℕ) → sets.member out.1 q ≡ (sets.member s.1 q || named q is)
      pub places : (q : ℕ) → Places (named q is) (found D laws fs out.2 q) (found D laws fs s.2 q)

    pub enter_all_lem : (s : Pass S D) (is : List Entry) → All IsPidEntry is → Enters s is
    unfolding enter_all enter
    enter_all_lem s [] h = record {
      out = s;
      returns = refl;
      registered = λ q. sym (or-false (sets.member s.0 q));
      seen = λ q. sym (or-false (sets.member s.1 q));
      places = λ q. refl;
    }
    enter_all_lem s (inl e ∷ is) h =
        let r = enter_all_lem (s.0, s.1, D.error s.2 e) is h.1 in
        record {
          out = r.out;
          returns = r.returns;
          registered = r.registered;
          seen = r.seen;
          places = λ q.
              subst (λ (y : Option F). Places (named q is) (found D laws fs r.out.2 q) y)
                (found-same D laws fs (D.error s.2 e) s.2 q (steady.steady-error s.2 e))
                (r.places q);
        }
    enter_all_lem s (inr d ∷ is) h =
        let made = D.construct s.2 d.1 in
        let (t, e, k0, k1, queued) = register-Ends s d.0 made.0 made.1 h.0 in
        let r = enter_all_lem t is h.1 in
        record {
          out = r.out;
          returns = rw e r.returns;
          registered = λ q.
              or_front (d.0.val == q) (named q is) (sets.member s.0 q) _ _ (r.registered q) (k0 q);
          seen =
              λ q. or_front (d.0.val == q) (named q is) (sets.member s.1 q) _ _ (r.seen q) (k1 q);
          places = λ q. placed (d.0.val == q) (named q is) _ _ _ made.0 (r.places q) (
              ap (λ (c : C). found D laws fs c q) queued
              ∙ found-queue_insert D laws fs made.1 d.0 made.0 q
              ∙ ap (λ (y : Option F). if d.0.val == q then some made.0 else y)
                  (found-same D laws fs made.1 s.2 q (steady.steady-construct s.2 d.1)));
        }

    -- The loop over the entries and then the removal of what is not announced any longer: the PIDs
    -- seen are those named, and each place is as the entries and the PIDs registered say.
    pub enter_all-Places :
        (registered : B pid_count) (c : C) (is : List Entry) (seen' : ℕ → Bool)
        → ((q : ℕ) → named q is ≡ seen' q)
        → All IsPidEntry is
        → (t : Pass S D) × (c' : C) × (enter_all S D (registered, S.with_capacity pid_count, c) is
            ≡ ok t)
          × (remove_all D t.2 (S.difference t.0 t.1) ≡ ok c')
          × ((q : ℕ) → sets.member t.1 q ≡ seen' q)
          × ((q : ℕ)
              → Places
                  (seen' q)
                  (found D laws fs c' q)
                  (if sets.member registered q then none else found D laws fs c q))
    enter_all-Places registered c is seen' same all =
        let r = enter_all_lem (registered, S.with_capacity pid_count, c) is all in
        let t = r.out in
        let seen = λ (q : ℕ).
          r.seen q ∙ ap (λ (b : Bool). b || named q is) (sets.member-with_capacity pid_count q) in
        let stale = λ (q : ℕ).
          sets.occurs-difference t.0 t.1 q
          ∙ ap₂ (λ (a b : Bool). a && not b) (r.registered q) (seen q) in
        let (c', done, k) =
          found-remove_all D laws fs t.2 (S.difference t.0 t.1) (difference-lt S sets t.0 t.1) in
        (
          t,
          c',
          r.returns,
          done,
          λ q. seen q ∙ same q,
          λ q.
              subst
                (λ (b : Bool).
                  Places b (found D laws fs c' q)
                    (if sets.member registered q then none else found D laws fs c q))
                (same q)
                (cleared (named q is) (sets.member registered q) _ _ _ (r.places q)
                  (k q ∙ ap (λ (b : Bool). if b then none else found D laws fs t.2 q) (stale q))),
        )
