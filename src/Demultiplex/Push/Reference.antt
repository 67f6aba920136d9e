-- ===== src/Demultiplex/Push/Reference.antt =====
-- src/demultiplex.rs: `push` against the handling of one packet after the other, which looks the
-- filter up afresh for each and always applies the changes.
use mpeg2ts_reader.Base.{
  ℕ, ◌≡◌, refl, sym, ap, ap₂, ◌∙◌, true, Bool-cases, inl, inr, ==→≡, if◌then◌else◌, Option, some,
  none, List, [], ◌∷◌,
}
use mpeg2ts_reader.Base.{Outcome, ok, err, panic, ◌>>=◌, bind_same}
use mpeg2ts_reader.Packet.Fields.{Pid, PacketError, is_scrambled}
use mpeg2ts_reader.Packet.Header.{
  Packet, try_new, pid, transport_error_indicator, transport_scrambling_control,
}
use mpeg2ts_reader.Error.{transport_error, scrambled_packet}
use mpeg2ts_reader.Psi.Section.{Run, Fault}
use mpeg2ts_reader.Demultiplex.Filters.{
  Filters, FilterChange, contains, get, insert, apply_all, same,
}
use mpeg2ts_reader.Demultiplex.Context.{DemuxContext, ContextLaws}
use mpeg2ts_reader.Demultiplex.Push.{
  Held, chunks_exact, is_empty, unwrap, ensure, apply, run_filter, process, round, keep, push_loop,
  push,
}
use mpeg2ts_reader.Demultiplex.Push.Handling.{
  filter_packet, handle_in, handle, handle_all, Keeps, contains-insert, contains-ensure, ensured,
  Holds,
}

module _ {C F X : Type 0} (D : DemuxContext C F) (laws : ContextLaws D) where
  -- The rest of a run, which may use that a filter that is held is in the table.
  abbrev Continues : (Held C F → Run X) → (Filters F × C → Run X) → Type 0
  Continues f g =
      (fs : Filters F) (c : C) (held : Option Pid) → Keeps held fs → f (fs, c, held) ≡ g (fs, c)

  drain :
      (f : Held C F → Run X) (g : Filters F × C → Run X) (fs : Filters F) (c : C) (p : Pid)
      (us : List (FilterChange F))
      → Continues f g
      → contains fs p ≡ true
      → D.filter_changeset c ≡ us
      → ((if is_empty us
            then ok (fs, c, some p)
            else (let (fs', c') = apply D fs c in ok (fs', c', none)))
          >>= f)
        ≡ g (apply D fs c)
  unfolding apply apply_all
  drain f g fs c p [] k h e =
      k fs c (some p) h
      ∙ ap g (
          sym (
            ap₂ (λ (x : Filters F) (y : C). (x, y)) (ap (λ us. apply_all us fs) e)
              (ap (D.set_changeset c) (sym e) ∙ laws.set-get c)))
  drain f g fs c p (u ∷ us) k h e = k _ _ none tt

  filtered :
      (f : Held C F → Run X) (g : Filters F × C → Run X) (fs : Filters F) (c : C) (p : Pid)
      (pk : Packet)
      → Continues f g
      → (run_filter D fs c p pk >>= f) ≡ (filter_packet D fs c p pk >>= g)
  unfolding run_filter filter_packet
  filtered f g fs c p pk k = bind_same (unwrap {E = Fault} (get fs p)) _ _ f g (λ proc.
      bind_same (D.consume proc c pk) _ _ f g (λ r.
        drain f g (insert fs p r.0) r.1 p (D.filter_changeset r.1) k (contains-insert fs p r.0)
          refl))

  processed :
      (f : Held C F → Run X) (g : Filters F × C → Run X) (fs : Filters F) (c : C) (p : Pid)
      (pk : Packet)
      → Continues f g
      → contains fs p ≡ true
      → (process D fs c p pk >>= f) ≡ (handle_in D fs c p pk >>= g)
  unfolding process handle_in
  processed f g fs c p pk k h =
      bind_same (transport_error_indicator {E = Fault} pk) _ _ f g (λ broken.
        elim (Bool-cases broken) [
          | inl e ↦ rw e (k fs (D.error c (transport_error p)) (some p) h)
          | inr e ↦ rw e (
              bind_same (transport_scrambling_control {E = Fault} pk) _ _ f g (λ control.
                elim (Bool-cases (is_scrambled control)) [
                  | inl s ↦ rw s (k fs (D.error c (scrambled_packet p)) (some p) h)
                  | inr s ↦ rw s (filtered f g fs c p pk k)
                ]))
        ])

  rounded :
      (f : Held C F → Run X) (g : Filters F × C → Run X) (held : Option Pid) (fs : Filters F)
      (c : C) (pk : Packet)
      → Continues f g
      → Holds held fs pk
      → (round D held fs c pk >>= f) ≡ (handle D fs c pk >>= g)
  unfolding round handle
  rounded f g none fs c pk k h =
      bind_same (pid {E = Fault} pk) _ _ f g (λ p.
        processed f g (ensure D fs c p).0 (ensure D fs c p).1 p pk k (contains-ensure D fs c p))
  rounded f g (some p) fs c pk k h = rw (h.0, ensured D fs c p h.1) (processed f g fs c p pk k h.1)

  -- Reading the PID to compare it reads it for the handling as well.
  kept :
      (held : Option Pid) (fs : Filters F) (c : C) (pk : Packet) (f : Option Pid → Run X)
      (g : Filters F × C → Run X)
      → Keeps held fs
      → ((held' : Option Pid) → Holds held' fs pk → f held' ≡ (handle D fs c pk >>= g))
      → (keep D held pk >>= f) ≡ (handle D fs c pk >>= g)
  unfolding keep handle
  kept none fs c pk f g h k = k none tt
  kept (some p) fs c pk f g h k = at (pid {E = Fault} pk) refl
    where
      at :
          (m : Run Pid)
          → pid {E = Fault} pk ≡ m
          → ((m >>= λ q. ok (if same q p then some p else none)) >>= f) ≡ (handle D fs c pk >>= g)
      at (ok q) e = elim (Bool-cases (same q p)) [
        | inl s ↦ rw s (k (some p) (e ∙ ap (λ v. ok (record { val = v })) (==→≡ q.val p.val s), h))
        | inr s ↦ rw s (k none tt)
      ]
      at (err x) e = rw e refl
      at panic e = rw e refl

module _ {C F : Type 0} (D : DemuxContext C F) (laws : ContextLaws D) where
  -- The step to the next packet, which `rest` handles as `push_loop` would.
  advance :
      (itr : List (List ℕ)) (rest : Option Pid → Filters F → C → Packet → Run (Filters F × C))
      (held : Option Pid) (fs : Filters F) (c : C) (m : Outcome PacketError Packet)
      → Keeps held fs
      → ((held' : Option Pid) (pk : Packet)
          → Holds held' fs pk
          → rest held' fs c pk ≡ (handle D fs c pk >>= λ r. handle_all D r.0 r.1 itr))
      → elim m [
        | ok pk ↦ keep D held pk >>= λ held'. rest held' fs c pk
        | err e ↦ ok (fs, c)
        | panic ↦ panic
      ]
        ≡ elim m [
          | ok pk ↦ handle D fs c pk >>= λ r. handle_all D r.0 r.1 itr
          | err e ↦ ok (fs, c)
          | panic ↦ panic
        ]
  advance itr rest held fs c (ok pk) k h =
      kept D laws held fs c pk (λ held'. rest held' fs c pk) (λ r. handle_all D r.0 r.1 itr) k
        (λ held' q. h held' pk q)
  advance itr rest held fs c (err e) k h = refl
  advance itr rest held fs c panic k h = refl

  push_loop-handle_all :
      (held : Option Pid) (fs : Filters F) (c : C) (pk : Packet) (itr : List (List ℕ))
      → Holds held fs pk
      → push_loop D held fs c pk itr ≡ (handle D fs c pk >>= λ r. handle_all D r.0 r.1 itr)
  unfolding push_loop handle_all
  push_loop-handle_all held fs c pk [] h =
      rounded D laws _ (λ r. ok r) held fs c pk (λ fs' c' held' k. refl) h
  push_loop-handle_all held fs c pk (chunk ∷ itr) h =
      rounded D laws _ (λ r. handle_all D r.0 r.1 (chunk ∷ itr)) held fs c pk
        (λ fs' c' held' k.
          advance itr (λ held'' fs'' c'' pk'. push_loop D held'' fs'' c'' pk' itr) held' fs' c'
            (try_new chunk) k (λ held'' pk' q. push_loop-handle_all held'' fs' c' pk' itr q))
        h

  -- For every context whose queue of changes reads back what was written to it, the nested loops
  -- of `push`, which hold a filter while the PID stays the same, do what handling each packet by
  -- itself does.
  pub push-handle_all :
      (fs : Filters F) (c : C) (buf : List ℕ)
      → push D fs c buf ≡ handle_all D fs c (chunks_exact buf)
  unfolding push handle_all
  push-handle_all fs c buf = at (chunks_exact buf)
    where
      begin :
          (m : Outcome PacketError Packet) (itr : List (List ℕ))
          → elim m [ ok pk ↦ push_loop D none fs c pk itr | err e ↦ ok (fs, c) | panic ↦ panic ]
            ≡ elim m [
              | ok pk ↦ handle D fs c pk >>= λ r. handle_all D r.0 r.1 itr
              | err e ↦ ok (fs, c)
              | panic ↦ panic
            ]
      begin (ok pk) itr = push_loop-handle_all none fs c pk itr tt
      begin (err e) itr = refl
      begin panic itr = refl

      at :
          (cs : List (List ℕ))
          → elim cs [
            | [] ↦ ok (fs, c)
            | chunk ∷ itr ↦ elim (try_new chunk) [
              | ok pk ↦ push_loop D none fs c pk itr
              | err e ↦ ok (fs, c)
              | panic ↦ panic
            ]
          ]
            ≡ handle_all D fs c cs
      at [] = refl
      at (chunk ∷ itr) = begin (try_new chunk) itr
