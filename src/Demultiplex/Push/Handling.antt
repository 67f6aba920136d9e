-- ===== src/Demultiplex/Push/Handling.antt =====
-- src/demultiplex.rs: one packet handled on its own, and what that keeps of the filters.
use mpeg2ts_reader.Base.{
  ℕ, ◌≡◌, refl, true, Bool-cases, inl, inr, ==_refl, if◌then◌else◌, Option, some, none, List, [],
  ◌∷◌,
}
use mpeg2ts_reader.Base.{ok, err, panic, ◌>>=◌}
use mpeg2ts_reader.Packet.Fields.{Pid, is_scrambled}
use mpeg2ts_reader.Packet.Header.{
  Packet, try_new, pid, transport_error_indicator, transport_scrambling_control,
}
use mpeg2ts_reader.Error.{transport_error, scrambled_packet}
use mpeg2ts_reader.Psi.Section.{Run, Fault}
use mpeg2ts_reader.Demultiplex.Filters.{Filters, contains, get, insert, contains_lem, get-insert}
use mpeg2ts_reader.Demultiplex.Context.{DemuxContext}
use mpeg2ts_reader.Demultiplex.Push.{unwrap, ensure, apply}

module _ {C F : Type 0} (D : DemuxContext C F) where
  unfoldable pub filter_packet : Filters F → C → Pid → Packet → Run (Filters F × C)
  filter_packet fs c this_pid pk = do
    this_proc ← unwrap (get fs this_pid)
    (this_proc', c') ← D.consume this_proc c pk
    ok (apply D (insert fs this_pid this_proc') c')

  unfoldable pub handle_in : Filters F → C → Pid → Packet → Run (Filters F × C)
  handle_in fs c this_pid pk = do
    broken ← transport_error_indicator pk
    if broken
        then ok (fs, D.error c (transport_error this_pid))
        else transport_scrambling_control pk >>= λ control.
            if is_scrambled control
            then ok (fs, D.error c (scrambled_packet this_pid))
            else filter_packet fs c this_pid pk

  -- One packet: find or make its filter, drop a packet that is broken or scrambled, else run the
  -- filter and apply what it asked for.
  unfoldable pub handle : Filters F → C → Packet → Run (Filters F × C)
  handle fs c pk = do
    this_pid ← pid pk
    let (fs', c') = ensure D fs c this_pid
    handle_in fs' c' this_pid pk

  -- The packets in order, up to one without the sync byte.
  unfoldable pub handle_all : Filters F → C → List (List ℕ) → Run (Filters F × C)
  handle_all fs c [] = ok (fs, c)
  handle_all fs c (chunk ∷ itr) = elim (try_new chunk) [
    | ok pk ↦ handle fs c pk >>= λ r. handle_all r.0 r.1 itr
    | err e ↦ ok (fs, c)
    | panic ↦ panic
  ]

abbrev pub Keeps : {F : Type 0} → Option Pid → Filters F → Type 0
Keeps none fs = Unit {0}
Keeps (some p) fs = contains fs p ≡ true

pub contains-insert :
    {F : Type 0} (fs : Filters F) (p : Pid) (f : F) → contains (insert fs p f) p ≡ true
contains-insert fs p f =
    rw (contains_lem (insert fs p f) p, get-insert fs p p f, ==_refl p.val) refl

module _ {C F : Type 0} (D : DemuxContext C F) where
  pub contains-ensure : (fs : Filters F) (c : C) (p : Pid) → contains (ensure D fs c p).0 p ≡ true
  unfolding ensure
  contains-ensure fs c p = elim (Bool-cases (contains fs p)) [
    | inl e ↦ rw e e
    | inr e ↦ rw e (contains-insert fs p _)
  ]

  pub ensured :
      (fs : Filters F) (c : C) (p : Pid) → contains fs p ≡ true → ensure D fs c p ≡ (fs, c)
  unfolding ensure
  ensured fs c p e = rw e refl

-- What is known of the filter that is held when a packet comes.
abbrev pub Holds : {F : Type 0} → Option Pid → Filters F → Packet → Type 0
Holds none fs pk = Unit {0}
Holds (some p) fs pk = (pid {E = Fault} pk ≡ ok p) × (contains fs p ≡ true)
