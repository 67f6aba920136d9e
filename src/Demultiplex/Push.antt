-- ===== src/Demultiplex/Push.antt =====
-- src/demultiplex.rs: `Demultiplex::push`, with the loop over packets and the loop over packets of
-- the same PID as one loop whose state says whether the filter of a PID is still held.
pub mod Handling
pub mod Reference
pub mod Chunks
use mpeg2ts_reader.Base.{
  ℕ, zero, suc, ◌+◌, Bool, true, false, leb, ◌==◌, if◌then◌else◌, Option, some, none, List, [], ◌∷◌,
  length, take, drop,
}
use mpeg2ts_reader.Base.{Outcome, ok, err, panic, ◌>>=◌}
use mpeg2ts_reader.Packet.Fields.{Pid, PacketError, is_scrambled}
use mpeg2ts_reader.Packet.Header.{
  Packet, try_new, pid, transport_error_indicator, transport_scrambling_control,
}
use mpeg2ts_reader.Error.{transport_error, scrambled_packet}
use mpeg2ts_reader.Psi.Section.{Run, Fault, out_of_fuel}
use mpeg2ts_reader.Demultiplex.Filters.{
  Filters, contains, get, insert, apply_all, same, FilterChange,
}
use mpeg2ts_reader.Demultiplex.Context.{DemuxContext, by_pid}

-- `packet::Packet::SIZE`.
abbrev pub packet_size : ℕ
packet_size = 188

-- `psi::pat::PAT_PID`.
abbrev pub pat_pid : Pid
pat_pid = record { val = 0 }

-- `buf.chunks_exact(packet_size)`: whole packets, what is left over dropped. On fuel: the length of
-- the buffer is enough.
unfoldable pub chunks : ℕ → List ℕ → List (List ℕ)
chunks zero buf = []
chunks (suc fuel) buf =
    let rest = chunks fuel (drop packet_size buf) in
    if leb packet_size (length buf) then take packet_size buf ∷ rest else []

unfoldable pub chunks_exact : List ℕ → List (List ℕ)
unfolding chunks
chunks_exact buf = chunks (length buf) buf

abbrev pub is_empty : {A : Type 0} → List A → Bool
is_empty [] = true
is_empty (u ∷ us) = false

-- `unwrap`.
abbrev pub unwrap : {E A : Type 0} → Option A → Outcome E A
unwrap none = panic
unwrap (some a) = ok a

-- The table, the context, and the PID whose filter the inner loop holds.
abbrev pub Held : Type 0 → Type 0 → Type 0
Held C F = Filters F × C × Option Pid

module _ {C F : Type 0} (D : DemuxContext C F) where
  -- A PID that no table has announced: the context is asked for a filter.
  unfoldable pub ensure : Filters F → C → Pid → Filters F × C
  ensure fs c this_pid =
      if contains fs this_pid
      then (fs, c)
      else (let (filter, c') = D.construct c (by_pid this_pid) in (insert fs this_pid filter, c'))

  -- `FilterChangeset::apply`: the queue is drained into the table.
  unfoldable pub apply : Filters F → C → Filters F × C
  apply fs c = (apply_all (D.filter_changeset c) fs, D.set_changeset c [])

  -- The filter runs where it stands in the table; then the changes that it asked for are applied,
  -- and the filter is not held any longer if there were any.
  unfoldable pub run_filter : Filters F → C → Pid → Packet → Run (Held C F)
  run_filter fs c this_pid pk = do
    this_proc ← unwrap (get fs this_pid)
    (this_proc', c') ← D.consume this_proc c pk
    let fs' = insert fs this_pid this_proc'
    if is_empty (D.filter_changeset c')
        then ok (fs', c', some this_pid)
        else (let (fs'', c'') = apply fs' c' in ok (fs'', c'', none))

  -- The body of the inner loop up to the next packet.
  unfoldable pub process : Filters F → C → Pid → Packet → Run (Held C F)
  process fs c this_pid pk = do
    broken ← transport_error_indicator pk
    if broken
        then ok (fs, D.error c (transport_error this_pid), some this_pid)
        else transport_scrambling_control pk >>= λ control.
            if is_scrambled control
            then ok (fs, D.error c (scrambled_packet this_pid), some this_pid)
            else run_filter fs c this_pid pk

  -- One packet, in the inner loop or after a look up of its filter.
  unfoldable pub round : Option Pid → Filters F → C → Packet → Run (Held C F)
  round (some this_pid) fs c pk = process fs c this_pid pk
  round none fs c pk = do
    this_pid ← pid pk
    let (fs', c') = ensure fs c this_pid
    process fs' c' this_pid pk

  -- The inner loop goes on while the PID is the same.
  unfoldable pub keep : Option Pid → Packet → Run (Option Pid)
  keep none pk = ok none
  keep (some this_pid) pk = do
    next_pid ← pid pk
    ok (if same next_pid this_pid then some this_pid else none)

  -- The two loops, over the packets that are left. They end at the first that has no sync byte.
  unfoldable pub push_loop :
      Option Pid → Filters F → C → Packet → List (List ℕ) → Run (Filters F × C)
  push_loop held fs c pk [] = round held fs c pk >>= λ r. ok (r.0, r.1)
  push_loop held fs c pk (chunk ∷ itr) = round held fs c pk >>= λ r. elim (try_new chunk) [
    | ok next ↦ keep r.2 next >>= λ held'. push_loop held' r.0 r.1 next itr
    | err e ↦ ok (r.0, r.1)
    | panic ↦ panic
  ]

  unfoldable pub push : Filters F → C → List ℕ → Run (Filters F × C)
  push fs c buf = elim (chunks_exact buf) [
    | [] ↦ ok (fs, c)
    | chunk ∷ itr ↦ elim (try_new chunk) [
      | ok pk ↦ push_loop none fs c pk itr
      | err e ↦ ok (fs, c)
      | panic ↦ panic
    ]
  ]

  -- `Demultiplex::new`.
  unfoldable pub new : C → Filters F × C
  new c = let (filter, c') = D.construct c (by_pid pat_pid) in (insert [] pat_pid filter, c')
