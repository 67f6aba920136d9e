-- ===== src/Psi/Pat.antt =====
-- src/psi/pat.rs: the entries of a Program Association Table, and the iterator over them.
pub mod Codec
use mpeg2ts_reader.Base.{
  ℕ, zero, suc, ◌+◌, Bool, leb, ltb, ◌==◌, if◌then◌else◌, ◌⊎◌, inl, inr, Option, some, none, List,
  [], ◌∷◌, length, take, drop, bit_and, bit_or,
}
use mpeg2ts_reader.Base.{Outcome, ok, err, panic, index, slice_range, slice_from, ◌>>=◌}
use mpeg2ts_reader.Base.Bits.{shl16}
use mpeg2ts_reader.Packet.Fields.{Pid, new_pid}
use mpeg2ts_reader.Error.{PatError, not_enough_data}
use mpeg2ts_reader.Psi.Section.{Run, out_of_fuel}

pub data ProgramDescriptor : Type 0 where
  network : Pid → ProgramDescriptor
  program : ℕ → Pid → ProgramDescriptor

unfoldable pub from_bytes : {E : Type 0} → List ℕ → Outcome E ProgramDescriptor
unfolding new_pid
from_bytes data' = do
  d0 ← index data' 0
  d1 ← index data' 1
  let program_number = bit_or (shl16 d0 8) d1
  d2 ← index data' 2
  d3 ← index data' 3
  pid ← new_pid (bit_or (shl16 (bit_and d2 0b0001_1111) 8) d3)
  if program_number == 0 then ok (network pid) else ok (program program_number pid)

abbrev pub pid : ProgramDescriptor → Pid
pid (network p) = p
pid (program n p) = p

-- What the iterator gives: `Err` on the left, `Ok` on the right.
abbrev pub Item : Type 0
Item = PatError ⊎ ProgramDescriptor

-- `ProgramIter::next`: the item, and the buffer that is left.
unfoldable pub next : List ℕ → Run (Option (Item × List ℕ))
next buf =
    if length buf == 0
    then ok none
    else if ltb (length buf) 4
    then (slice_range buf 0 0 >>= λ rest. ok (some (inl (not_enough_data (length buf)), rest)))
    else (do
      head ← slice_range buf 0 4
      tail ← slice_from buf 4
      desc ← from_bytes head
      ok (some (inr desc, tail)))

-- All the items of the iterator, on fuel: each takes a byte or ends it.
unfoldable pub items : ℕ → List ℕ → Run (List Item)
items zero buf = elim buf [ [] ↦ ok [] | b ∷ bs ↦ err out_of_fuel ]
items (suc fuel) buf =
    next buf >>= λ r. elim r [ none ↦ ok [] | some p ↦ items fuel p.1 >>= λ rest. ok (p.0 ∷ rest) ]

-- `PatSection::programs`.
unfoldable pub programs : List ℕ → Run (List Item)
programs data' = items (length data') data'
