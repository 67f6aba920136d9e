-- ===== src/Psi/Pmt.antt =====
-- src/psi/pmt.rs: a section of a Program Map Table, and the iterator over its streams.
pub mod Readable
pub mod Bounds
use mpeg2ts_reader.Base.{
  ℕ, zero, suc, ◌+◌, ltb, ◌==◌, if◌then◌else◌, ◌⊎◌, inl, inr, Option, some, none, List, [], ◌∷◌,
  length, bit_and, bit_or,
}
use mpeg2ts_reader.Base.{Outcome, ok, err, panic, index, slice_range, slice_from, ◌>>=◌}
use mpeg2ts_reader.Base.Bits.{shl16}
use mpeg2ts_reader.Packet.Fields.{Pid, new_pid}
use mpeg2ts_reader.Error.{PmtError}
use mpeg2ts_reader.Psi.Section.{Run, out_of_fuel}

pub record PmtSection : Type 0 where
  pub data' : List ℕ

abbrev pub header_size : ℕ
header_size = 4

module _ {E : Type 0} (s : PmtSection) where
  unfoldable pub pcr_pid : Outcome E Pid
  pcr_pid = do
    d0 ← index s.data' 0
    d1 ← index s.data' 1
    new_pid (bit_or (shl16 (bit_and d0 0b0001_1111) 8) d1)

  unfoldable pub program_info_length : Outcome E ℕ
  program_info_length = do
    d2 ← index s.data' 2
    d3 ← index s.data' 3
    ok (bit_or (shl16 (bit_and d2 0b0000_1111) 8) d3)

  -- The bytes that `descriptors` iterates over.
  unfoldable pub descriptor_data : Outcome E (List ℕ)
  descriptor_data = do
    len ← program_info_length
    slice_range s.data' header_size (header_size + len)

-- `PmtSection::from_bytes`.
unfoldable pub from_bytes : List ℕ → Outcome PmtError PmtSection
from_bytes data' =
    if ltb (length data') header_size
    then err (PmtError.not_enough_data "program_map_section" header_size (length data'))
    else (do
      let sect : PmtSection = record { data' = data' }
      len ← program_info_length sect
      let expected = len + header_size
      if ltb (length data') expected
          then err (PmtError.not_enough_data "descriptor" expected (length data'))
          else ok sect)

pub record StreamInfo : Type 0 where
  pub data' : List ℕ

abbrev pub info_size : ℕ
info_size = 5

module _ {E : Type 0} (s : StreamInfo) where
  unfoldable pub stream_type : Outcome E ℕ
  stream_type = index s.data' 0

  unfoldable pub elementary_pid : Outcome E Pid
  elementary_pid = do
    d1 ← index s.data' 1
    d2 ← index s.data' 2
    new_pid (bit_or (shl16 (bit_and d1 0b0001_1111) 8) d2)

  unfoldable pub es_info_length : Outcome E ℕ
  es_info_length = do
    d3 ← index s.data' 3
    d4 ← index s.data' 4
    ok (bit_or (shl16 (bit_and d3 0b0000_1111) 8) d4)

  -- The bytes that `descriptors` iterates over.
  unfoldable pub es_descriptor_data : Outcome E (List ℕ)
  es_descriptor_data = do len ← es_info_length; slice_range s.data' info_size (info_size + len)

-- `StreamInfo::from_bytes`: the entry, and the number of bytes that it takes.
unfoldable pub info_from_bytes : List ℕ → Outcome PmtError (StreamInfo × ℕ)
info_from_bytes data' =
    if ltb (length data') info_size
    then err (PmtError.not_enough_data "stream_info" info_size (length data'))
    else (do
      let result : StreamInfo = record { data' = data' }
      len ← es_info_length result
      let descriptor_end = info_size + len
      if ltb (length data') descriptor_end
          then err
              (PmtError.not_enough_data "stream_info_descriptors" descriptor_end (length data'))
          else ok (result, descriptor_end))

-- What the iterator gives: `Err` on the left, `Ok` on the right.
abbrev pub Item : Type 0
Item = PmtError ⊎ StreamInfo

-- `StreamInfoIter::next`: the item, and the buffer that is left.
unfoldable pub next : List ℕ → Run (Option (Item × List ℕ))
next buf = if length buf == 0 then ok none else elim (info_from_bytes buf) [
  | ok r ↦ slice_from buf r.1 >>= λ rest. ok (some (inr r.0, rest))
  | err e ↦ slice_range buf 0 0 >>= λ rest. ok (some (inl e, rest))
  | panic ↦ panic
]

-- All the items of the iterator, on fuel: each takes a byte or ends it.
unfoldable pub items : ℕ → List ℕ → Run (List Item)
items zero buf = elim buf [ [] ↦ ok [] | b ∷ bs ↦ err out_of_fuel ]
items (suc fuel) buf =
    next buf >>= λ r. elim r [ none ↦ ok [] | some p ↦ items fuel p.1 >>= λ rest. ok (p.0 ∷ rest) ]

-- `PmtSection::streams`.
unfoldable pub streams : PmtSection → Run (List Item)
streams s = do
  len ← program_info_length s
  let descriptor_end = header_size + len
  data' ←
      (if ltb (length s.data') descriptor_end
        then slice_range s.data' 0 0
        else slice_from s.data' descriptor_end)
  items (length data') data'
