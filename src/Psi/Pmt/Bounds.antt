-- ===== src/Psi/Pmt/Bounds.antt =====
-- src/psi/pmt.rs: reading a Program Map Table stays within its bytes, and ends.
use mpeg2ts_reader.Base.{
  get_or, ℕ, zero, suc, ◌+◌, ◌-◌, ◌≤◌, ◌≡◌, refl, ap, ◌∙◌, arith, false, ltb, ltb→le, le→ltb, ◌==◌,
  Bool-cases, ◌⊎◌, inl, inr, some, List, [], ◌∷◌, length, take, drop, length-drop, All,
}
use mpeg2ts_reader.Base.{ok, err, index-lt, slice_range_lem, slice_from_lem, slice_prefix}
use mpeg2ts_reader.Base.Bits.{IsBytes, IsBytes-drop}
use mpeg2ts_reader.Error.{PmtError}
use mpeg2ts_reader.Psi.Section.{Fault}
use mpeg2ts_reader.Psi.Pmt.{
  stream_type, elementary_pid, es_descriptor_data, from_bytes, pcr_pid, descriptor_data,
  info_from_bytes, Item, next, items, streams,
}
use mpeg2ts_reader.Psi.Pmt.Readable.{
  info_accessors, length_at, pid_at, pid_val, program_info_length_lem, es_info_length_lem,
  IsReadable,
}

info_from_bytes_cases :
    (buf : List ℕ)
    → IsBytes buf
    → ((e : PmtError) × (info_from_bytes buf ≡ err e))
      ⊎ IsReadable (record { data' = buf })
        × (info_from_bytes buf ≡ ok (record { data' = buf }, 5 + length_at buf 3))
unfolding info_from_bytes
info_from_bytes_cases buf h = elim (Bool-cases (ltb (length buf) 5)) [
  | inl short ↦ inl (PmtError.not_enough_data "stream_info" 5 (length buf), rw short refl)
  | inr long ↦
      let n = ltb→le (length buf) 5 long in
      let len = es_info_length_lem buf h {E = PmtError} n in
      elim (Bool-cases (ltb (length buf) (5 + length_at buf 3))) [
        | inl past ↦ inl (
          PmtError.not_enough_data "stream_info_descriptors" (5 + length_at buf 3) (length buf),
          rw (long, len, past) refl,
        )
        | inr fits ↦
            inr (record { bytes = h; fixed = n; fits = ltb→le _ _ fits }, rw (long, len, fits) refl)
      ]
]

abbrev pub IsReadableItem : Item → Type 0
IsReadableItem (inl e) = Unit {0}
IsReadableItem (inr s) = IsReadable s

-- One step of the iterator: an item that can be read, and fewer bytes.
next_returns :
    (b : ℕ) (bs : List ℕ)
    → IsBytes (b ∷ bs)
    → (i : Item) × (rest : List ℕ) × (next (b ∷ bs) ≡ ok (some (i, rest)))
      × IsReadableItem i
      × IsBytes rest
      × (length rest ≤ length bs)
unfolding next
next_returns b bs h =
    let some_left : (length (b ∷ bs) == 0) ≡ false = ground arith in
    elim (info_from_bytes_cases (b ∷ bs) h) [
      | inl e ↦ (
        inl e.0,
        [],
        rw (some_left, e.1, slice_prefix {E = Fault} (b ∷ bs) 0 (omega arith)) refl,
        tt,
        tt,
        omega arith,
      )
      | inr r ↦
          let n = 5 + length_at (b ∷ bs) 3 in
          (
            inr (record { data' = b ∷ bs }),
            drop n (b ∷ bs),
            rw (some_left, r.1, slice_from_lem {E = Fault} (b ∷ bs) n (r.0).fits) refl,
            r.0,
            IsBytes-drop n (b ∷ bs) h,
            omega (arith, length-drop n (b ∷ bs)),
          )
    ]

items_return :
    (fuel : ℕ) (buf : List ℕ)
    → IsBytes buf
    → length buf ≤ fuel
    → (is : List Item) × (items fuel buf ≡ ok is) × All IsReadableItem is
unfolding items next
items_return zero [] h k = ([], refl, tt)
items_return (suc fuel) [] h k = ([], refl, tt)
items_return zero (b ∷ bs) h k = absurd (omega arith)
items_return (suc fuel) (b ∷ bs) h k =
    let (i, rest, e, readable, bytes, fewer) = next_returns b bs h in
    let (is, m, all) = items_return fuel rest bytes (omega (arith, fewer)) in
    (i ∷ is, rw (e, m) refl, (readable, all))

-- A section that `from_bytes` accepts has room for its header and for its descriptors.
pub from_bytes_cases :
    (buf : List ℕ)
    → IsBytes buf
    → ((e : PmtError) × (from_bytes buf ≡ err e))
      ⊎ (4 + length_at buf 2 ≤ length buf) × (from_bytes buf ≡ ok (record { data' = buf }))
unfolding from_bytes
from_bytes_cases buf h = elim (Bool-cases (ltb (length buf) 4)) [
  | inl short ↦ inl (PmtError.not_enough_data "program_map_section" 4 (length buf), rw short refl)
  | inr long ↦
      let n = ltb→le (length buf) 4 long in
      let len = program_info_length_lem buf h {E = PmtError} n in
      elim (Bool-cases (ltb (length buf) (length_at buf 2 + 4))) [
        | inl past ↦ inl (
          PmtError.not_enough_data "descriptor" (length_at buf 2 + 4) (length buf),
          rw (long, len, past) refl,
        )
        | inr fits ↦ inr (omega (arith, ltb→le _ _ fits), rw (long, len, fits) refl)
      ]
]

pub streams_return :
    (buf : List ℕ)
    → IsBytes buf
    → 4 + length_at buf 2 ≤ length buf
    → (is : List Item) × (streams (record { data' = buf }) ≡ ok is) × All IsReadableItem is
unfolding streams
streams_return buf h n =
    let start = 4 + length_at buf 2 in
    let (is, e, all) =
      items_return (length (drop start buf)) (drop start buf) (IsBytes-drop start buf h)
        (omega arith) in
    (
      is,
      rw
          (
            program_info_length_lem buf h {E = Fault} (omega arith),
            le→ltb (length buf) start n,
            slice_from_lem {E = Fault} buf start n,
          )
          e,
      all,
    )

-- What the accessors of an entry give: the type, the PID of 13 bits, and the descriptors behind the
-- five bytes before them.
abbrev pub ReadsItem : Item → Type 0
ReadsItem (inl e) = Unit {0}
ReadsItem (inr s) =
    (stream_type {E = Fault} s ≡ ok (get_or s.data' 0 0))
    × (elementary_pid {E = Fault} s ≡ ok (record { val = pid_at s.data' 1 }))
    × (es_descriptor_data {E = Fault} s ≡ ok (take (length_at s.data' 3) (drop 5 s.data')))

items_read : (is : List Item) → All IsReadableItem is → All ReadsItem is
items_read [] h = tt
items_read (inl e ∷ is) h = (tt, items_read is h.1)
items_read (inr s ∷ is) h = (info_accessors {E = Fault} s h.0, items_read is h.1)

-- On any bytes `from_bytes` returns. Where it accepts them, every accessor returns: the PID, the
-- descriptors behind the four bytes of the header, and the streams, whose iteration ends. In each
-- entry that it gives, the accessors return the type, the PID and the descriptors of the stream.
pub from_bytes-streams :
    (buf : List ℕ)
    → IsBytes buf
    → ((e : PmtError) × (from_bytes buf ≡ err e))
      ⊎ (from_bytes buf ≡ ok (record { data' = buf }))
        × (pcr_pid {E = Fault} (record { data' = buf }) ≡ ok (record { val = pid_at buf 0 }))
        × (descriptor_data {E = Fault} (record { data' = buf })
            ≡ ok (take (length_at buf 2) (drop 4 buf)))
        × ((is : List Item) × (streams (record { data' = buf }) ≡ ok is) × All ReadsItem is)
unfolding pcr_pid descriptor_data
from_bytes-streams buf h = elim (from_bytes_cases buf h) [
  | inl r ↦ inl r
  | inr r ↦
      let len = length_at buf 2 in
      let same : 4 + len - 4 ≡ len = omega arith in
      let n = r.0 in
      inr (
        r.1,
        rw (index-lt {E = Fault} buf 0 (omega arith), index-lt {E = Fault} buf 1 (omega arith))
            (pid_val buf h {E = Fault} 0),
        rw (program_info_length_lem buf h {E = Fault} (omega arith)) (
            slice_range_lem {E = Fault} buf 4 (4 + len) (omega arith) n
            ∙ ap (λ (k : ℕ). ok (take k (drop 4 buf))) same),
        (let (is, e, all) = streams_return buf h n in (is, e, items_read is all)),
      )
]
