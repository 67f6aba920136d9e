-- ===== src/Psi/Pat/Codec.antt =====
-- src/psi/pat.rs: the iterator over programs reads back every list of entries.
use mpeg2ts_reader.Base.{
  subst, err, panic, ℕ, zero, suc, ◌+◌, ◌*◌, ◌/◌, ◌%◌, ◌≤◌, ◌<◌, ◌≡◌, refl, sym, ap, ◌∙◌, arith,
  true, false, ltb, ◌==◌, Bool-cases, inl, inr, some, List, [], ◌∷◌, ◌++◌, length, take, drop, All,
  map, length-append, take-append_length, drop-append_length, append_assoc, length-drop, leb,
  le→leb, bit_and, bit_or,
}
use mpeg2ts_reader.Base.{ok, slice_prefix, slice_from_lem, ◌>>=◌}
use mpeg2ts_reader.Base.Bits.{shl16, and_mask, or_bytes, IsBytes, IsBytes-drop}
use mpeg2ts_reader.Packet.Fields.{new_pid}
use mpeg2ts_reader.Error.{not_enough_data}
use mpeg2ts_reader.Psi.Section.{Run, Fault}
use mpeg2ts_reader.Psi.Pat.{
  pid, ProgramDescriptor, network, program, from_bytes, Item, next, items, programs,
}

-- An entry that a table can hold: 13 bits of PID, and a program number that is not 0.
abbrev pub IsEntry : ProgramDescriptor → Type 0
IsEntry (network p) = p.val < 8192
IsEntry (program n p) = (0 < n) × (n < 65536) × (p.val < 8192)

-- The four bytes of an entry; the three reserved bits are given.
abbrev pub encode : ℕ → ProgramDescriptor → List ℕ
encode reserved (network p) = 0 ∷ 0 ∷ (reserved * 32 + p.val / 256) ∷ (p.val % 256) ∷ []
encode reserved (program n p) =
    (n / 256) ∷ (n % 256) ∷ (reserved * 32 + p.val / 256) ∷ (p.val % 256) ∷ []

unfoldable pub encode_all : ℕ → List ProgramDescriptor → List ℕ
encode_all reserved [] = []
encode_all reserved (d ∷ ds) = encode reserved d ++ encode_all reserved ds

new_pid_lem :
    {E : Type 0} (reserved v : ℕ)
    → v < 8192
    → new_pid {E = E} (bit_or (shl16 (bit_and (reserved * 32 + v / 256) 0b0001_1111) 8) (v % 256))
      ≡ ok (record { val = v })
unfolding new_pid
new_pid_lem reserved v h =
    let masked : bit_and (reserved * 32 + v / 256) 0b0001_1111 ≡ v / 256 =
      and_mask 5 (reserved * 32 + v / 256) ∙ omega arith in
    let value : bit_or (shl16 (v / 256) 8) (v % 256) ≡ v =
      or_bytes (v / 256) (v % 256) (omega arith) (omega arith) ∙ omega arith in
    rw (masked, value) (ground arith)

from_bytes-encode :
    {E : Type 0} (reserved : ℕ) (d : ProgramDescriptor)
    → IsEntry d
    → from_bytes {E = E} (encode reserved d) ≡ ok d
unfolding from_bytes
from_bytes-encode {E} reserved (network p) h = rw (new_pid_lem {E = E} reserved p.val h) refl
from_bytes-encode {E} reserved (program n p) h =
    let number : bit_or (shl16 (n / 256) 8) (n % 256) ≡ n =
      or_bytes (n / 256) (n % 256) (omega arith) (omega arith) ∙ omega arith in
    rw (new_pid_lem {E = E} reserved p.val h.2, number) (ground arith)

length-encode : (reserved : ℕ) (d : ProgramDescriptor) → length (encode reserved d) ≡ 4
length-encode reserved (network p) = refl
length-encode reserved (program n p) = refl

length_entry :
    (reserved : ℕ) (d : ProgramDescriptor) (xs ys : List ℕ)
    → length ((encode reserved d ++ xs) ++ ys) ≡ 4 + length (xs ++ ys)
length_entry reserved d xs ys = omega (
  arith,
  length-append (encode reserved d ++ xs) ys,
  length-append (encode reserved d) xs,
  length-append xs ys,
  length-encode reserved d,
)

-- What is left over behind the last whole entry is reported once.
abbrev pub leftover : List ℕ → List Item
leftover [] = []
leftover (b ∷ bs) = inl (not_enough_data (length (b ∷ bs))) ∷ []

next_lem :
    (buf : List ℕ)
    → 4 ≤ length buf
    → next buf ≡ (from_bytes (take 4 buf) >>= λ d. ok (some (inr d, drop 4 buf)))
unfolding next
next_lem buf h =
    let some_left : (length buf == 0) ≡ false = ground arith in
    let enough : ltb (length buf) 4 ≡ false = ground arith in
    rw (some_left, enough, slice_prefix {E = Fault} buf 4 h, slice_from_lem {E = Fault} buf 4 h)
      refl

next-encode :
    (reserved : ℕ) (d : ProgramDescriptor) (rest : List ℕ)
    → IsEntry d
    → next (encode reserved d ++ rest) ≡ ok (some (inr d, rest))
next-encode reserved d rest h =
    let whole = length-encode reserved d in
    let first : take 4 (encode reserved d ++ rest) ≡ encode reserved d =
      ap (λ (k : ℕ). take k (encode reserved d ++ rest)) (sym whole)
      ∙ take-append_length (encode reserved d) rest in
    let left : drop 4 (encode reserved d ++ rest) ≡ rest =
      ap (λ (k : ℕ). drop k (encode reserved d ++ rest)) (sym whole)
      ∙ drop-append_length (encode reserved d) rest in
    next_lem (encode reserved d ++ rest)
      (omega (arith, length-append (encode reserved d) rest, whole))
    ∙ rw (first, left, from_bytes-encode {E = Fault} reserved d h) refl

next_short :
    (buf : List ℕ)
    → 0 < length buf
    → length buf < 4
    → next buf ≡ ok (some (inl (not_enough_data (length buf)), []))
unfolding next
next_short buf h k =
    let some_left : (length buf == 0) ≡ false = ground arith in
    let short : ltb (length buf) 4 ≡ true = ground arith in
    rw (some_left, short, slice_prefix {E = Fault} buf 0 (omega arith)) refl

items_empty : (fuel : ℕ) → items fuel [] ≡ ok []
unfolding items next
items_empty zero = refl
items_empty (suc fuel) = refl

items_tail :
    (fuel : ℕ) (tail : List ℕ)
    → length tail < 4
    → length tail ≤ fuel
    → items fuel tail ≡ ok (leftover tail)
unfolding items
items_tail fuel [] h k = items_empty fuel
items_tail zero (b ∷ bs) h k = absurd (omega arith)
items_tail (suc fuel) (b ∷ bs) h k = rw (next_short (b ∷ bs) (omega arith) h, items_empty fuel) refl

items-encode_all :
    (fuel reserved : ℕ) (ds : List ProgramDescriptor) (tail : List ℕ)
    → All IsEntry ds
    → length tail < 4
    → length (encode_all reserved ds ++ tail) ≤ fuel
    → items fuel (encode_all reserved ds ++ tail) ≡ ok (map inr ds ++ leftover tail)
unfolding encode_all items
items-encode_all fuel reserved [] tail h k l = items_tail fuel tail k l
items-encode_all zero reserved (d ∷ ds) tail h k l =
    absurd (omega (arith, length_entry reserved d (encode_all reserved ds) tail))
items-encode_all (suc fuel) reserved (d ∷ ds) tail h k l =
    let rest = encode_all reserved ds ++ tail in
    ap (items (suc fuel)) (append_assoc (encode reserved d) (encode_all reserved ds) tail)
    ∙ rw
        (
          items,
          next-encode reserved d rest h.0,
          items-encode_all fuel reserved ds tail h.1 k
              (omega (arith, length_entry reserved d (encode_all reserved ds) tail)),
        )
        refl

-- The iterator gives back, in order, every list of entries that was written, each with a PID of 13
-- bits and a program number of 16 bits that is not 0, and one error for the one to three bytes
-- that are left over.
pub programs-encode_all :
    (reserved : ℕ) (ds : List ProgramDescriptor) (tail : List ℕ)
    → All IsEntry ds
    → length tail < 4
    → programs (encode_all reserved ds ++ tail) ≡ ok (map inr ds ++ leftover tail)
unfolding programs
programs-encode_all reserved ds tail h k =
    items-encode_all (length (encode_all reserved ds ++ tail)) reserved ds tail h k (omega arith)

-- An entry whose PID fits its 13 bits, or an error.
abbrev pub HasPid : Item → Type 0
HasPid (inl e) = Unit {0}
HasPid (inr d) = (pid d).val < 8192

from_bytes-total :
    (buf : List ℕ)
    → 4 ≤ length buf
    → IsBytes buf
    → (d : ProgramDescriptor) × (from_bytes {E = Fault} (take 4 buf) ≡ ok d) × ((pid d).val < 8192)
unfolding from_bytes new_pid
from_bytes-total [] h b = absurd (omega arith)
from_bytes-total (x ∷ []) h b = absurd (omega arith)
from_bytes-total (x ∷ y ∷ []) h b = absurd (omega arith)
from_bytes-total (x ∷ y ∷ z ∷ []) h b = absurd (omega arith)
from_bytes-total (x ∷ y ∷ z ∷ w ∷ rest) h b =
    let v = bit_or (shl16 (bit_and z 0b0001_1111) 8) w in
    let value : v ≡ z % 32 * 256 + w =
      ap (λ (t : ℕ). bit_or (shl16 t 8) w) (and_mask 5 z)
      ∙ or_bytes (z % 32) w (omega arith) b.1.1.1.0 in
    let small : v < 8192 = omega (arith, value, b.1.1.1.0) in
    let fits : leb v 0x1fff ≡ true = le→leb v 0x1fff (omega (arith, small)) in
    elim (Bool-cases (bit_or (shl16 x 8) y == 0)) [
      | inl e ↦ (network (record { val = v }), rw (fits, e) refl, small)
      | inr e ↦ (program (bit_or (shl16 x 8) y) (record { val = v }), rw (fits, e) refl, small)
    ]

leftover-HasPid : (buf : List ℕ) → All HasPid (leftover buf)
leftover-HasPid [] = tt
leftover-HasPid (b ∷ bs) = (tt, tt)

items-total :
    (fuel : ℕ) (buf : List ℕ)
    → IsBytes buf
    → length buf ≤ fuel
    → (is : List Item) × (items fuel buf ≡ ok is) × All HasPid is
unfolding items
items-total zero [] h k = ([], refl, tt)
items-total zero (b ∷ bs) h k = absurd (omega arith)
items-total (suc fuel) buf h k = elim (Bool-cases (ltb (length buf) 4)) [
  | inl e ↦ (leftover buf, items_tail (suc fuel) buf (ground arith) k, leftover-HasPid buf)
  | inr e ↦
      (let (d, r, small) = from_bytes-total buf (ground arith) h in
        let (is, m, all) =
          items-total fuel (drop 4 buf) (IsBytes-drop 4 buf h)
            (ground (arith, length-drop 4 buf)) in
        (inr d ∷ is, rw (next_lem buf (ground arith), r, m) refl, (small, all)))
]

-- On bytes the iteration ends and does not panic, and each PID that is read fits its 13 bits.
pub programs-total :
    (data' : List ℕ) → IsBytes data' → (is : List Item) × (programs data' ≡ ok is) × All HasPid is
unfolding programs
programs-total data' h = items-total (length data') data' h (omega arith)

abbrev value_or : List Item → Run (List Item) → List Item
value_or is (ok js) = js
value_or is (err e) = is
value_or is panic = is

pub programs-HasPid :
    (data' : List ℕ) (is : List Item) → IsBytes data' → programs data' ≡ ok is → All HasPid is
programs-HasPid data' is h e =
    let (js, r, all) = programs-total data' h in
    subst (λ ks. All HasPid ks) (ap (value_or []) (sym r ∙ e)) all
