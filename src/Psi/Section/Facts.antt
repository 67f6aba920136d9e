-- ===== src/Psi/Section/Facts.antt =====
-- src/psi/mod.rs: what the section headers read, for every buffer that is long enough.
use mpeg2ts_reader.Base.{
  ℕ, ◌+◌, ◌*◌, ◌/◌, ◌%◌, ◌≤◌, ◌<◌, ◌≡◌, refl, arith, ◌==◌, List, take, length, get_or, length-take,
  get_or-take, get_or-append, ◌++◌, if◌then◌else◌,
}
use mpeg2ts_reader.Base.{ok, index-lt}
use mpeg2ts_reader.Base.Bits.{IsBytes, byte-lt, has_bit, and_mask, or_bytes}
use mpeg2ts_reader.Psi.Section.{
  SectionCommonHeader, Fault, new_common, TableSyntaxHeader, current, next, id, version,
  current_next_indicator, section_number, last_section_number,
}

-- The length field: the low four bits of byte 1, then byte 2.
abbrev pub length_field : List ℕ → ℕ
length_field buf = get_or buf 1 0 % 16 * 256 + get_or buf 2 0

-- The header that a buffer begins with.
unfoldable pub header_of : List ℕ → SectionCommonHeader
header_of buf = record {
  table_id = get_or buf 0 0;
  section_syntax_indicator = get_or buf 1 0 / 128 % 2 == 1;
  private_indicator = get_or buf 1 0 / 64 % 2 == 1;
  section_length = length_field buf;
}

pub length_field-le : (buf : List ℕ) → IsBytes buf → length_field buf ≤ 4095
length_field-le buf h = omega (arith, byte-lt buf 2 h)

pub new_common_lem :
    (buf : List ℕ) → 3 ≤ length buf → IsBytes buf → new_common (take 3 buf) ≡ ok (header_of buf)
unfolding new_common header_of
new_common_lem buf n h = ground (
  arith,
  length-take 3 buf,
  index-lt {E = Fault} (take 3 buf) 0 (omega (arith, length-take 3 buf)),
  index-lt {E = Fault} (take 3 buf) 1 (omega (arith, length-take 3 buf)),
  index-lt {E = Fault} (take 3 buf) 2 (omega (arith, length-take 3 buf)),
  get_or-take 0 3 buf 0 (omega arith),
  get_or-take 1 3 buf 0 (omega arith),
  get_or-take 2 3 buf 0 (omega arith),
  has_bit 7 (get_or buf 1 0) (omega arith) (byte-lt buf 1 h),
  has_bit 6 (get_or buf 1 0) (omega arith) (byte-lt buf 1 h),
  and_mask 4 (get_or buf 1 0),
  or_bytes (get_or buf 1 0 % 16) (get_or buf 2 0) (omega arith) (byte-lt buf 2 h),
)

-- What each field of the table syntax header reads from five bytes or more; none of the reads
-- panics.
pub table_syntax_header_lem :
    {E : Type 0} (h : TableSyntaxHeader)
    → 5 ≤ length h.buf
    → IsBytes h.buf
    → (id {E = E} h ≡ ok (get_or h.buf 0 0 * 256 + get_or h.buf 1 0))
      × (version {E = E} h ≡ ok (get_or h.buf 2 0 / 2 % 32))
      × (current_next_indicator {E = E} h
          ≡ ok (if get_or h.buf 2 0 % 2 == 1 then current else next))
      × (section_number {E = E} h ≡ ok (get_or h.buf 3 0))
      × (last_section_number {E = E} h ≡ ok (get_or h.buf 4 0))
unfolding id version current_next_indicator section_number last_section_number
table_syntax_header_lem {E} h n bytes =
    let at = λ (i : ℕ) (l : i < 5). index-lt {E = E} h.buf i (omega arith) in
    (
      rw (
        at 0 (omega arith),
        at 1 (omega arith),
        or_bytes _ _ (byte-lt h.buf 0 bytes) (byte-lt h.buf 1 bytes),
      ),
      rw (at 2 (omega arith), and_mask 5 (get_or h.buf 2 0 / 2)),
      rw (at 2 (omega arith), and_mask 1 (get_or h.buf 2 0)) (ground arith),
      at 3 (omega arith),
      at 4 (omega arith),
    )

pub length_field-take :
    (n : ℕ) (buf : List ℕ) → 3 ≤ n → length_field (take n buf) ≡ length_field buf
length_field-take n buf h =
    rw (get_or-take 1 n buf 0 (omega arith), get_or-take 2 n buf 0 (omega arith))

pub header_of-take : (n : ℕ) (buf : List ℕ) → 3 ≤ n → header_of (take n buf) ≡ header_of buf
unfolding header_of
header_of-take n buf h = rw (
  get_or-take 0 n buf 0 (omega arith),
  get_or-take 1 n buf 0 (omega arith),
  get_or-take 2 n buf 0 (omega arith),
)

pub length_field-append :
    (xs ys : List ℕ) → 3 ≤ length xs → length_field (xs ++ ys) ≡ length_field xs
length_field-append xs ys h =
    rw (get_or-append 1 xs ys 0 (omega arith), get_or-append 2 xs ys 0 (omega arith))

pub header_of-append : (xs ys : List ℕ) → 3 ≤ length xs → header_of (xs ++ ys) ≡ header_of xs
unfolding header_of
header_of-append xs ys h = rw (
  get_or-append 0 xs ys 0 (omega arith),
  get_or-append 1 xs ys 0 (omega arith),
  get_or-append 2 xs ys 0 (omega arith),
)

pub section_length-header_of : (buf : List ℕ) → (header_of buf).section_length ≡ length_field buf
unfolding header_of
section_length-header_of buf = refl
