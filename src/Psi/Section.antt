-- ===== src/Psi/Section.antt =====
-- src/psi/mod.rs: the header that every section has, and the header of section-syntax tables.
pub mod Facts
use mpeg2ts_reader.Base.{ℕ, ◌+◌, Bool, leb, ◌==◌, if◌then◌else◌, bit_and, bit_or, List, length}
use mpeg2ts_reader.Base.{Outcome, ok, panic, assert, index, ◌>>=◌, ◌>>◌}
use mpeg2ts_reader.Base.Bits.{has_bits, shl16, shr}

-- A call that returns no `Result`. `out_of_fuel` is a loop of the model that was cut off; no run of
-- the program has it.
pub data Fault : Type 0 where
  out_of_fuel : Fault

abbrev pub Run : Type 0 → Type 0
Run A = Outcome Fault A

pub record SectionCommonHeader : Type 0 where
  pub table_id : ℕ
  pub section_syntax_indicator : Bool
  pub private_indicator : Bool
  pub section_length : ℕ

-- `SectionCommonHeader::SIZE`, `TableSyntaxHeader::SIZE`.
abbrev pub common_size : ℕ
common_size = 3

abbrev pub syntax_size : ℕ
syntax_size = 5

abbrev pub section_limit : ℕ
section_limit = 4093

abbrev pub stuffing_byte : ℕ
stuffing_byte = 0xff

unfoldable pub new_common : List ℕ → Run SectionCommonHeader
new_common buf = do
  assert (length buf == common_size)
  b0 ← index buf 0
  b1 ← index buf 1
  b2 ← index buf 2
  ok (record {
    table_id = b0;
    section_syntax_indicator = has_bits b1 0b1000_0000;
    private_indicator = has_bits b1 0b0100_0000;
    section_length = bit_or (shl16 (bit_and b1 0b0000_1111) 8) b2;
  })

pub data CurrentNext : Type 0 where
  current next : CurrentNext

pub record TableSyntaxHeader : Type 0 where
  pub buf : List ℕ

unfoldable pub new_syntax : List ℕ → Run TableSyntaxHeader
new_syntax buf = do assert (leb syntax_size (length buf)); ok (record { buf = buf })

-- `CurrentNext::from`.
unfoldable pub from : {E : Type 0} → ℕ → Outcome E CurrentNext
from v = if v == 0 then ok next else if v == 1 then ok current else panic

module _ {E : Type 0} (h : TableSyntaxHeader) where
  unfoldable pub id : Outcome E ℕ
  id = do b0 ← index h.buf 0; b1 ← index h.buf 1; ok (bit_or (shl16 b0 8) b1)

  unfoldable pub version : Outcome E ℕ
  version = do b2 ← index h.buf 2; ok (bit_and (shr b2 1) 0b0001_1111)

  unfoldable pub current_next_indicator : Outcome E CurrentNext
  unfolding from
  current_next_indicator = do b2 ← index h.buf 2; from (bit_and b2 1)

  unfoldable pub section_number : Outcome E ℕ
  section_number = index h.buf 3

  unfoldable pub last_section_number : Outcome E ℕ
  last_section_number = index h.buf 4
