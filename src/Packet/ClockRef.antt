-- ===== src/Packet/ClockRef.antt =====
-- src/packet.rs: `ClockRef`, a program clock reference of 33 + 9 bits.
pub mod Codec
use mpeg2ts_reader.Base.{ℕ, ◌+◌, ◌*◌, ◌^◌, Bool, ◌&&◌, ltb, ◌==◌, bit_and, bit_or, List}
use mpeg2ts_reader.Base.{Outcome, ok, assert, index, ◌>>=◌, ◌>>◌}
use mpeg2ts_reader.Base.Bits.{shl16, shl64, shr}

pub record ClockRef : Type 0 where
  pub base : ℕ
  pub extension : ℕ

abbrev pub eq : ClockRef → ClockRef → Bool
eq self other = self.base == other.base && self.extension == other.extension

-- `From<ClockRef> for u64`: in units of 27 MHz.
abbrev pub to_u64 : ClockRef → ℕ
to_u64 pcr = pcr.base * 300 + pcr.extension

unfoldable pub from_slice : {E : Type 0} → List ℕ → Outcome E ClockRef
from_slice buf = do
  b0 ← index buf 0
  b1 ← index buf 1
  b2 ← index buf 2
  b3 ← index buf 3
  b4 ← index buf 4
  b5 ← index buf 5
  ok (record {
    base =
        bit_or (bit_or (bit_or (bit_or (shl64 b0 25) (shl64 b1 17)) (shl64 b2 9)) (shl64 b3 1))
          (shr b4 7);
    extension = bit_or (shl16 (bit_and b4 0b1) 8) b5;
  })

unfoldable pub from_parts : {E : Type 0} → ℕ → ℕ → Outcome E ClockRef
from_parts base extension = do
  assert (ltb base (2 ^ 33))
  assert (ltb extension (2 ^ 9))
  ok (record { base = base; extension = extension })
