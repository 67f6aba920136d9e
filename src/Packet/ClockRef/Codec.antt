-- ===== src/Packet/ClockRef/Codec.antt =====
-- src/packet.rs: `ClockRef::from_slice` reads back every clock reference that the layout of
-- ISO/IEC 13818-1 writes.
use mpeg2ts_reader.Base.{
  ℕ, ◌+◌, ◌*◌, ◌/◌, ◌%◌, ◌^◌, ◌<◌, ◌≡◌, ◌∙◌, arith, List, [], ◌∷◌, bit_and, bit_or,
}
use mpeg2ts_reader.Base.{ok}
use mpeg2ts_reader.Base.Bits.{IsBytes, shl16, shl64, shr, and_mask, or_add, or_bytes}
use mpeg2ts_reader.Packet.ClockRef.{ClockRef, from_slice, from_parts}

-- 33 bits of base, six reserved bits that are set, nine bits of extension.
abbrev pub encode : ClockRef → List ℕ
encode c =
    c.base / 2 ^ 25
    ∷ c.base / 2 ^ 17 % 256
    ∷ c.base / 2 ^ 9 % 256
    ∷ c.base / 2 % 256
    ∷ (c.base % 2 * 128 + 126 + c.extension / 256)
    ∷ c.extension % 256
    ∷ []

module _ (b0 b1 b2 b3 b4 b5 : ℕ) (rest : List ℕ)
    (h : IsBytes (b0 ∷ b1 ∷ b2 ∷ b3 ∷ b4 ∷ b5 ∷ [])) where
  base_lem :
      bit_or
        (bit_or (bit_or (bit_or (shl64 b0 25) (shl64 b1 17)) (shl64 b2 9)) (shl64 b3 1))
        (shr b4 7)
      ≡ b0 * 2 ^ 25 + b1 * 2 ^ 17 + b2 * 2 ^ 9 + b3 * 2 + b4 / 128
  base_lem =
      rw
        (
          or_add 25 (shl64 b0 25) (shl64 b1 17) (omega arith) (omega arith),
          or_add 17 (shl64 b0 25 + shl64 b1 17) (shl64 b2 9) (omega arith) (omega arith),
          or_add 9 (shl64 b0 25 + shl64 b1 17 + shl64 b2 9) (shl64 b3 1) (omega arith)
              (omega arith),
          or_add 1 (shl64 b0 25 + shl64 b1 17 + shl64 b2 9 + shl64 b3 1) (shr b4 7) (omega arith)
              (omega arith),
        )
        (omega arith)

  extension_lem : bit_or (shl16 (bit_and b4 1) 8) b5 ≡ b4 % 2 * 256 + b5
  extension_lem = rw (and_mask 1 b4) (or_bytes (b4 % 2) b5 (omega arith) (omega arith))

  pub from_slice_lem :
      {E : Type 0}
      → from_slice {E = E} (b0 ∷ b1 ∷ b2 ∷ b3 ∷ b4 ∷ b5 ∷ rest)
        ≡ ok (record {
          base = b0 * 2 ^ 25 + b1 * 2 ^ 17 + b2 * 2 ^ 9 + b3 * 2 + b4 / 128;
          extension = b4 % 2 * 256 + b5;
        })
  unfolding from_slice
  from_slice_lem = rw (base_lem, extension_lem)

-- Every clock reference whose base has 33 bits and whose extension has 9 survives the round trip
-- through its six bytes, and is one that `from_parts` accepts.
pub from_slice-encode :
    {E : Type 0} (c : ClockRef)
    → c.base < 2 ^ 33
    → c.extension < 2 ^ 9
    → (from_slice {E = E} (encode c) ≡ ok c) × (from_parts {E = E} c.base c.extension ≡ ok c)
unfolding from_parts
from_slice-encode c hb he =
    (from_slice_lem _ _ _ _ _ _ [] (omega arith) ∙ ground arith, ground arith)
