-- ===== src/Crc/Reference.antt =====
-- src/mpegts_crc.rs: the table-driven CRC against the bit-serial division it stands for.
use mpeg2ts_reader.Base.{
  ℕ, ◌*◌, ◌/◌, ◌%◌, ◌^◌, ◌<◌, ◌≡◌, refl, sym, ap, ◌∙◌, arith, Bool, true, ◌==◌, ==→≡, List, [], ◌∷◌,
  ◌++◌, get_or, length, bit_and, bit_xor,
}
use mpeg2ts_reader.Base.{ok, index, index-lt}
use mpeg2ts_reader.Base.Bits.{all_below, for_bytes, and_mask, IsBytes, IsBytes-append}
use mpeg2ts_reader.Base.Bits.Xor.{
  xor_self, zero_xor, xor_zero, xor_comm, xor_fields, xor-lt, xor_split,
}
use mpeg2ts_reader.Crc.{crc_table, crc_round, sum_from, sum32}
use mpeg2ts_reader.Crc.Division.{
  crc_bit, crc_bits, crc_reference, crc_bits-lt, crc_bits-xor, crc_bits_low,
}

table_row : ℕ → Bool
unfolding crc_bits crc_bit crc_table
table_row i = get_or crc_table i 0 == crc_bits 8 (i * 2 ^ 24)

table_rows : all_below 256 table_row ≡ true
unfolding all_below table_row
table_rows = refl

table_size : length crc_table ≡ 256
unfolding crc_table
table_size = refl

-- The table holds the eight steps of each leading byte.
table_lem :
    {E : Type 0} (i : ℕ) → i < 256 → index {E = E} crc_table i ≡ ok (crc_bits 8 (i * 2 ^ 24))
unfolding table_row
table_lem i h =
    index-lt crc_table i (rw table_size h)
    ∙ ap (λ (t : ℕ). ok t) (==→≡ _ _ (for_bytes table_row table_rows i h))

-- The byte meets the top of the register; the rest stays.
feed_byte :
    (c d : ℕ) → bit_xor c (d * 2 ^ 24) ≡ bit_xor (bit_xor (c / 2 ^ 24) d * 2 ^ 24) (c % 2 ^ 24)
feed_byte c d =
    let split = xor_split 24 c (d * 2 ^ 24) in
    let high : bit_xor c (d * 2 ^ 24) / 2 ^ 24 ≡ bit_xor (c / 2 ^ 24) d =
      split.0 ∙ ap (bit_xor (c / 2 ^ 24)) (omega arith) in
    let low : bit_xor c (d * 2 ^ 24) % 2 ^ 24 ≡ c % 2 ^ 24 =
      split.1 ∙ ap (bit_xor (c % 2 ^ 24)) (omega arith) ∙ xor_zero (c % 2 ^ 24) in
    omega (arith, high, low)
    ∙ sym (xor_fields 24 (bit_xor (c / 2 ^ 24) d) (c % 2 ^ 24) (omega arith))

crc_round_lem :
    {E : Type 0} (c d : ℕ)
    → c < 2 ^ 32
    → d < 256
    → crc_round {E = E} c d ≡ ok (crc_bits 8 (bit_xor c (d * 2 ^ 24)))
unfolding crc_round
crc_round_lem {E} c d h l =
    let i = bit_xor (c / 2 ^ 24) d in
    let small : i < 256 = xor-lt 8 (c / 2 ^ 24) d (omega arith) l in
    let masked : bit_and i 0xff ≡ i = and_mask 8 i ∙ omega (arith, small) in
    let shifted : c * 2 ^ 8 % 2 ^ 32 ≡ crc_bits 8 (c % 2 ^ 24) =
      omega arith ∙ sym (crc_bits_low (c % 2 ^ 24) (omega arith)) in
    let steps : bit_xor (c * 2 ^ 8 % 2 ^ 32) (crc_bits 8 (i * 2 ^ 24))
        ≡ crc_bits 8 (bit_xor c (d * 2 ^ 24)) =
      ap (λ (t : ℕ). bit_xor t (crc_bits 8 (i * 2 ^ 24))) shifted
      ∙ xor_comm (crc_bits 8 (c % 2 ^ 24)) (crc_bits 8 (i * 2 ^ 24))
      ∙ sym (crc_bits-xor 8 (i * 2 ^ 24) (c % 2 ^ 24) (omega (arith, small)) (omega arith))
      ∙ ap (crc_bits 8) (sym (feed_byte c d)) in
    rw (masked, table_lem {E = E} i small) (ap (λ (t : ℕ). ok t) steps)

sum_from_lem :
    {E : Type 0} (c : ℕ) (data' : List ℕ)
    → c < 2 ^ 32
    → IsBytes data'
    → sum_from {E = E} c data' ≡ ok (crc_reference c data')
unfolding sum_from crc_reference
sum_from_lem c [] h k = refl
sum_from_lem {E} c (d ∷ rest) h k =
    let x = bit_xor c (d * 2 ^ 24) in
    rw (crc_round_lem {E = E} c d h k.0) (
      sum_from_lem (crc_bits 8 x) rest
        (crc_bits-lt 8 x (xor-lt 32 c (d * 2 ^ 24) h (omega (arith, k.0)))) k.1)

-- On bytes `sum32` never panics, and gives the remainder of the bit-serial division that starts
-- from all ones.
pub sum32-crc_reference :
    {E : Type 0} (data' : List ℕ)
    → IsBytes data'
    → sum32 {E = E} data' ≡ ok (crc_reference 0xffff_ffff data')
unfolding sum32
sum32-crc_reference data' h = sum_from_lem 0xffff_ffff data' (omega arith) h

crc_reference-lt :
    (c : ℕ) (data' : List ℕ) → c < 2 ^ 32 → IsBytes data' → crc_reference c data' < 2 ^ 32
unfolding crc_reference
crc_reference-lt c [] h k = h
crc_reference-lt c (d ∷ rest) h k =
    let x = bit_xor c (d * 2 ^ 24) in
    crc_reference-lt (crc_bits 8 x) rest
      (crc_bits-lt 8 x (xor-lt 32 c (d * 2 ^ 24) h (omega (arith, k.0)))) k.1

crc_reference-append :
    (c : ℕ) (xs ys : List ℕ) → crc_reference c (xs ++ ys) ≡ crc_reference (crc_reference c xs) ys
unfolding crc_reference
crc_reference-append c [] ys = refl
crc_reference-append c (d ∷ rest) ys =
    crc_reference-append (crc_bits 8 (bit_xor c (d * 2 ^ 24))) rest ys

-- The four bytes of a remainder, the highest first.
unfoldable pub crc_bytes : ℕ → List ℕ
crc_bytes c = c / 2 ^ 24 ∷ c / 2 ^ 16 % 256 ∷ c / 2 ^ 8 % 256 ∷ c % 256 ∷ []

-- The top byte of the register cancels it.
cancel : (c : ℕ) → crc_bits 8 (bit_xor c (c / 2 ^ 24 * 2 ^ 24)) ≡ c % 2 ^ 24 * 256
cancel c =
    ap (crc_bits 8) (
      feed_byte c (c / 2 ^ 24)
      ∙ ap (λ (t : ℕ). bit_xor (t * 2 ^ 24) (c % 2 ^ 24)) (xor_self (c / 2 ^ 24))
      ∙ zero_xor (c % 2 ^ 24))
    ∙ crc_bits_low (c % 2 ^ 24) (omega arith)

cancel_byte : (c d : ℕ) → d ≡ c / 2 ^ 24 → crc_bits 8 (bit_xor c (d * 2 ^ 24)) ≡ c % 2 ^ 24 * 256
cancel_byte c d e = ap (λ (t : ℕ). crc_bits 8 (bit_xor c (t * 2 ^ 24))) e ∙ cancel c

crc_bytes-crc_reference : (c : ℕ) → crc_reference c (crc_bytes c) ≡ 0
unfolding crc_reference crc_bytes
crc_bytes-crc_reference c =
    let c1 = c % 2 ^ 24 * 256 in
    let c2 = c1 % 2 ^ 24 * 256 in
    let c3 = c2 % 2 ^ 24 * 256 in
    rw
      (
        cancel c,
        cancel_byte c1 (c / 2 ^ 16 % 256) (omega arith),
        cancel_byte c2 (c / 2 ^ 8 % 256) (omega arith),
        cancel_byte c3 (c % 256) (omega arith),
      )
      (omega arith)

crc_bytes-IsBytes : (c : ℕ) → c < 2 ^ 32 → IsBytes (crc_bytes c)
unfolding crc_bytes
crc_bytes-IsBytes c h = (omega arith, (omega arith, (omega arith, (omega arith, tt))))

-- Bytes that are followed by their CRC, the highest byte first, have the sum 0.
pub sum32_residue :
    {E : Type 0} (data' : List ℕ)
    → IsBytes data'
    → sum32 {E = E} (data' ++ crc_bytes (crc_reference 0xffff_ffff data')) ≡ ok 0
sum32_residue data' h =
    let c = crc_reference 0xffff_ffff data' in
    let bytes = crc_bytes-IsBytes c (crc_reference-lt 0xffff_ffff data' (omega arith) h) in
    sum32-crc_reference (data' ++ crc_bytes c) (IsBytes-append data' (crc_bytes c) h bytes)
    ∙ ap (λ (t : ℕ). ok t)
        (crc_reference-append 0xffff_ffff data' (crc_bytes c) ∙ crc_bytes-crc_reference c)
