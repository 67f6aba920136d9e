-- ===== src/Psi/Pmt/Readable.antt =====
-- src/psi/pmt.rs: the bytes that the accessors of a stream of the table read.
use mpeg2ts_reader.Base.{
  ◌<◌, ℕ, suc, ◌+◌, ◌-◌, ◌*◌, ◌%◌, ◌≤◌, ◌≡◌, refl, ap, ◌∙◌, arith, le→leb, List, length, get_or,
  take, drop, bit_and, bit_or,
}
use mpeg2ts_reader.Base.{ok, index-lt, slice_range_lem}
use mpeg2ts_reader.Base.Bits.{shl16, and_mask, or_bytes, IsBytes, byte-lt}
use mpeg2ts_reader.Packet.Fields.{new_pid}
use mpeg2ts_reader.Psi.Pmt.{
  StreamInfo, program_info_length, stream_type, elementary_pid, es_info_length, es_descriptor_data,
}

-- The 12-bit and the 13-bit field at a place.
abbrev pub length_at : List ℕ → ℕ → ℕ
length_at buf i = get_or buf i 0 % 16 * 256 + get_or buf (suc i) 0

abbrev pub pid_at : List ℕ → ℕ → ℕ
pid_at buf i = get_or buf i 0 % 32 * 256 + get_or buf (suc i) 0

module _ (buf : List ℕ) (h : IsBytes buf) where
  pub length_val :
      (i : ℕ)
      → bit_or (shl16 (bit_and (get_or buf i 0) 0b0000_1111) 8) (get_or buf (suc i) 0)
        ≡ length_at buf i
  length_val i =
      rw (and_mask 4 (get_or buf i 0)) (
        or_bytes (get_or buf i 0 % 16) (get_or buf (suc i) 0) (omega arith) (byte-lt buf (suc i) h))

  pub pid_val :
      {E : Type 0} (i : ℕ)
      → new_pid {E = E}
          (bit_or (shl16 (bit_and (get_or buf i 0) 0b0001_1111) 8) (get_or buf (suc i) 0))
        ≡ ok (record { val = pid_at buf i })
  unfolding new_pid
  pid_val {E} i =
      let small = byte-lt buf (suc i) h in
      let value : bit_or (shl16 (bit_and (get_or buf i 0) 0b0001_1111) 8) (get_or buf (suc i) 0)
          ≡ pid_at buf i =
        rw (and_mask 5 (get_or buf i 0))
          (or_bytes (get_or buf i 0 % 32) (get_or buf (suc i) 0) (omega arith) small) in
      rw (value, le→leb (pid_at buf i) 0x1fff (omega (arith, small))) refl

  pub program_info_length_lem :
      {E : Type 0}
      → 4 ≤ length buf
      → program_info_length {E = E} (record { data' = buf }) ≡ ok (length_at buf 2)
  unfolding program_info_length
  program_info_length_lem {E} n =
      rw (index-lt {E = E} buf 2 (omega arith), index-lt {E = E} buf 3 (omega arith))
        (ap (λ v. ok v) (length_val 2))

  pub es_info_length_lem :
      {E : Type 0}
      → 5 ≤ length buf
      → es_info_length {E = E} (record { data' = buf }) ≡ ok (length_at buf 3)
  unfolding es_info_length
  es_info_length_lem {E} n =
      rw (index-lt {E = E} buf 3 (omega arith), index-lt {E = E} buf 4 (omega arith))
        (ap (λ v. ok v) (length_val 3))

-- A stream entry whose accessors all read within its bytes.
pub record IsReadable (s : StreamInfo) : Type 0 where
  pub bytes : IsBytes s.data'
  pub fixed : 5 ≤ length s.data'
  pub fits : 5 + length_at s.data' 3 ≤ length s.data'

-- The PID of such an entry fits 13 bits.
pub pid_at-lt : (s : StreamInfo) → IsReadable s → pid_at s.data' 1 < 8192
pid_at-lt s h = let low : get_or s.data' 2 0 < 256 = byte-lt s.data' 2 h.bytes in omega (arith, low)

-- What the accessors of such an entry read.
pub info_accessors :
    {E : Type 0} (s : StreamInfo)
    → IsReadable s
    → (stream_type {E = E} s ≡ ok (get_or s.data' 0 0))
      × (elementary_pid {E = E} s ≡ ok (record { val = pid_at s.data' 1 }))
      × (es_descriptor_data {E = E} s ≡ ok (take (length_at s.data' 3) (drop 5 s.data')))
unfolding stream_type elementary_pid es_descriptor_data
info_accessors {E} s h =
    let buf = s.data' in
    let n = h.fixed in
    let m = h.fits in
    let len = length_at buf 3 in
    let same : 5 + len - 5 ≡ len = omega arith in
    (
      index-lt buf 0 (omega arith),
      rw (index-lt {E = E} buf 1 (omega arith), index-lt {E = E} buf 2 (omega arith))
          (pid_val buf h.bytes {E = E} 1),
      rw (es_info_length_lem buf h.bytes {E = E} n) (
          slice_range_lem {E = E} buf 5 (5 + len) (omega arith) m
          ∙ ap (λ (k : ℕ). ok (take k (drop 5 buf))) same),
    )

-- An entry is read whole, or an error says which bytes are missing.
