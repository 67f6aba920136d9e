-- ===== src/Pes/Contents/Offsets.antt =====
-- src/pes.rs: where the optional fields of a PES header lie, as sums over the flags, and the slices
-- of them in a header that `from_bytes` accepts.
use mpeg2ts_reader.Base.{
  ℕ, ◌+◌, ◌-◌, ◌/◌, ◌%◌, ◌^◌, ◌≤◌, ◌<◌, ◌≡◌, refl, ap, ◌∙◌, arith, Bool, false, ltb, ==→≡, ltb→le,
  ◌==◌, Bool-cases, if◌then◌else◌, ◌⊎◌, inl, inr, List, length, take, drop, get_or,
}
use mpeg2ts_reader.Base.{ok, err, index-lt, slice_range_lem}
use mpeg2ts_reader.Base.Bits.{IsBytes, byte-lt, has_bits, and_mask}
use mpeg2ts_reader.Pes.Header.{
  PesError, not_enough_data, invalid_check_bits, header_length_exceeds_buffer,
  header_data_length_mismatch,
}
use mpeg2ts_reader.Pes.Contents.{
  PesParsedContents, header_slice, pts_dts_flags, escr_flag, esrate_flag, dsm_trick_mode_flag,
  additional_copy_info_flag, pes_crc_flag, pes_extension_flag, pes_header_data_len, pts_dts_end,
  escr_end, es_rate_end, dsm_trick_mode_end, additional_copy_info_end, pes_crc_end,
  contents_from_bytes,
}

-- A flag of the second byte, and the size of the field that it announces.
abbrev pub flagged : ℕ → ℕ → Bool
flagged b1 bit = b1 / 2 ^ bit % 2 == 1

abbrev pub size : ℕ → ℕ → ℕ → ℕ
size b1 bit n = if flagged b1 bit then n else 0

abbrev pub stamps_size : ℕ → ℕ
stamps_size b1 = if b1 / 64 == 2 then 5 else if b1 / 64 == 3 then 10 else 0

abbrev pub end1 : ℕ → ℕ
end1 b1 = 3 + stamps_size b1

abbrev pub end2 : ℕ → ℕ
end2 b1 = end1 b1 + size b1 5 6

abbrev pub end3 : ℕ → ℕ
end3 b1 = end2 b1 + size b1 4 3

abbrev pub end4 : ℕ → ℕ
end4 b1 = end3 b1 + size b1 3 1

abbrev pub end5 : ℕ → ℕ
end5 b1 = end4 b1 + size b1 2 1

abbrev pub end6 : ℕ → ℕ
end6 b1 = end5 b1 + size b1 1 2

abbrev pub second : PesParsedContents → ℕ
second h = get_or h.buf 1 0

-- The flags of the second byte.
low_bit : (x : ℕ) → has_bits x 1 ≡ (x % 2 == 1)
low_bit x = rw (and_mask 1 x) (ground arith)

module _ {E : Type 0} (h : PesParsedContents) (n : 3 ≤ length h.buf) where
  pub flags_lem :
      (pts_dts_flags {E = E} h ≡ ok (second h / 64))
      × (escr_flag {E = E} h ≡ ok (flagged (second h) 5))
      × (esrate_flag {E = E} h ≡ ok (flagged (second h) 4))
      × (dsm_trick_mode_flag {E = E} h ≡ ok (flagged (second h) 3))
      × (additional_copy_info_flag {E = E} h ≡ ok (flagged (second h) 2))
      × (pes_crc_flag {E = E} h ≡ ok (flagged (second h) 1))
      × (pes_extension_flag {E = E} h ≡ ok (second h % 2 == 1))
  unfolding pts_dts_flags escr_flag esrate_flag dsm_trick_mode_flag additional_copy_info_flag
      pes_crc_flag pes_extension_flag
  flags_lem =
      let at = index-lt {E = E} h.buf 1 (omega arith) in
      (
        rw at refl,
        rw (at, low_bit (second h / 2 ^ 5)) refl,
        rw (at, low_bit (second h / 2 ^ 4)) refl,
        rw (at, low_bit (second h / 2 ^ 3)) refl,
        rw (at, low_bit (second h / 2 ^ 2)) refl,
        rw (at, low_bit (second h / 2 ^ 1)) refl,
        rw (at, low_bit (second h)) refl,
      )

  pub pes_header_data_len_lem : pes_header_data_len {E = E} h ≡ ok (get_or h.buf 2 0)
  unfolding pes_header_data_len
  pes_header_data_len_lem = index-lt {E = E} h.buf 2 (omega arith)

  module _ (byte : second h < 256) where
    pub pts_dts_end_lem : pts_dts_end {E = E} h ≡ ok (end1 (second h))
    unfolding pts_dts_end
    pts_dts_end_lem =
        let small : second h / 64 < 4 = omega (arith, byte) in rw (flags_lem.0) (ground arith)

    pub ends_lem :
        (escr_end {E = E} h ≡ ok (end2 (second h)))
        × (es_rate_end {E = E} h ≡ ok (end3 (second h)))
        × (dsm_trick_mode_end {E = E} h ≡ ok (end4 (second h)))
        × (additional_copy_info_end {E = E} h ≡ ok (end5 (second h)))
        × (pes_crc_end {E = E} h ≡ ok (end6 (second h)))
    unfolding escr_end es_rate_end dsm_trick_mode_end additional_copy_info_end pes_crc_end
    ends_lem =
        let (v, escr, rate, trick, info, crc, ext) = flags_lem in
        let first = pts_dts_end_lem in
        (
          rw (first, escr) refl,
          rw (first, escr, rate) refl,
          rw (first, escr, rate, trick) refl,
          rw (first, escr, rate, trick, info) refl,
          rw (first, escr, rate, trick, info, crc) refl,
        )

-- A header that is accepted: its optional fields lie within its length, and that within the buffer.
pub record IsAccepted (h : PesParsedContents) : Type 0 where
  pub bytes : IsBytes h.buf
  pub check_bits : get_or h.buf 0 0 / 64 ≡ 2
  pub fields : end6 (second h) ≤ 3 + get_or h.buf 2 0
  pub whole : 3 + get_or h.buf 2 0 ≤ length h.buf

pub contents_from_bytes_lem :
    (buf : List ℕ)
    → IsBytes buf
    → ((e : PesError) × (contents_from_bytes buf ≡ err e))
      ⊎ IsAccepted (record { buf = buf }) × (contents_from_bytes buf ≡ ok (record { buf = buf }))
unfolding contents_from_bytes
contents_from_bytes_lem buf bytes = elim (Bool-cases (ltb (length buf) 3)) [
  | inl short ↦ inl (not_enough_data 3 (length buf), rw short refl)
  | inr long ↦
      let n = ltb→le (length buf) 3 long in
      let at = index-lt {E = PesError} buf 0 (omega arith) in
      elim (Bool-cases (get_or buf 0 0 / 64 == 2)) [
        | inr wrong ↦ inl (invalid_check_bits, rw (long, at, wrong) refl)
        | inl right ↦
            let h : PesParsedContents = record { buf = buf } in
            let len = pes_header_data_len_lem {E = PesError} h n in
            let end = (ends_lem {E = PesError} h n (byte-lt buf 1 bytes)).4 in
            elim (Bool-cases (ltb (length buf) (3 + get_or buf 2 0))) [
              | inl past ↦ inl (header_length_exceeds_buffer, rw (long, at, right, len, past) refl)
              | inr fits ↦ elim (Bool-cases (ltb (3 + get_or buf 2 0) (end6 (get_or buf 1 0)))) [
                | inl past ↦
                    inl
                      (header_data_length_mismatch, rw (long, at, right, len, fits, end, past) refl)
                | inr within ↦ inr (
                  record {
                    bytes = bytes;
                    check_bits = ==→≡ _ _ right;
                    fields = ltb→le _ _ within;
                    whole = ltb→le _ _ fits;
                  },
                  rw (long, at, right, len, fits, end, within) refl,
                )
              ]
            ]
      ]
]

-- The slice of a field that lies within an accepted header.
pub header_slice_lem :
    (h : PesParsedContents) (from n : ℕ)
    → IsAccepted h
    → from + n ≤ 3 + get_or h.buf 2 0
    → header_slice h from (from + n) ≡ ok (take n (drop from h.buf))
unfolding header_slice
header_slice_lem h from n a k =
    let whole = a.whole in
    let inside : ltb (get_or h.buf 2 0 + 3) (from + n) ≡ false = ground arith in
    let fits : ltb (length h.buf) (from + n) ≡ false = ground arith in
    let same : from + n - from ≡ n = omega arith in
    rw (pes_header_data_len_lem {E = PesError} h (omega arith), inside, fits)
      (slice_range_lem {E = PesError} h.buf from (from + n) (omega arith) (omega arith)
        ∙ ap (λ (m : ℕ). ok (take m (drop from h.buf))) same)
