-- ===== src/Pes/Contents/Parts.antt =====
-- src/pes.rs: the optional fields of a PES header, each read from the place where it was written.
use mpeg2ts_reader.Base.{
  ℕ, ◌+◌, ◌*◌, ◌/◌, ◌%◌, ◌^◌, ◌≤◌, ◌<◌, ◌≡◌, refl, ◌∙◌, arith, true, false, ltb, le→ltb, ◌==◌,
  if◌then◌else◌, inr, Option, some, none, List, ◌++◌, length, get_or, bit_and, bit_or,
}
use mpeg2ts_reader.Base.{
  Outcome, ok, err, panic, slice_range, slice_from, slice_prefix, slice_from_lem, index, ◌>>=◌,
}
use mpeg2ts_reader.Base.Bits.{and_mask, or_bytes, has_bit, has_bits, shl16, shl32, shr}
use mpeg2ts_reader.Base.Layout.{At, At-fits, At-slice, is_some, chunk, IfSome}
use mpeg2ts_reader.Packet.ClockRef.{ClockRef}
use mpeg2ts_reader.Pes.Timestamp.{max_val, from_bytes}
use mpeg2ts_reader.Pes.Timestamp.Codec.{from_bytes-encode}
use mpeg2ts_reader.Pes.Header.{
  PesError, field_not_present, pts_dts_flags_invalid, marker_bit_not_set,
}
use mpeg2ts_reader.Pes.Extension.{escr_clock}
use mpeg2ts_reader.Pes.Extension.Clock
use mpeg2ts_reader.Pes.Contents.{PesParsedContents, header_slice}
use mpeg2ts_reader.Pes.Contents.Fields.{
  PtsDts, pts_only, both, kept, new_rate, DsmTrickMode, trick_mode_of,
}
use mpeg2ts_reader.Pes.Contents.Trick.{IsMode, trick_mode_of-encode}
use mpeg2ts_reader.Pes.Contents.Offsets.{pes_header_data_len_lem}
use mpeg2ts_reader.Pes.Contents.Values.{new_rate_lem}
use mpeg2ts_reader.Pes.Contents.Layout.{
  Stamps, no_stamps, presented, decoded, stamps_bits, stamps_bytes, rate_bytes, trick_bytes,
  info_bytes, crc_bytes,
}

-- What an accessor gives for an optional field.
abbrev pub field : {A : Type 0} → Option A → Outcome PesError A
field none = err field_not_present
field (some a) = ok a

module _ (h : PesParsedContents) (n : 3 ≤ length h.buf) where
  -- A part within the header is sliced out whole.
  pub part_lem :
      (off : ℕ) (part rest : List ℕ)
      → At h.buf off (part ++ rest)
      → off + length part ≤ 3 + get_or h.buf 2 0
      → header_slice h off (off + length part) ≡ ok part
  unfolding header_slice
  part_lem off part rest a k =
      let inside : ltb (get_or h.buf 2 0 + 3) (off + length part) ≡ false = ground arith in
      rw
        (
          pes_header_data_len_lem {E = PesError} h n,
          inside,
          le→ltb (length h.buf) (off + length part) (At-fits part rest a),
        )
        (At-slice part rest a {E = PesError})

  pub escr_read :
      (x : Option ClockRef) (off : ℕ) (rest : List ℕ)
      → IfSome (λ c. (c.base < 2 ^ 33) × (c.extension < 2 ^ 9)) x
      → At h.buf off (chunk Clock.encode x ++ rest)
      → off + length (chunk Clock.encode x) ≤ 3 + get_or h.buf 2 0
      → (if is_some x
          then (header_slice h off (off + 6) >>= λ s. escr_clock s)
          else err field_not_present)
        ≡ field x
  escr_read none off rest l a k = refl
  escr_read (some c) off rest l a k =
      rw (part_lem off (Clock.encode c) rest a k) (Clock.escr_clock-encode {E = PesError} c l.0 l.1)

  pub rate_read :
      (x : Option ℕ) (off : ℕ) (rest : List ℕ)
      → IfSome (λ r. r < 2 ^ 22) x
      → At h.buf off (chunk rate_bytes x ++ rest)
      → off + length (chunk rate_bytes x) ≤ 3 + get_or h.buf 2 0
      → (if is_some x
          then (do
            s ← header_slice h off (off + 3)
            s0 ← index s 0
            s1 ← index s 1
            s2 ← index s 2
            new_rate (
                bit_or
                  (bit_or (shl32 (bit_and s0 0b0111_1111) 15) (shl32 s1 7))
                  (shr (bit_and s2 0b1111_1110) 1)))
          else err field_not_present)
        ≡ elim x [ none ↦ err field_not_present | some r ↦ ok (record { val = r }) ]
  rate_read none off rest l a k = refl
  rate_read (some r) off rest l a k =
      let value : (128 + r / 2 ^ 15) % 128 * 2 ^ 15 + r / 128 % 256 * 128 + (r % 128 * 2 + 1) / 2
          ≡ r =
        omega arith in
      rw (part_lem off (rate_bytes r) rest a k) (
        new_rate_lem {E = PesError} (128 + r / 2 ^ 15) (r / 128 % 256) (r % 128 * 2 + 1)
          (omega arith) (omega arith) (omega arith)
        ∙ rw value refl)

  pub trick_read :
      (x : Option DsmTrickMode) (off : ℕ) (rest : List ℕ)
      → IfSome IsMode x
      → At h.buf off (chunk trick_bytes x ++ rest)
      → off + length (chunk trick_bytes x) ≤ 3 + get_or h.buf 2 0
      → (if is_some x
          then (do s ← header_slice h off (off + 1); s0 ← index s 0; trick_mode_of s0)
          else err field_not_present)
        ≡ field x
  trick_read none off rest l a k = refl
  trick_read (some m) off rest l a k =
      rw (part_lem off (trick_bytes m) rest a k) (trick_mode_of-encode m l)

  pub info_read :
      (x : Option ℕ) (off : ℕ) (rest : List ℕ)
      → IfSome (λ i. i < 128) x
      → At h.buf off (chunk info_bytes x ++ rest)
      → off + length (chunk info_bytes x) ≤ 3 + get_or h.buf 2 0
      → (if is_some x
          then (do
            s ← header_slice h off (off + 1)
            s0 ← index s 0
            if bit_and s0 0b1000_0000 == 0
                then err marker_bit_not_set
                else ok (bit_and s0 0b0111_1111))
          else err field_not_present)
        ≡ field x
  info_read none off rest l a k = refl
  info_read (some i) off rest l a k =
      let marked : has_bits (128 + i) (2 ^ 7) ≡ true =
        has_bit 7 (128 + i) (omega arith) (omega arith) ∙ ground arith in
      let set : (bit_and (128 + i) 0b1000_0000 == 0) ≡ false = ground arith in
      let value : (128 + i) % 2 ^ 7 ≡ i = omega arith in
      rw (part_lem off (info_bytes i) rest a k, set, and_mask 7 (128 + i), value) refl

  pub crc_read :
      (x : Option ℕ) (off : ℕ) (rest : List ℕ)
      → IfSome (λ c. c < 2 ^ 16) x
      → At h.buf off (chunk crc_bytes x ++ rest)
      → off + length (chunk crc_bytes x) ≤ 3 + get_or h.buf 2 0
      → (if is_some x
          then (do
            s ← header_slice h off (off + 2)
            s0 ← index s 0
            s1 ← index s 1
            ok (bit_or (shl16 s0 8) s1))
          else err field_not_present)
        ≡ field x
  crc_read none off rest l a k = refl
  crc_read (some c) off rest l a k =
      let value : c / 256 * 256 + c % 256 ≡ c = omega arith in
      rw
        (
          part_lem off (crc_bytes c) rest a k,
          or_bytes (c / 256) (c % 256) (omega arith) (omega arith),
          value,
        )
        refl

-- Times of 33 bits.
abbrev pub AreTimes : Stamps → Type 0
AreTimes no_stamps = Unit {0}
AreTimes (presented t) = t.val ≤ max_val
AreTimes (decoded t u) = (t.val ≤ max_val) × (u.val ≤ max_val)

abbrev pub stamps_value : Stamps → Outcome PesError PtsDts
stamps_value no_stamps = err field_not_present
stamps_value (presented t) = ok (pts_only (inr t))
stamps_value (decoded t u) = ok (both (inr t) (inr u))

pub stamps_read :
    (s : Stamps)
    → AreTimes s
    → (if stamps_bits s == 0b00
        then err field_not_present
        else if stamps_bits s == 0b01
        then err pts_dts_flags_invalid
        else if stamps_bits s == 0b10
        then (do pts ← kept (from_bytes (stamps_bytes s)); ok (pts_only pts))
        else if stamps_bits s == 0b11
        then (do
          first ← slice_range (stamps_bytes s) 0 5
          pts ← kept (from_bytes first)
          second' ← slice_from (stamps_bytes s) 5
          dts ← kept (from_bytes second')
          ok (both pts dts))
        else panic)
      ≡ stamps_value s
stamps_read no_stamps l = refl
stamps_read (presented t) l = rw (from_bytes-encode 2 t (omega arith) l) refl
stamps_read (decoded t u) l =
    rw
      (
        slice_prefix {E = PesError} (stamps_bytes (decoded t u)) 5 (omega arith),
        from_bytes-encode 3 t (omega arith) l.0,
        slice_from_lem {E = PesError} (stamps_bytes (decoded t u)) 5 (omega arith),
        from_bytes-encode 1 u (omega arith) l.1,
      )
      refl
