-- ===== src/Packet/AdaptationField/Bounds.antt =====
-- src/packet.rs: the accessors of an adaptation field and of its extension stay within the bytes.
use mpeg2ts_reader.Base.{
  ℕ, ◌+◌, ◌-◌, ◌/◌, ◌%◌, ◌^◌, ◌≤◌, ◌<◌, ◌≡◌, refl, arith, true, ==→≡, bit_and, ltb, ltb→le, ◌==◌,
  if◌then◌else◌, some, none, List, ◌∷◌, length, take, drop, get_or, length-take, length-drop,
}
use mpeg2ts_reader.Base.{
  Outcome, ok, Holds, Holds-if, Holds-bind, Holds-weaken, index, index-lt, slice_range_lem, map_err,
  ◌>>=◌,
}
use mpeg2ts_reader.Base.Bits.{
  IsBytes, IsBytes-take, IsBytes-drop, byte-lt, has_bits, has_bit, and_mask, or_bytes, shr,
  all_below, for_bytes,
}
use mpeg2ts_reader.Base.Layout.{Spans}
use mpeg2ts_reader.Packet.ClockRef.{from_slice}
use mpeg2ts_reader.Packet.ClockRef.Codec.{from_slice_lem}
use mpeg2ts_reader.Packet.Header.{AdaptationField}
use mpeg2ts_reader.Packet.AdaptationField.{
  AdaptationFieldError, AdaptationFieldExtension, slice, flag, new_extension,
  discontinuity_indicator, random_access_indicator, elementary_stream_priority_indicator, pcr,
  opcr_offset, opcr, splice_countdown_offset, splice_countdown, private_data_offset,
  transport_private_data, extension_offset, adaptation_field_extension, ltw_offset,
  piecewise_rate_offset, piecewise_rate, seamless_splice_offset, seamless_splice,
  splice_timestamp_error,
}
use mpeg2ts_reader.Pes.Timestamp.{from_bytes}
use mpeg2ts_reader.Pes.Extension.Parts.{from_bytes-Holds, map_err-Holds}

clock-Holds :
    (s : List ℕ) → Spans 6 s → Holds {E = AdaptationFieldError} (λ c. Unit {0}) (from_slice s)
clock-Holds (b0 ∷ b1 ∷ b2 ∷ b3 ∷ b4 ∷ b5 ∷ rest) s =
    let (h0, (h1, (h2, (h3, (h4, (h5, h)))))) = s.bytes in
    rw
      (from_slice_lem b0 b1 b2 b3 b4 b5 rest (h0, (h1, (h2, (h3, (h4, (h5, tt))))))
        {E = AdaptationFieldError})
      tt
clock-Holds _ s = absurd (omega (arith, s.enough))

module _ (buf : List ℕ) (n : 1 ≤ length buf) (bytes : IsBytes buf) where
  flag_lem :
      (mask : ℕ) → flag {E = AdaptationFieldError} buf mask ≡ ok (has_bits (get_or buf 0 0) mask)
  flag_lem mask = rw (index-lt {E = AdaptationFieldError} buf 0 (omega arith)) refl

  -- A field behind its flag.
  flagged-Holds :
      {A : Type 0} (P : A → Type 0) (mask : ℕ) (x y : Outcome AdaptationFieldError A)
      → Holds P x
      → Holds P y
      → Holds P (flag buf mask >>= λ present. if present then x else y)
  flagged-Holds P mask x y on off =
      rw (flag_lem mask) (Holds-if P (has_bits (get_or buf 0 0) mask) x y (λ e. on) (λ e. off))

  slice-Spans : (off k : ℕ) → Holds (Spans k) (slice buf off (off + k))
  unfolding slice
  slice-Spans off k =
      Holds-if _ (ltb (length buf) (off + k)) _ _ (λ past. tt)
        (λ fits.
          let e = ltb→le _ _ fits in
          let same : off + k - off ≡ k = omega arith in
          let order : off ≤ off + k = omega arith in
          let long : k ≤ length (take k (drop off buf)) =
            omega (arith, length-take k (drop off buf), length-drop off buf) in
          rw (slice_range_lem {E = AdaptationFieldError} buf off (off + k) order e, same)
            (record {
              bytes = IsBytes-take k (drop off buf) (IsBytes-drop off buf bytes);
              enough = long;
            }))

  -- The length in front of a part.
  length-Holds :
      {A : Type 0} (P : A → Type 0) (off : ℕ) (f : ℕ → Outcome AdaptationFieldError A)
      → ((len : ℕ) → Holds P (f len))
      → Holds P (slice buf off (off + 1) >>= λ s. index s 0 >>= f)
  length-Holds P off f h =
      Holds-bind (Spans 1) P (slice buf off (off + 1)) _ (slice-Spans off 1) (λ s span.
        rw (index-lt {E = AdaptationFieldError} s 0 (omega (arith, span.enough)))
          (h (get_or s 0 0)))

module _ (f : AdaptationField) (n : 1 ≤ length f.buf) (bytes : IsBytes f.buf) where
  pcr-Holds : Holds (λ c. Unit {0}) (pcr f)
  unfolding pcr
  pcr-Holds =
      flagged-Holds f.buf n bytes _ 0b1_0000 _ _
        (Holds-bind (Spans 6) _ (slice f.buf 1 7) _ (slice-Spans f.buf n bytes 1 6)
          (λ s span. clock-Holds s span))
        tt

  opcr_offset-Holds : Holds (λ o. Unit {0}) (opcr_offset f)
  unfolding opcr_offset
  opcr_offset-Holds = rw (flag_lem f.buf n bytes 0b1_0000) tt

  opcr-Holds : Holds (λ c. Unit {0}) (opcr f)
  unfolding opcr
  opcr-Holds =
      flagged-Holds f.buf n bytes _ 0b1000 _ _
        (Holds-bind _ _ (opcr_offset f) _ opcr_offset-Holds (λ off u.
          Holds-bind (Spans 6) _ (slice f.buf off (off + 6)) _ (slice-Spans f.buf n bytes off 6)
            (λ s span. clock-Holds s span)))
        tt

  countdown_offset-Holds : Holds (λ o. Unit {0}) (splice_countdown_offset f)
  unfolding splice_countdown_offset
  countdown_offset-Holds =
      Holds-bind _ _ (opcr_offset f) _ opcr_offset-Holds
        (λ off u. rw (flag_lem f.buf n bytes 0b1000) tt)

  countdown-Holds : Holds (λ c. Unit {0}) (splice_countdown f)
  unfolding splice_countdown
  countdown-Holds =
      flagged-Holds f.buf n bytes _ 0b100 _ _
        (Holds-bind _ _ (splice_countdown_offset f) _ countdown_offset-Holds
          (λ off u. length-Holds f.buf n bytes _ off _ (λ b. tt)))
        tt

  private_offset-Holds : Holds (λ o. Unit {0}) (private_data_offset f)
  unfolding private_data_offset
  private_offset-Holds =
      Holds-bind _ _ (splice_countdown_offset f) _ countdown_offset-Holds
        (λ off u. rw (flag_lem f.buf n bytes 0b100) tt)

  private-Holds : Holds IsBytes (transport_private_data f)
  unfolding transport_private_data
  private-Holds =
      flagged-Holds f.buf n bytes _ 0b10 _ _
        (Holds-bind _ _ (private_data_offset f) _ private_offset-Holds (λ off u.
          length-Holds f.buf n bytes _ off _ (λ len.
            Holds-weaken (Spans len) IsBytes _ (slice-Spans f.buf n bytes (off + 1) len)
              (λ s span. span.bytes))))
        tt

  extension_offset-Holds : Holds (λ o. Unit {0}) (extension_offset f)
  unfolding extension_offset
  extension_offset-Holds = Holds-bind _ _ (private_data_offset f) _ private_offset-Holds (λ off u.
      flagged-Holds f.buf n bytes _ 0b10 _ _ (length-Holds f.buf n bytes _ off _ (λ len. tt)) tt)

  extension-Holds : Holds (λ x. Spans 1 x.buf) (adaptation_field_extension f)
  unfolding adaptation_field_extension new_extension
  extension-Holds =
      flagged-Holds f.buf n bytes _ 0b1 _ _
        (Holds-bind _ _ (extension_offset f) _ extension_offset-Holds (λ off u.
          length-Holds f.buf n bytes _ off _ (λ len.
            Holds-bind (Spans len) _ (slice f.buf (off + 1) (off + 1 + len)) _
              (slice-Spans f.buf n bytes (off + 1) len)
              (λ s span.
                Holds-if _ (length s == 0) _ _ (λ none'. tt)
                  (λ some'. record { bytes = span.bytes; enough = ground arith })))))
        tt

module _ (x : AdaptationFieldExtension) (n : 1 ≤ length x.buf) (bytes : IsBytes x.buf) where
  -- A window of 15 bits, if it is valid.
  ltw-Holds : Holds (λ o. elim o [ none ↦ Unit {0} | some w ↦ w < 2 ^ 15 ]) (ltw_offset x)
  unfolding ltw_offset
  ltw-Holds =
      flagged-Holds x.buf n bytes _ 0b1000_0000 _ _
        (Holds-bind (Spans 2) _ (slice x.buf 1 3) _ (slice-Spans x.buf n bytes 1 2) (λ s span.
          let small : get_or s 0 0 % 128 < 256 = omega arith in
          let value = or_bytes (get_or s 0 0 % 128) (get_or s 1 0) small (byte-lt s 1 span.bytes) in
          rw
            (
              index-lt {E = AdaptationFieldError} s 0 (omega (arith, span.enough)),
              index-lt {E = AdaptationFieldError} s 1 (omega (arith, span.enough)),
            )
            (Holds-if _ (has_bits (get_or s 0 0) 0b1000_0000) _ _
              (λ valid.
                rw (and_mask 7 (get_or s 0 0), value) (omega (arith, byte-lt s 1 span.bytes)))
              (λ invalid. tt))))
        tt

  rate_offset-Holds : Holds (λ o. Unit {0}) (piecewise_rate_offset x)
  unfolding piecewise_rate_offset
  rate_offset-Holds = rw (flag_lem x.buf n bytes 0b1000_0000) tt

  rate-Holds : Holds (λ r. Unit {0}) (piecewise_rate x)
  unfolding piecewise_rate
  rate-Holds =
      flagged-Holds x.buf n bytes _ 0b0100_0000 _ _
        (Holds-bind _ _ (piecewise_rate_offset x) _ rate_offset-Holds (λ off u.
          Holds-bind (Spans 3) _ (slice x.buf off (off + 3)) _ (slice-Spans x.buf n bytes off 3)
            (λ s span.
              rw
                (
                  index-lt {E = AdaptationFieldError} s 0 (omega (arith, span.enough)),
                  index-lt {E = AdaptationFieldError} s 1 (omega (arith, span.enough)),
                  index-lt {E = AdaptationFieldError} s 2 (omega (arith, span.enough)),
                )
                tt)))
        tt

  splice_offset-Holds : Holds (λ o. Unit {0}) (seamless_splice_offset x)
  unfolding seamless_splice_offset
  splice_offset-Holds =
      Holds-bind _ _ (piecewise_rate_offset x) _ rate_offset-Holds
        (λ off u. rw (flag_lem x.buf n bytes 0b0100_0000) tt)

  splice-Holds : Holds (λ s. s.splice_type < 16) (seamless_splice x)
  unfolding seamless_splice
  splice-Holds =
      flagged-Holds x.buf n bytes _ 0b0010_0000 _ _
        (Holds-bind _ _ (seamless_splice_offset x) _ splice_offset-Holds (λ off u.
          Holds-bind (Spans 5) _ (slice x.buf off (off + 5)) _ (slice-Spans x.buf n bytes off 5)
            (λ s span.
              let small : get_or s 0 0 / 16 < 16 = omega (arith, byte-lt s 0 span.bytes) in
              rw (index-lt {E = AdaptationFieldError} s 0 (omega (arith, span.enough))) (
                Holds-bind (λ t. Unit {0}) _ (map_err splice_timestamp_error (from_bytes s)) _
                  (map_err-Holds splice_timestamp_error (from_bytes s) (from_bytes-Holds s span))
                  (λ t u'. small)))))
        tt

every_priority : all_below 256 (λ b. shr (bit_and b 0b10_0000) 5 == b / 32 % 2) ≡ true
unfolding all_below
every_priority = refl

indicators :
    (f : AdaptationField)
    → 1 ≤ length f.buf
    → IsBytes f.buf
    → (discontinuity_indicator f ≡ ok (get_or f.buf 0 0 / 128 == 1))
      × (random_access_indicator f ≡ ok (get_or f.buf 0 0 / 64 % 2 == 1))
      × (elementary_stream_priority_indicator f ≡ ok (get_or f.buf 0 0 / 32 % 2))
unfolding discontinuity_indicator random_access_indicator elementary_stream_priority_indicator
indicators f n bytes =
    let first = get_or f.buf 0 0 in
    let b : first < 256 = byte-lt f.buf 0 bytes in
    let top : first / 2 ^ 7 % 2 ≡ first / 128 = omega arith in
    (
      rw (flag_lem f.buf n bytes 0b1000_0000, has_bit 7 first (omega arith) b, top) refl,
      rw (flag_lem f.buf n bytes 0b0100_0000, has_bit 6 first (omega arith) b) refl,
      rw
          (
            index-lt {E = AdaptationFieldError} f.buf 0 (omega arith),
            ==→≡ _ _
                (for_bytes (λ b. shr (bit_and b 0b10_0000) 5 == b / 32 % 2) every_priority first b),
          )
          refl,
    )

-- The accessors of an extension end without a panic, and their values are in their ranges.
abbrev pub ReadsExtension : AdaptationFieldExtension → Type 0
ReadsExtension x =
    Holds (λ o. elim o [ none ↦ Unit {0} | some w ↦ w < 2 ^ 15 ]) (ltw_offset x)
    × Holds (λ r. Unit {0}) (piecewise_rate x)
    × Holds (λ s. s.splice_type < 16) (seamless_splice x)

-- On any bytes but none, the three indicators of the adaptation field are the first three bits, and no
-- other accessor panics: it returns its field, or an error. Where the extension is returned, its
-- accessors do not panic either.
pub adaptation_field-Reads :
    (f : AdaptationField)
    → 1 ≤ length f.buf
    → IsBytes f.buf
    → (discontinuity_indicator f ≡ ok (get_or f.buf 0 0 / 128 == 1))
      × (random_access_indicator f ≡ ok (get_or f.buf 0 0 / 64 % 2 == 1))
      × (elementary_stream_priority_indicator f ≡ ok (get_or f.buf 0 0 / 32 % 2))
      × Holds (λ c. Unit {0}) (pcr f)
      × Holds (λ c. Unit {0}) (opcr f)
      × Holds (λ c. Unit {0}) (splice_countdown f)
      × Holds IsBytes (transport_private_data f)
      × Holds ReadsExtension (adaptation_field_extension f)
adaptation_field-Reads f n bytes = (
  (indicators f n bytes).0,
  (indicators f n bytes).1,
  (indicators f n bytes).2,
  pcr-Holds f n bytes,
  opcr-Holds f n bytes,
  countdown-Holds f n bytes,
  private-Holds f n bytes,
  Holds-weaken (λ x. Spans 1 x.buf) ReadsExtension _ (extension-Holds f n bytes)
      (λ x s. (
        ltw-Holds x s.enough s.bytes,
        rate-Holds x s.enough s.bytes,
        splice-Holds x s.enough s.bytes,
      )),
)
