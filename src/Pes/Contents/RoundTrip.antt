-- ===== src/Pes/Contents/RoundTrip.antt =====
-- src/pes.rs: each accessor of `PesParsedContents` on a header that is laid out as ISO/IEC 13818-1
-- says.
use mpeg2ts_reader.Base.{
  ℕ, ◌+◌, ◌/◌, ◌^◌, ◌≤◌, ◌<◌, ◌≡◌, refl, ap, ◌∙◌, arith, true, false, ltb, le→ltb, ◌==◌,
  if◌then◌else◌, some, none, List, length,
}
use mpeg2ts_reader.Base.{ok, err, slice_from_lem}
use mpeg2ts_reader.Base.Layout.{IfSome}
use mpeg2ts_reader.Pes.Header.{PesError, field_not_present}
use mpeg2ts_reader.Pes.Extension.{extension_from_bytes}
use mpeg2ts_reader.Pes.Contents.{PesParsedContents, contents_from_bytes, payload}
use mpeg2ts_reader.Pes.Contents.Fields.{
  pts_dts, escr, es_rate, dsm_trick_mode, additional_copy_info, previous_pes_packet_crc,
  pes_extension,
}
use mpeg2ts_reader.Pes.Contents.Offsets.{
  flags_lem, pes_header_data_len_lem, pts_dts_end_lem, ends_lem, second,
}
use mpeg2ts_reader.Pes.Contents.Trick.{IsMode}
use mpeg2ts_reader.Pes.Contents.Layout.{
  Fields, stamps_bytes, after_crc, after_info, after_trick, after_rate, after_clock, after_stamps,
  header_len, layout, laid_out, flags_read, at1, at2, at3, at4, at5, at6, sizes_lem, stamps-At,
  clock-At, rate-At, trick-At, info-At, crc-At, tail-At, rest-At,
}
use mpeg2ts_reader.Pes.Contents.Parts.{
  field, part_lem, escr_read, rate_read, trick_read, info_read, crc_read, AreTimes, stamps_value,
  stamps_read,
}

module _ (top : ℕ) (v : Fields) (rest : List ℕ) where
  abbrev h : PesParsedContents
  h = laid_out top v rest

  long : 3 ≤ length h.buf
  long = omega arith

  small : second h < 256
  small = (flags_read top v rest).0

  escr_lem :
      IfSome (λ c. (c.base < 2 ^ 33) × (c.extension < 2 ^ 9)) v.clock → escr h ≡ field v.clock
  unfolding escr
  escr_lem l =
      let on = (flags_lem {E = PesError} h long).1 ∙ ap (λ b. ok b) ((flags_read top v rest).2) in
      rw (on, pts_dts_end_lem {E = PesError} h long small, (sizes_lem top v rest).0)
        (escr_read h long v.clock (at1 top v rest) (after_clock top v rest) l (clock-At top v rest)
          (omega arith))

  rate_lem :
      IfSome (λ r. r < 2 ^ 22) v.rate
      → es_rate h ≡ elim v.rate [ none ↦ err field_not_present | some r ↦ ok (record { val = r }) ]
  unfolding es_rate
  rate_lem l =
      let on = (flags_lem {E = PesError} h long).2 ∙ ap (λ b. ok b) ((flags_read top v rest).3) in
      rw (on, (ends_lem {E = PesError} h long small).0, (sizes_lem top v rest).1)
        (rate_read h long v.rate (at2 top v rest) (after_rate top v rest) l (rate-At top v rest)
          (omega arith))

  trick_lem : IfSome IsMode v.trick → dsm_trick_mode h ≡ field v.trick
  unfolding dsm_trick_mode
  trick_lem l =
      let on = (flags_lem {E = PesError} h long).3 ∙ ap (λ b. ok b) ((flags_read top v rest).4) in
      rw (on, (ends_lem {E = PesError} h long small).1, (sizes_lem top v rest).2)
        (trick_read h long v.trick (at3 top v rest) (after_trick top v rest) l (trick-At top v rest)
          (omega arith))

  info_lem : IfSome (λ i. i < 128) v.copy_info → additional_copy_info h ≡ field v.copy_info
  unfolding additional_copy_info
  info_lem l =
      let on = (flags_lem {E = PesError} h long).4 ∙ ap (λ b. ok b) ((flags_read top v rest).5) in
      rw (on, (ends_lem {E = PesError} h long small).2, (sizes_lem top v rest).3)
        (info_read h long v.copy_info (at4 top v rest) (after_info top v rest) l
          (info-At top v rest) (omega arith))

  crc_lem : IfSome (λ c. c < 2 ^ 16) v.crc → previous_pes_packet_crc h ≡ field v.crc
  unfolding previous_pes_packet_crc
  crc_lem l =
      let on = (flags_lem {E = PesError} h long).5 ∙ ap (λ b. ok b) ((flags_read top v rest).6) in
      rw (on, (ends_lem {E = PesError} h long small).3, (sizes_lem top v rest).4)
        (crc_read h long v.crc (at5 top v rest) (after_crc top v rest) l (crc-At top v rest)
          (omega arith))

  extension_lem :
      pes_extension h ≡ (if v.extended then extension_from_bytes v.tail else err field_not_present)
  unfolding pes_extension
  extension_lem =
      let on = (flags_lem {E = PesError} h long).6 ∙ ap (λ b. ok b) ((flags_read top v rest).7) in
      let end : header_len top v rest + 3 ≡ at6 top v rest + length v.tail = omega arith in
      let slice = part_lem h long (at6 top v rest) v.tail rest (tail-At top v rest) (omega arith) in
      rw
        (
          on,
          (ends_lem {E = PesError} h long small).4,
          (sizes_lem top v rest).5,
          pes_header_data_len_lem {E = PesError} h long,
          end,
          slice,
        )
        refl

  payload_lem : payload {E = PesError} h ≡ ok rest
  unfolding payload
  payload_lem =
      let end : 3 + header_len top v rest ≡ at6 top v rest + length v.tail = omega arith in
      let a = rest-At top v rest in
      rw (pes_header_data_len_lem {E = PesError} h long, end)
        (slice_from_lem {E = PesError} h.buf _ a.inside ∙ ap (λ t. ok t) a.same)

  accepted_lem : 128 ≤ top → top < 192 → contents_from_bytes h.buf ≡ ok h
  unfolding contents_from_bytes
  accepted_lem lo hi =
      let e1 : ltb (length h.buf) 3 ≡ false = le→ltb (length h.buf) 3 long in
      let e2 : (top / 2 ^ 6 == 2) ≡ true = ground arith in
      let end : 3 + header_len top v rest ≡ at6 top v rest + length v.tail = omega arith in
      let inside = (rest-At top v rest).inside in
      let e3 : ltb (length h.buf) (3 + header_len top v rest) ≡ false = ground arith in
      let crc_end =
        (ends_lem {E = PesError} h long small).4
        ∙ ap (λ (n : ℕ). ok n) ((sizes_lem top v rest).5) in
      let e4 : ltb (3 + header_len top v rest) (at6 top v rest) ≡ false = ground arith in
      rw (e1, e2, pes_header_data_len_lem {E = PesError} h long, e3, crc_end, e4) refl

  stamps_lem : AreTimes v.stamps → pts_dts h ≡ stamps_value v.stamps
  unfolding pts_dts
  stamps_lem l =
      let flags' =
        (flags_lem {E = PesError} h long).0 ∙ ap (λ (n : ℕ). ok n) ((flags_read top v rest).1) in
      let end =
        pts_dts_end_lem {E = PesError} h long small
        ∙ ap (λ (n : ℕ). ok n) ((sizes_lem top v rest).0) in
      let slice =
        part_lem h long 3 (stamps_bytes v.stamps) (after_stamps top v rest) (stamps-At top v rest)
          (omega arith) in
      rw (flags', end, slice) (stamps_read v.stamps l)

-- Values that fit the fields that they are written to.
pub record Fit (v : Fields) : Type 0 where
  pub stamps : AreTimes v.stamps
  pub clock : IfSome (λ c. (c.base < 2 ^ 33) × (c.extension < 2 ^ 9)) v.clock
  pub rate : IfSome (λ r. r < 2 ^ 22) v.rate
  pub trick : IfSome IsMode v.trick
  pub copy_info : IfSome (λ i. i < 128) v.copy_info
  pub crc : IfSome (λ c. c < 2 ^ 16) v.crc

-- Every choice of optional fields whose values fit, written one behind the other under a first byte
-- with the check bits, is accepted and read back: a field that is there as its value, one that is not
-- as `field_not_present`, the extension as the rest of the header, and the payload as what follows.
pub contents_from_bytes-Reads :
    (top : ℕ) (v : Fields) (rest : List ℕ)
    → 128 ≤ top
    → top < 192
    → Fit v
    → (contents_from_bytes (layout top v rest) ≡ ok (laid_out top v rest))
      × (pts_dts (laid_out top v rest) ≡ stamps_value v.stamps)
      × (escr (laid_out top v rest) ≡ field v.clock)
      × (es_rate (laid_out top v rest)
          ≡ elim v.rate [ none ↦ err field_not_present | some r ↦ ok (record { val = r }) ])
      × (dsm_trick_mode (laid_out top v rest) ≡ field v.trick)
      × (additional_copy_info (laid_out top v rest) ≡ field v.copy_info)
      × (previous_pes_packet_crc (laid_out top v rest) ≡ field v.crc)
      × (pes_extension (laid_out top v rest)
          ≡ (if v.extended then extension_from_bytes v.tail else err field_not_present))
      × (payload {E = PesError} (laid_out top v rest) ≡ ok rest)
contents_from_bytes-Reads top v rest lo hi f = (
  accepted_lem top v rest lo hi,
  stamps_lem top v rest f.stamps,
  escr_lem top v rest f.clock,
  rate_lem top v rest f.rate,
  trick_lem top v rest f.trick,
  info_lem top v rest f.copy_info,
  crc_lem top v rest f.crc,
  extension_lem top v rest,
  payload_lem top v rest,
)
