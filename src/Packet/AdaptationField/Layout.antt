-- ===== src/Packet/AdaptationField/Layout.antt =====
-- src/packet.rs: the optional fields of an adaptation field are read back from the layout that
-- ISO/IEC 13818-1 gives them.
use mpeg2ts_reader.Base.{
  ℕ, ◌+◌, ◌*◌, ◌/◌, ◌%◌, ◌^◌, ◌<◌, ◌≡◌, refl, ap, ◌∙◌, arith, if◌then◌else◌, Option, some, none,
  List, ◌∷◌, ◌++◌, length,
}
use mpeg2ts_reader.Base.{ok, err}
use mpeg2ts_reader.Base.Bits.{has_bits, has_bit}
use mpeg2ts_reader.Base.Layout.{
  At, At-next, is_some, bit, bit-le, bit_test, chunk, chunk_size, IfSome, prefixed,
}
use mpeg2ts_reader.Packet.ClockRef.{ClockRef}
use mpeg2ts_reader.Packet.ClockRef.Codec.{encode}
use mpeg2ts_reader.Packet.Header.{AdaptationField}
use mpeg2ts_reader.Packet.AdaptationField.{
  field_not_present, as_i8, new_extension, pcr, opcr_offset, opcr, splice_countdown_offset,
  splice_countdown, private_data_offset, transport_private_data, extension_offset,
  adaptation_field_extension,
}
use mpeg2ts_reader.Packet.AdaptationField.Parts.{
  Fields, IsClock, single, field, clock_read, countdown_read, private_read, skip_read,
  extension_read,
}

module _ (top : ℕ) (v : Fields) (stuffing : List ℕ) where
  -- The flags below the three indicators.
  abbrev flags : ℕ
  flags =
      top * 32
      + bit v.pcr * 16
      + bit v.opcr * 8
      + bit v.countdown * 4
      + bit v.private_data * 2
      + bit v.extension

  abbrev after_private : List ℕ
  after_private = chunk prefixed v.extension ++ stuffing

  abbrev after_countdown : List ℕ
  after_countdown = chunk prefixed v.private_data ++ after_private

  abbrev after_opcr : List ℕ
  after_opcr = chunk single v.countdown ++ after_countdown

  abbrev after_pcr : List ℕ
  after_pcr = chunk encode v.opcr ++ after_opcr

  -- The bytes of the adaptation field, behind its length.
  abbrev pub layout : List ℕ
  layout = flags ∷ (chunk encode v.pcr ++ after_pcr)

  abbrev pub laid_out : AdaptationField
  laid_out = record { buf = layout }

  module _ (small : top < 8) where
    flag_lem :
        (has_bits flags 0b1_0000 ≡ is_some v.pcr)
        × (has_bits flags 0b1000 ≡ is_some v.opcr)
        × (has_bits flags 0b100 ≡ is_some v.countdown)
        × (has_bits flags 0b10 ≡ is_some v.private_data)
        × (has_bits flags 0b1 ≡ is_some v.extension)
    flag_lem =
        let p = bit-le v.pcr in
        let o = bit-le v.opcr in
        let c = bit-le v.countdown in
        let d = bit-le v.private_data in
        let x = bit-le v.extension in
        let byte : flags < 256 = omega arith in
        let e4 : flags / 2 ^ 4 % 2 ≡ bit v.pcr = omega arith in
        let e3 : flags / 2 ^ 3 % 2 ≡ bit v.opcr = omega arith in
        let e2 : flags / 2 ^ 2 % 2 ≡ bit v.countdown = omega arith in
        let e1 : flags / 2 ^ 1 % 2 ≡ bit v.private_data = omega arith in
        let e0 : flags / 2 ^ 0 % 2 ≡ bit v.extension = omega arith in
        (
          has_bit 4 flags (omega arith) byte ∙ rw e4 (bit_test v.pcr),
          has_bit 3 flags (omega arith) byte ∙ rw e3 (bit_test v.opcr),
          has_bit 2 flags (omega arith) byte ∙ rw e2 (bit_test v.countdown),
          has_bit 1 flags (omega arith) byte ∙ rw e1 (bit_test v.private_data),
          has_bit 0 flags (omega arith) byte ∙ rw e0 (bit_test v.extension),
        )

    pcr-At : At layout 1 (chunk encode v.pcr ++ after_pcr)
    pcr-At = record { inside = omega arith; same = refl }

    pcr_lem : IfSome IsClock v.pcr → pcr laid_out ≡ field v.pcr
    unfolding pcr
    pcr_lem h = rw (flag_lem.0) (clock_read v.pcr after_pcr h pcr-At)

    opcr_offset_lem : opcr_offset laid_out ≡ ok (1 + length (chunk encode v.pcr))
    unfolding opcr_offset
    opcr_offset_lem = rw (flag_lem.0) (ap (λ (n : ℕ). ok n) (seven v.pcr))
      where
        seven : (x : Option ClockRef) → (if is_some x then 7 else 1) ≡ 1 + length (chunk encode x)
        seven none = refl
        seven (some c) = refl

    opcr_lem : IfSome IsClock v.opcr → opcr laid_out ≡ field v.opcr
    unfolding opcr
    opcr_lem h =
        rw (flag_lem.1, opcr_offset_lem)
          (clock_read v.opcr after_opcr h (At-next (chunk encode v.pcr) after_pcr pcr-At))

    countdown-At :
        At layout (1 + length (chunk encode v.pcr) + length (chunk encode v.opcr)) after_opcr
    countdown-At =
        At-next (chunk encode v.opcr) after_opcr (At-next (chunk encode v.pcr) after_pcr pcr-At)

    countdown_offset_lem :
        splice_countdown_offset laid_out
        ≡ ok (1 + length (chunk encode v.pcr) + length (chunk encode v.opcr))
    unfolding splice_countdown_offset
    countdown_offset_lem =
        rw (opcr_offset_lem, flag_lem.1, chunk_size encode 6 v.opcr (λ c. refl)) refl

    countdown_lem :
        splice_countdown laid_out
        ≡ elim v.countdown [ none ↦ err field_not_present | some b ↦ ok (as_i8 b) ]
    unfolding splice_countdown
    countdown_lem =
        rw (flag_lem.2, countdown_offset_lem)
          (countdown_read v.countdown after_countdown countdown-At)

    -- Where the private data begins.
    abbrev private_at : ℕ
    private_at =
        1
        + length (chunk encode v.pcr)
        + length (chunk encode v.opcr)
        + length (chunk single v.countdown)

    private-At : At layout private_at after_countdown
    private-At = At-next (chunk single v.countdown) after_countdown countdown-At

    private_offset_lem : private_data_offset laid_out ≡ ok private_at
    unfolding private_data_offset
    private_offset_lem =
        rw (countdown_offset_lem, flag_lem.2, chunk_size single 1 v.countdown (λ b. refl)) refl

    private_lem : transport_private_data laid_out ≡ field v.private_data
    unfolding transport_private_data
    private_lem =
        rw (flag_lem.3, private_offset_lem) (private_read v.private_data after_private private-At)

    extension_offset_lem :
        extension_offset laid_out ≡ ok (private_at + length (chunk prefixed v.private_data))
    unfolding extension_offset
    extension_offset_lem =
        rw (private_offset_lem, flag_lem.3) (skip_read v.private_data after_private private-At)

    extension_lem :
        adaptation_field_extension laid_out
        ≡ elim v.extension [ none ↦ err field_not_present | some x ↦ new_extension x ]
    unfolding adaptation_field_extension
    extension_lem =
        rw (flag_lem.4, extension_offset_lem)
          (extension_read v.extension stuffing
            (At-next (chunk prefixed v.private_data) after_private private-At))

-- Every choice of optional fields, written one behind the other under three indicators and before any
-- stuffing, with clock references of 33 and 9 bits, is read back: a field that is there as its value,
-- one that is not as `field_not_present`.
pub layout-Reads :
    (top : ℕ) (v : Fields) (stuffing : List ℕ)
    → top < 8
    → IfSome IsClock v.pcr
    → IfSome IsClock v.opcr
    → (pcr (laid_out top v stuffing) ≡ field v.pcr)
      × (opcr (laid_out top v stuffing) ≡ field v.opcr)
      × (splice_countdown (laid_out top v stuffing)
          ≡ elim v.countdown [ none ↦ err field_not_present | some b ↦ ok (as_i8 b) ])
      × (transport_private_data (laid_out top v stuffing) ≡ field v.private_data)
      × (adaptation_field_extension (laid_out top v stuffing)
          ≡ elim v.extension [ none ↦ err field_not_present | some x ↦ new_extension x ])
layout-Reads top v stuffing small h k = (
  pcr_lem top v stuffing small h,
  opcr_lem top v stuffing small k,
  countdown_lem top v stuffing small,
  private_lem top v stuffing small,
  extension_lem top v stuffing small,
)
