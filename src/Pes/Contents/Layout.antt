-- ===== src/Pes/Contents/Layout.antt =====
-- src/pes.rs: the optional fields of a PES header are read back from the layout that ISO/IEC 13818-1
-- gives them.
use mpeg2ts_reader.Base.{
  ℕ, ◌+◌, ◌*◌, ◌/◌, ◌%◌, ◌^◌, ◌≤◌, ◌<◌, ◌≡◌, refl, arith, Bool, true, false, ◌==◌, if◌then◌else◌,
  Option, List, [], ◌∷◌, ◌++◌, length,
}
use mpeg2ts_reader.Base.Layout.{At, At-next, is_some, bit, bit-le, bit_test, chunk, chunk_size}
use mpeg2ts_reader.Packet.ClockRef.{ClockRef}
use mpeg2ts_reader.Pes.Timestamp.{Timestamp}
use mpeg2ts_reader.Pes.Timestamp.Codec
use mpeg2ts_reader.Pes.Timestamp.Codec.{from_bytes-encode}
use mpeg2ts_reader.Pes.Extension.Clock
use mpeg2ts_reader.Pes.Contents.{PesParsedContents}
use mpeg2ts_reader.Pes.Contents.Fields.{DsmTrickMode}
use mpeg2ts_reader.Pes.Contents.Trick
use mpeg2ts_reader.Pes.Contents.Offsets.{
  flagged, size, stamps_size, end1, end2, end3, end4, end5, end6,
}

pub data Stamps : Type 0 where
  no_stamps : Stamps
  presented : Timestamp → Stamps
  decoded : Timestamp → Timestamp → Stamps

-- The fields as values. What follows the CRC is the rest of the header: the extension, if the flag for it is set, and stuffing.
pub record Fields : Type 0 where
  pub stamps : Stamps
  pub clock : Option ClockRef
  pub rate : Option ℕ
  pub trick : Option DsmTrickMode
  pub copy_info : Option ℕ
  pub crc : Option ℕ
  pub extended : Bool
  pub tail : List ℕ

abbrev pub stamps_bits : Stamps → ℕ
stamps_bits no_stamps = 0
stamps_bits (presented t) = 2
stamps_bits (decoded t u) = 3

abbrev pub stamps_bytes : Stamps → List ℕ
stamps_bytes no_stamps = []
stamps_bytes (presented t) = Codec.encode 2 t
stamps_bytes (decoded t u) = Codec.encode 3 t ++ Codec.encode 1 u

abbrev pub rate_bytes : ℕ → List ℕ
rate_bytes r = (128 + r / 2 ^ 15) ∷ r / 128 % 256 ∷ (r % 128 * 2 + 1) ∷ []

abbrev pub trick_bytes : DsmTrickMode → List ℕ
trick_bytes m = Trick.encode m ∷ []

abbrev pub info_bytes : ℕ → List ℕ
info_bytes i = (128 + i) ∷ []

abbrev pub crc_bytes : ℕ → List ℕ
crc_bytes c = c / 256 ∷ c % 256 ∷ []

abbrev ext_bit : Bool → ℕ
ext_bit true = 1
ext_bit false = 0

module _ (top : ℕ) (v : Fields) (rest : List ℕ) where
  abbrev pub flags : ℕ
  flags =
      stamps_bits v.stamps * 64
      + bit v.clock * 32
      + bit v.rate * 16
      + bit v.trick * 8
      + bit v.copy_info * 4
      + bit v.crc * 2
      + ext_bit v.extended

  abbrev pub after_crc : List ℕ
  after_crc = v.tail ++ rest

  abbrev pub after_info : List ℕ
  after_info = chunk crc_bytes v.crc ++ after_crc

  abbrev pub after_trick : List ℕ
  after_trick = chunk info_bytes v.copy_info ++ after_info

  abbrev pub after_rate : List ℕ
  after_rate = chunk trick_bytes v.trick ++ after_trick

  abbrev pub after_clock : List ℕ
  after_clock = chunk rate_bytes v.rate ++ after_rate

  abbrev pub after_stamps : List ℕ
  after_stamps = chunk Clock.encode v.clock ++ after_clock

  -- The size of the fields before the tail.
  abbrev pub fields_size : ℕ
  fields_size =
      length (stamps_bytes v.stamps)
      + length (chunk Clock.encode v.clock)
      + length (chunk rate_bytes v.rate)
      + length (chunk trick_bytes v.trick)
      + length (chunk info_bytes v.copy_info)
      + length (chunk crc_bytes v.crc)

  abbrev pub header_len : ℕ
  header_len = fields_size + length v.tail

  -- The bytes of the header, with its length, and the payload behind it.
  abbrev pub layout : List ℕ
  layout = top ∷ flags ∷ header_len ∷ (stamps_bytes v.stamps ++ after_stamps)

  abbrev pub laid_out : PesParsedContents
  laid_out = record { buf = layout }

  stamps_bits-le : (s : Stamps) → stamps_bits s ≤ 3
  stamps_bits-le no_stamps = omega arith
  stamps_bits-le (presented t) = omega arith
  stamps_bits-le (decoded t u) = omega arith

  ext_bit-le : (b : Bool) → ext_bit b ≤ 1
  ext_bit-le true = omega arith
  ext_bit-le false = omega arith

  ext_test : (b : Bool) → (ext_bit b == 1) ≡ b
  ext_test true = refl
  ext_test false = refl

  pub flags_read :
      (flags < 256)
      × (flags / 64 ≡ stamps_bits v.stamps)
      × (flagged flags 5 ≡ is_some v.clock)
      × (flagged flags 4 ≡ is_some v.rate)
      × (flagged flags 3 ≡ is_some v.trick)
      × (flagged flags 2 ≡ is_some v.copy_info)
      × (flagged flags 1 ≡ is_some v.crc)
      × ((flags % 2 == 1) ≡ v.extended)
  flags_read =
      let s = stamps_bits-le v.stamps in
      let a = bit-le v.clock in
      let b = bit-le v.rate in
      let c = bit-le v.trick in
      let d = bit-le v.copy_info in
      let e = bit-le v.crc in
      let x = ext_bit-le v.extended in
      let e5 : flags / 2 ^ 5 % 2 ≡ bit v.clock = omega arith in
      let e4 : flags / 2 ^ 4 % 2 ≡ bit v.rate = omega arith in
      let e3 : flags / 2 ^ 3 % 2 ≡ bit v.trick = omega arith in
      let e2 : flags / 2 ^ 2 % 2 ≡ bit v.copy_info = omega arith in
      let e1 : flags / 2 ^ 1 % 2 ≡ bit v.crc = omega arith in
      let e0 : flags % 2 ≡ ext_bit v.extended = omega arith in
      (
        omega arith,
        omega arith,
        rw e5 (bit_test v.clock),
        rw e4 (bit_test v.rate),
        rw e3 (bit_test v.trick),
        rw e2 (bit_test v.copy_info),
        rw e1 (bit_test v.crc),
        rw e0 (ext_test v.extended),
      )

  -- The ends that the flags give are the sums of the sizes that were written.
  abbrev pub at1 : ℕ
  at1 = 3 + length (stamps_bytes v.stamps)

  abbrev pub at2 : ℕ
  at2 = at1 + length (chunk Clock.encode v.clock)

  abbrev pub at3 : ℕ
  at3 = at2 + length (chunk rate_bytes v.rate)

  abbrev pub at4 : ℕ
  at4 = at3 + length (chunk trick_bytes v.trick)

  abbrev pub at5 : ℕ
  at5 = at4 + length (chunk info_bytes v.copy_info)

  abbrev pub at6 : ℕ
  at6 = at5 + length (chunk crc_bytes v.crc)

  stamps_size_lem : stamps_size flags ≡ length (stamps_bytes v.stamps)
  stamps_size_lem = rw (flags_read.1) (go v.stamps)
    where
      go :
          (s : Stamps)
          → (if stamps_bits s == 2 then 5 else if stamps_bits s == 3 then 10 else 0)
            ≡ length (stamps_bytes s)
      go no_stamps = refl
      go (presented t) = refl
      go (decoded t u) = refl

  pub sizes_lem :
      (end1 flags ≡ at1)
      × (end2 flags ≡ at2)
      × (end3 flags ≡ at3)
      × (end4 flags ≡ at4)
      × (end5 flags ≡ at5)
      × (end6 flags ≡ at6)
  sizes_lem =
      let (small, bits, e5, e4, e3, e2, e1, e0) = flags_read in
      let s1 = stamps_size_lem in
      let s2 : size flags 5 6 ≡ length (chunk Clock.encode v.clock) =
        rw e5 (chunk_size Clock.encode 6 v.clock (λ c. refl)) in
      let s3 : size flags 4 3 ≡ length (chunk rate_bytes v.rate) =
        rw e4 (chunk_size rate_bytes 3 v.rate (λ c. refl)) in
      let s4 : size flags 3 1 ≡ length (chunk trick_bytes v.trick) =
        rw e3 (chunk_size trick_bytes 1 v.trick (λ c. refl)) in
      let s5 : size flags 2 1 ≡ length (chunk info_bytes v.copy_info) =
        rw e2 (chunk_size info_bytes 1 v.copy_info (λ c. refl)) in
      let s6 : size flags 1 2 ≡ length (chunk crc_bytes v.crc) =
        rw e1 (chunk_size crc_bytes 2 v.crc (λ c. refl)) in
      (
        omega (arith, s1),
        omega (arith, s1, s2),
        omega (arith, s1, s2, s3),
        omega (arith, s1, s2, s3, s4),
        omega (arith, s1, s2, s3, s4, s5),
        omega (arith, s1, s2, s3, s4, s5, s6),
      )

  pub stamps-At : At layout 3 (stamps_bytes v.stamps ++ after_stamps)
  stamps-At = record { inside = omega arith; same = refl }

  pub clock-At : At layout at1 after_stamps
  clock-At = At-next (stamps_bytes v.stamps) after_stamps stamps-At

  pub rate-At : At layout at2 after_clock
  rate-At = At-next (chunk Clock.encode v.clock) after_clock clock-At

  pub trick-At : At layout at3 after_rate
  trick-At = At-next (chunk rate_bytes v.rate) after_rate rate-At

  pub info-At : At layout at4 after_trick
  info-At = At-next (chunk trick_bytes v.trick) after_trick trick-At

  pub crc-At : At layout at5 after_info
  crc-At = At-next (chunk info_bytes v.copy_info) after_info info-At

  pub tail-At : At layout at6 after_crc
  tail-At = At-next (chunk crc_bytes v.crc) after_crc crc-At

  pub rest-At : At layout (at6 + length v.tail) rest
  rest-At = At-next v.tail rest tail-At
