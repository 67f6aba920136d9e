-- ===== src/Descriptor/Types.antt =====
-- src/descriptor/: the descriptors that have a type of their own.
pub mod Bounds
use mpeg2ts_reader.Base.{
  ℕ, zero, suc, ◌*◌, Bool, ltb, ◌==◌, if◌then◌else◌, ◌⊎◌, inl, inr, Option, some, none, List, [],
  ◌∷◌, length, take, drop, bit_and, bit_or,
}
use mpeg2ts_reader.Base.{Outcome, ok, err, assert, index, slice_range, slice_from, ◌>>=◌, ◌>>◌}
use mpeg2ts_reader.Base.Bits.{has_bits, shl32}
use mpeg2ts_reader.Psi.Section.{Run, out_of_fuel}
use mpeg2ts_reader.Descriptor.{DescriptorError, descriptor_len}

pub record AvcVideoDescriptor : Type 0 where
  pub buf : List ℕ

abbrev pub avc_video_tag : ℕ
avc_video_tag = 40

unfoldable pub new_avc_video : ℕ → List ℕ → Outcome DescriptorError AvcVideoDescriptor
new_avc_video tag buf = do
  assert (tag == avc_video_tag)
  descriptor_len buf tag 4
  ok (record { buf = buf })

-- A flag of a byte: `self.buf[i] & mask != 0`.
abbrev flag : {E : Type 0} → List ℕ → ℕ → ℕ → Outcome E Bool
flag buf i mask = do b ← index buf i; ok (has_bits b mask)

module _ {E : Type 0} (d : AvcVideoDescriptor) where
  unfoldable pub profile_idc : Outcome E ℕ
  profile_idc = index d.buf 0

  unfoldable pub constraint_set0_flag : Outcome E Bool
  constraint_set0_flag = flag d.buf 1 0b1000_0000

  unfoldable pub constraint_set1_flag : Outcome E Bool
  constraint_set1_flag = flag d.buf 1 0b0100_0000

  unfoldable pub constraint_set2_flag : Outcome E Bool
  constraint_set2_flag = flag d.buf 1 0b0010_0000

  unfoldable pub constraint_set3_flag : Outcome E Bool
  constraint_set3_flag = flag d.buf 1 0b0001_0000

  unfoldable pub constraint_set4_flag : Outcome E Bool
  constraint_set4_flag = flag d.buf 1 0b0000_1000

  unfoldable pub constraint_set5_flag : Outcome E Bool
  constraint_set5_flag = flag d.buf 1 0b0000_0100

  unfoldable pub avc_compatible_flags : Outcome E ℕ
  avc_compatible_flags = do b ← index d.buf 1; ok (bit_and b 0b0000_0011)

  unfoldable pub level_idc : Outcome E ℕ
  level_idc = index d.buf 2

  unfoldable pub avc_still_present : Outcome E Bool
  avc_still_present = flag d.buf 3 0b1000_0000

  unfoldable pub avc_24_hour_picture_flag : Outcome E Bool
  avc_24_hour_picture_flag = flag d.buf 3 0b0100_0000

  unfoldable pub frame_packing_sei_not_present_flag : Outcome E Bool
  frame_packing_sei_not_present_flag = flag d.buf 3 0b0010_0000

pub record MaximumBitrateDescriptor : Type 0 where
  pub buf : List ℕ

abbrev pub maximum_bitrate_tag : ℕ
maximum_bitrate_tag = 14

unfoldable pub new_maximum_bitrate : ℕ → List ℕ → Outcome DescriptorError MaximumBitrateDescriptor
new_maximum_bitrate tag buf = do
  assert (tag == maximum_bitrate_tag)
  descriptor_len buf tag 3
  ok (record { buf = buf })

module _ {E : Type 0} (d : MaximumBitrateDescriptor) where
  unfoldable pub maximum_bitrate : Outcome E ℕ
  maximum_bitrate = do
    b0 ← index d.buf 0
    b1 ← index d.buf 1
    b2 ← index d.buf 2
    ok (bit_or (bit_or (shl32 (bit_and b0 0b0011_1111) 16) (shl32 b1 8)) b2)

  -- The rate has 22 bits: the products do not overflow a `u32`.
  unfoldable pub maximum_bits_per_second : Outcome E ℕ
  maximum_bits_per_second = do rate ← maximum_bitrate; ok (rate * 50 * 8)

pub record RegistrationDescriptor : Type 0 where
  pub buf : List ℕ

unfoldable pub new_registration : ℕ → List ℕ → Outcome DescriptorError RegistrationDescriptor
new_registration tag buf = do descriptor_len buf tag 4; ok (record { buf = buf })

-- `FormatIdentifier` of the crate `smptera-format-identifiers-rust` is a parameter: how it is made of
-- four bytes, and its equality.
module _ {E I : Type 0} (identifier : List ℕ → I) (same : I → I → Bool)
    (d : RegistrationDescriptor) where
  unfoldable pub format_identifier : Outcome E I
  format_identifier = do s ← slice_range d.buf 0 4; ok (identifier s)

  unfoldable pub is_format : I → Outcome E Bool
  is_format id = do i ← format_identifier; ok (same i id)

unfoldable pub additional_identification_info :
    {E : Type 0} → RegistrationDescriptor → Outcome E (List ℕ)
additional_identification_info d = slice_from d.buf 4

pub record Iso639LanguageDescriptor : Type 0 where
  pub buf : List ℕ

unfoldable pub new_iso_639_language : ℕ → List ℕ → Outcome DescriptorError Iso639LanguageDescriptor
new_iso_639_language tag buf = ok (record { buf = buf })

pub data LangError : Type 0 where
  too_short : ℕ → LangError

pub data AudioType : Type 0 where
  undefined clean_effects hearing_impaired visual_impaired_commentary : AudioType
  main_dialogue descriptive_narration pre_recorded_commentary : AudioType
  dialogue_enhancement spoken_subtitles : AudioType
  reserved : ℕ → AudioType

-- `From<u8> for AudioType`.
unfoldable pub audio_type_of : ℕ → AudioType
audio_type_of v =
    if v == 0
    then undefined
    else if v == 1
    then clean_effects
    else if v == 2
    then hearing_impaired
    else if v == 3
    then visual_impaired_commentary
    else if v == 0x80
    then main_dialogue
    else if v == 0x81
    then descriptive_narration
    else if v == 0x82
    then pre_recorded_commentary
    else if v == 0x83
    then dialogue_enhancement
    else if v == 0x84
    then spoken_subtitles
    else reserved v

pub record Language : Type 0 where
  pub buf : List ℕ

unfoldable pub new_language : {E : Type 0} → List ℕ → Outcome E Language
new_language buf = do assert (length buf == 4); ok (record { buf = buf })

-- `decode_latin1` of the crate `encoding_rs` is a parameter.
unfoldable pub code : {E T : Type 0} → (List ℕ → T) → Language → Outcome E T
code decode_latin1 l = do s ← slice_range l.buf 0 3; ok (decode_latin1 s)

unfoldable pub audio_type : {E : Type 0} → Language → Outcome E AudioType
audio_type l = do b ← index l.buf 3; ok (audio_type_of b)

-- What the iterator gives: `Err` on the left, `Ok` on the right.
abbrev pub LanguageItem : Type 0
LanguageItem = LangError ⊎ Language

-- `LanguageIterator::next`: the item, and the data that remains.
unfoldable pub next_language : List ℕ → Run (Option (LanguageItem × List ℕ))
next_language remaining_data =
    if length remaining_data == 0
    then ok none
    else if ltb (length remaining_data) 4
    then (slice_range remaining_data 0 0 >>= λ rest.
        ok (some (inl (too_short (length remaining_data)), rest)))
    else (do
      head ← slice_range remaining_data 0 4
      tail ← slice_from remaining_data 4
      l ← new_language head
      ok (some (inr l, tail)))

-- All the items of the iterator, on fuel: each takes a byte or ends it.
unfoldable pub languages_on : ℕ → List ℕ → Run (List LanguageItem)
languages_on zero data' = elim data' [ [] ↦ ok [] | b ∷ bs ↦ err out_of_fuel ]
languages_on (suc fuel) data' = next_language data' >>= λ r. elim r [
  | none ↦ ok []
  | some p ↦ languages_on fuel p.1 >>= λ rest. ok (p.0 ∷ rest)
]

-- `Iso639LanguageDescriptor::languages`.
unfoldable pub languages : Iso639LanguageDescriptor → Run (List LanguageItem)
languages d = languages_on (length d.buf) d.buf
