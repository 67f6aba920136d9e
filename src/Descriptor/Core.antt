-- ===== src/Descriptor/Core.antt =====
-- src/descriptor/mod.rs: `CoreDescriptors`, which `descriptor_enum!` makes of a table of tags.
pub mod Tags
pub mod Bounds
use mpeg2ts_reader.Base.{
  ℕ, ◌+◌, leb, ltb, ◌&&◌, if◌then◌else◌, Option, some, none, List, [], ◌∷◌, length,
}
use mpeg2ts_reader.Base.{Outcome, ok, err, panic, index, slice_range, ◌>>=◌}
use mpeg2ts_reader.Descriptor.{
  DescriptorError, UnknownDescriptor, new_unknown, tag_too_long_for_buffer, buffer_too_short,
}
use mpeg2ts_reader.Descriptor.Types.{
  AvcVideoDescriptor, new_avc_video, MaximumBitrateDescriptor, new_maximum_bitrate,
  RegistrationDescriptor, new_registration, Iso639LanguageDescriptor, new_iso_639_language,
}

-- The names of the variants.
pub data Variant : Type 0 where
  reserved video_stream audio_stream hierarchy registration data_stream_alignment : Variant
  target_background_grid video_window ca iso_639_language system_clock : Variant
  multiplex_buffer_utilization copyright maximum_bitrate private_data_indicator : Variant
  smoothing_buffer std ibp iso_iec_13818_dash_6 mpeg4_video mpeg4_audio iod sl fmc : Variant
  external_es_id mux_code fmx_buffer_size multiplex_buffer montent_labeling : Variant
  metadata_pointer metadata metadata_std avc_video ipmp avc_timing_and_hrd : Variant
  mpeg2_aac_audio flex_mux_timing mpeg4_text mpeg4_audio_extension : Variant
  auxiliary_video_stream svc_extension mvc_extension j2k_video mvc_operation_point : Variant
  mpeg2_stereoscopic_video_format stereoscopic_program_info stereoscopic_video_info : Variant
  transport_profile hevc_video vvc_video evc_video extension user_private : Variant

-- A variant with what it wraps: `VideoStream(UnknownDescriptor)` is `unknown video_stream`, and the
-- four variants whose types are their own stand by themselves.
pub data CoreDescriptors : Type 0 where
  unknown : Variant → UnknownDescriptor → CoreDescriptors
  of_registration : RegistrationDescriptor → CoreDescriptors
  of_iso_639_language : Iso639LanguageDescriptor → CoreDescriptors
  of_maximum_bitrate : MaximumBitrateDescriptor → CoreDescriptors
  of_avc_video : AvcVideoDescriptor → CoreDescriptors

-- A row of the `match`: the tags from the first to the last, and their variant.
abbrev pub Row : Type 0
Row = ℕ × ℕ × Variant

abbrev pub rows : List Row
rows =
    (0, 0, reserved)
    ∷ (1, 1, reserved)
    ∷ (59, 62, reserved)
    ∷ (2, 2, video_stream)
    ∷ (3, 3, audio_stream)
    ∷ (4, 4, hierarchy)
    ∷ (5, 5, registration)
    ∷ (6, 6, data_stream_alignment)
    ∷ (7, 7, target_background_grid)
    ∷ (8, 8, video_window)
    ∷ (9, 9, ca)
    ∷ (10, 10, iso_639_language)
    ∷ (11, 11, system_clock)
    ∷ (12, 12, multiplex_buffer_utilization)
    ∷ (13, 13, copyright)
    ∷ (14, 14, maximum_bitrate)
    ∷ (15, 15, private_data_indicator)
    ∷ (16, 16, smoothing_buffer)
    ∷ (17, 17, std)
    ∷ (18, 18, ibp)
    ∷ (19, 26, iso_iec_13818_dash_6)
    ∷ (27, 27, mpeg4_video)
    ∷ (28, 28, mpeg4_audio)
    ∷ (29, 29, iod)
    ∷ (30, 30, sl)
    ∷ (31, 31, fmc)
    ∷ (32, 32, external_es_id)
    ∷ (33, 33, mux_code)
    ∷ (34, 34, fmx_buffer_size)
    ∷ (35, 35, multiplex_buffer)
    ∷ (36, 36, montent_labeling)
    ∷ (37, 37, metadata_pointer)
    ∷ (38, 38, metadata)
    ∷ (39, 39, metadata_std)
    ∷ (40, 40, avc_video)
    ∷ (41, 41, ipmp)
    ∷ (42, 42, avc_timing_and_hrd)
    ∷ (43, 43, mpeg2_aac_audio)
    ∷ (44, 44, flex_mux_timing)
    ∷ (45, 45, mpeg4_text)
    ∷ (46, 46, mpeg4_audio_extension)
    ∷ (47, 47, auxiliary_video_stream)
    ∷ (48, 48, svc_extension)
    ∷ (49, 49, mvc_extension)
    ∷ (50, 50, j2k_video)
    ∷ (51, 51, mvc_operation_point)
    ∷ (52, 52, mpeg2_stereoscopic_video_format)
    ∷ (53, 53, stereoscopic_program_info)
    ∷ (54, 54, stereoscopic_video_info)
    ∷ (55, 55, transport_profile)
    ∷ (56, 56, hevc_video)
    ∷ (57, 57, vvc_video)
    ∷ (58, 58, evc_video)
    ∷ (63, 63, extension)
    ∷ (64, 255, user_private)
    ∷ []

unfoldable pub find : List Row → ℕ → Option Variant
find [] tag = none
find (r ∷ rs) tag = if leb r.0 tag && leb tag r.1 then some r.2 else find rs tag

-- The variant of a tag. The Rust `match` has a row for every byte.
unfoldable pub variant_of : ℕ → Option Variant
unfolding find
variant_of tag = find rows tag

-- `$t::new(tag, payload)?` in the variant.
unfoldable pub wrap : Variant → ℕ → List ℕ → Outcome DescriptorError CoreDescriptors
wrap registration tag payload = do d ← new_registration tag payload; ok (of_registration d)
wrap iso_639_language tag payload = do
  d ← new_iso_639_language tag payload
  ok (of_iso_639_language d)
wrap maximum_bitrate tag payload = do d ← new_maximum_bitrate tag payload; ok (of_maximum_bitrate d)
wrap avc_video tag payload = do d ← new_avc_video tag payload; ok (of_avc_video d)
wrap v tag payload = do d ← new_unknown tag payload; ok (unknown v d)

-- `CoreDescriptors::from_bytes`.
unfoldable pub core_from_bytes : List ℕ → Outcome DescriptorError CoreDescriptors
core_from_bytes buf = if ltb (length buf) 2 then err (buffer_too_short (length buf)) else (do
  tag ← index buf 0
  len ← index buf 1
  let tag_end = len + 2
  if ltb (length buf) tag_end then err (tag_too_long_for_buffer len (length buf)) else (do
    payload ← slice_range buf 2 tag_end
    elim (variant_of tag) [ some v ↦ wrap v tag payload | none ↦ panic ]))
