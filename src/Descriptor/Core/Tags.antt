-- ===== src/Descriptor/Core/Tags.antt =====
-- src/descriptor/mod.rs: the tags of ISO/IEC 13818-1 and the descriptors that they are given to.
use mpeg2ts_reader.Base.{ℕ, ◌≡◌, refl, Bool, true, false, leb, ◌&&◌, ◌||◌, ◌==◌, Option, some, none}
use mpeg2ts_reader.Base.{if◌then◌else◌}
use mpeg2ts_reader.Base.Bits.{all_below}
use mpeg2ts_reader.Descriptor.Core

-- Does ISO/IEC 13818-1 give the tag to the descriptor of this name?
abbrev pub has_tag : Core.Variant → ℕ → Bool
has_tag Core.reserved tag = leb tag 1 || leb 59 tag && leb tag 62
has_tag Core.video_stream tag = tag == 2
has_tag Core.audio_stream tag = tag == 3
has_tag Core.hierarchy tag = tag == 4
has_tag Core.registration tag = tag == 5
has_tag Core.data_stream_alignment tag = tag == 6
has_tag Core.target_background_grid tag = tag == 7
has_tag Core.video_window tag = tag == 8
has_tag Core.ca tag = tag == 9
has_tag Core.iso_639_language tag = tag == 10
has_tag Core.system_clock tag = tag == 11
has_tag Core.multiplex_buffer_utilization tag = tag == 12
has_tag Core.copyright tag = tag == 13
has_tag Core.maximum_bitrate tag = tag == 14
has_tag Core.private_data_indicator tag = tag == 15
has_tag Core.smoothing_buffer tag = tag == 16
has_tag Core.std tag = tag == 17
has_tag Core.ibp tag = tag == 18
has_tag Core.iso_iec_13818_dash_6 tag = leb 19 tag && leb tag 26
has_tag Core.mpeg4_video tag = tag == 27
has_tag Core.mpeg4_audio tag = tag == 28
has_tag Core.iod tag = tag == 29
has_tag Core.sl tag = tag == 30
has_tag Core.fmc tag = tag == 31
has_tag Core.external_es_id tag = tag == 32
has_tag Core.mux_code tag = tag == 33
has_tag Core.fmx_buffer_size tag = tag == 34
has_tag Core.multiplex_buffer tag = tag == 35
has_tag Core.montent_labeling tag = tag == 36
has_tag Core.metadata_pointer tag = tag == 37
has_tag Core.metadata tag = tag == 38
has_tag Core.metadata_std tag = tag == 39
has_tag Core.avc_video tag = tag == 40
has_tag Core.ipmp tag = tag == 41
has_tag Core.avc_timing_and_hrd tag = tag == 42
has_tag Core.mpeg2_aac_audio tag = tag == 43
has_tag Core.flex_mux_timing tag = tag == 44
has_tag Core.mpeg4_text tag = tag == 45
has_tag Core.mpeg4_audio_extension tag = tag == 46
has_tag Core.auxiliary_video_stream tag = tag == 47
has_tag Core.svc_extension tag = tag == 48
has_tag Core.mvc_extension tag = tag == 49
has_tag Core.j2k_video tag = tag == 50
has_tag Core.mvc_operation_point tag = tag == 51
has_tag Core.mpeg2_stereoscopic_video_format tag = tag == 52
has_tag Core.stereoscopic_program_info tag = tag == 53
has_tag Core.stereoscopic_video_info tag = tag == 54
has_tag Core.transport_profile tag = tag == 55
has_tag Core.hevc_video tag = tag == 56
has_tag Core.vvc_video tag = tag == 57
has_tag Core.evc_video tag = tag == 58
has_tag Core.extension tag = tag == 63
has_tag Core.user_private tag = leb 64 tag

abbrev pub suits : Option Core.Variant → ℕ → Bool
suits none tag = false
suits (some v) tag = has_tag v tag

pub every_tag : all_below 256 (λ tag. suits (Core.variant_of tag) tag) ≡ true
unfolding all_below Core.variant_of Core.find
every_tag = refl

-- The least size of a payload of the tag, as ISO/IEC 13818-1 lays out its fields.
abbrev pub least_size : ℕ → ℕ
least_size tag = if tag == 5 || tag == 40 then 4 else if tag == 14 then 3 else 0

-- The descriptors that have a type of their own.
abbrev pub has_own_type : Core.Variant → Bool
has_own_type Core.registration = true
has_own_type Core.iso_639_language = true
has_own_type Core.maximum_bitrate = true
has_own_type Core.avc_video = true
has_own_type v = false
