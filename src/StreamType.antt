-- ===== src/StreamType.antt =====
-- src/lib.rs: `StreamType`, the types of elementary streams, and which of them carry PES packets. A
-- type is its byte.
use mpeg2ts_reader.Base.{ℕ, Bool, false, ◌||◌, ◌==◌, List, [], ◌∷◌}

abbrev pub StreamType : Type 0
StreamType = ℕ

abbrev pub iso_11172_video : StreamType
iso_11172_video = 0x01

abbrev pub h262 : StreamType
h262 = 0x02

abbrev pub iso_11172_audio : StreamType
iso_11172_audio = 0x03

abbrev pub iso_138183_audio : StreamType
iso_138183_audio = 0x04

abbrev pub h222_0_private_sections : StreamType
h222_0_private_sections = 0x05

abbrev pub h222_0_pes_private_data : StreamType
h222_0_pes_private_data = 0x06

abbrev pub mheg : StreamType
mheg = 0x07

abbrev pub h222_0_dsm_cc : StreamType
h222_0_dsm_cc = 0x08

abbrev pub h2221 : StreamType
h2221 = 0x09

abbrev pub iso_13818_6_multiprotocol_encapsulation : StreamType
iso_13818_6_multiprotocol_encapsulation = 0x0a

abbrev pub dsmcc_un_messages : StreamType
dsmcc_un_messages = 0x0b

abbrev pub dsmcc_stream_descriptors : StreamType
dsmcc_stream_descriptors = 0x0c

abbrev pub dsmcc_sections : StreamType
dsmcc_sections = 0x0d

abbrev pub h222_0_auxiliary : StreamType
h222_0_auxiliary = 0x0e

abbrev pub adts : StreamType
adts = 0x0f

abbrev pub iso_14496_2_visual : StreamType
iso_14496_2_visual = 0x10

abbrev pub latm : StreamType
latm = 0x11

abbrev pub flex_mux_pes : StreamType
flex_mux_pes = 0x12

abbrev pub flex_mux_iso_14496_sections : StreamType
flex_mux_iso_14496_sections = 0x13

abbrev pub synchronized_download_protocol : StreamType
synchronized_download_protocol = 0x14

abbrev pub metadata_in_pes : StreamType
metadata_in_pes = 0x15

abbrev pub metadata_in_metadata_sections : StreamType
metadata_in_metadata_sections = 0x16

abbrev pub dsmcc_data_carousel_metadata : StreamType
dsmcc_data_carousel_metadata = 0x17

abbrev pub dsmcc_object_carousel_metadata : StreamType
dsmcc_object_carousel_metadata = 0x18

abbrev pub synchronized_download_protocol_metadata : StreamType
synchronized_download_protocol_metadata = 0x19

abbrev pub ipmp : StreamType
ipmp = 0x1a

abbrev pub h264 : StreamType
h264 = 0x1b

abbrev pub audio_without_transport_syntax : StreamType
audio_without_transport_syntax = 0x1c

abbrev pub iso_14496_17_text : StreamType
iso_14496_17_text = 0x1d

abbrev pub auxiliary_video : StreamType
auxiliary_video = 0x1e

abbrev pub svc : StreamType
svc = 0x1f

abbrev pub mvc : StreamType
mvc = 0x20

abbrev pub jpeg_2000_video : StreamType
jpeg_2000_video = 0x21

abbrev pub h262_stereo_3d_view : StreamType
h262_stereo_3d_view = 0x22

abbrev pub h264_stereo_3d_view : StreamType
h264_stereo_3d_view = 0x23

abbrev pub h265 : StreamType
h265 = 0x24

abbrev pub hevc_temporal_subset : StreamType
hevc_temporal_subset = 0x25

abbrev pub mvcd : StreamType
mvcd = 0x26

abbrev pub temi : StreamType
temi = 0x27

abbrev pub hevc_enhancement_annex_g : StreamType
hevc_enhancement_annex_g = 0x28

abbrev pub hevc_temporal_enhancement_annex_g : StreamType
hevc_temporal_enhancement_annex_g = 0x29

abbrev pub hevc_enhancement_annex_h : StreamType
hevc_enhancement_annex_h = 0x2a

abbrev pub hevc_temporal_enhancement_annex_h : StreamType
hevc_temporal_enhancement_annex_h = 0x2b

abbrev pub green_access_units : StreamType
green_access_units = 0x2c

abbrev pub mhas_audio_main : StreamType
mhas_audio_main = 0x2d

abbrev pub mhas_audio_aux : StreamType
mhas_audio_aux = 0x2e

abbrev pub quality_access_units : StreamType
quality_access_units = 0x2f

abbrev pub media_orchestration_access_units : StreamType
media_orchestration_access_units = 0x30

abbrev pub hevc_motion_constrained_tile_set : StreamType
hevc_motion_constrained_tile_set = 0x31

abbrev pub jpeg_xs_video : StreamType
jpeg_xs_video = 0x32

abbrev pub vvc : StreamType
vvc = 0x33

abbrev pub vvc_temporal_subset : StreamType
vvc_temporal_subset = 0x34

abbrev pub evc : StreamType
evc = 0x35

abbrev pub lcevc : StreamType
lcevc = 0x36

abbrev pub ipmp_stream : StreamType
ipmp_stream = 0x7f

abbrev pub chinese_video_standard : StreamType
chinese_video_standard = 0x42

abbrev pub atsc_dolby_digital_audio : StreamType
atsc_dolby_digital_audio = 0x81

abbrev pub atsc_dsmcc_network_resources_table : StreamType
atsc_dsmcc_network_resources_table = 0x95

abbrev pub atsc_dsmcc_synchronous_data : StreamType
atsc_dsmcc_synchronous_data = 0xc2

-- `matches!(self, ...)`.
unfoldable pub one_of : List StreamType → StreamType → Bool
one_of [] t = false
one_of (s ∷ ss) t = (t == s) || one_of ss t

unfoldable pub is_pes : StreamType → Bool
unfolding one_of
is_pes t =
    one_of
      (iso_11172_video ∷ h262 ∷ iso_11172_audio ∷ iso_138183_audio ∷ h222_0_pes_private_data
        ∷ h222_0_dsm_cc ∷ h2221 ∷ h222_0_auxiliary ∷ adts ∷ iso_14496_2_visual ∷ latm ∷ flex_mux_pes
        ∷ metadata_in_pes ∷ ipmp ∷ h264 ∷ audio_without_transport_syntax ∷ iso_14496_17_text
        ∷ auxiliary_video ∷ svc ∷ mvc ∷ jpeg_2000_video ∷ h262_stereo_3d_view ∷ h264_stereo_3d_view
        ∷ h265 ∷ hevc_temporal_subset ∷ mvcd ∷ temi ∷ hevc_enhancement_annex_g
        ∷ hevc_temporal_enhancement_annex_g ∷ hevc_enhancement_annex_h
        ∷ hevc_temporal_enhancement_annex_h ∷ mhas_audio_main ∷ mhas_audio_aux
        ∷ hevc_motion_constrained_tile_set ∷ jpeg_xs_video ∷ vvc ∷ vvc_temporal_subset ∷ evc ∷ lcevc
        ∷ ipmp_stream ∷ chinese_video_standard ∷ atsc_dolby_digital_audio
        ∷ atsc_dsmcc_network_resources_table ∷ atsc_dsmcc_synchronous_data ∷ [])
      t
