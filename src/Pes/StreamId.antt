-- ===== src/Pes/StreamId.antt =====
-- src/pes.rs: `StreamId`, the kind of content of a PES packet. An identifier is its byte, which
-- `as_u8` returns.
use mpeg2ts_reader.Base.{ℕ, Bool, ◌||◌, not, ◌==◌, bit_and}

abbrev pub StreamId : Type 0
StreamId = ℕ

abbrev pub program_stream_map : StreamId
program_stream_map = 0b1011_1100

abbrev pub private_stream1 : StreamId
private_stream1 = 0b1011_1101

abbrev pub padding_stream : StreamId
padding_stream = 0b1011_1110

abbrev pub private_stream2 : StreamId
private_stream2 = 0b1011_1111

abbrev pub ecm_stream : StreamId
ecm_stream = 0b1111_0000

abbrev pub emm_stream : StreamId
emm_stream = 0b1111_0001

abbrev pub dsm_cc : StreamId
dsm_cc = 0b1111_0010

abbrev pub iso_13522_stream : StreamId
iso_13522_stream = 0b1111_0011

abbrev pub h222_1_type_a : StreamId
h222_1_type_a = 0b1111_0100

abbrev pub h222_1_type_b : StreamId
h222_1_type_b = 0b1111_0101

abbrev pub h222_1_type_c : StreamId
h222_1_type_c = 0b1111_0110

abbrev pub h222_1_type_d : StreamId
h222_1_type_d = 0b1111_0111

abbrev pub h222_1_type_e : StreamId
h222_1_type_e = 0b1111_1000

abbrev pub ancillary_stream : StreamId
ancillary_stream = 0b1111_1001

abbrev pub sl_packetized_stream : StreamId
sl_packetized_stream = 0b1111_1010

abbrev pub flex_mux_stream : StreamId
flex_mux_stream = 0b1111_1011

abbrev pub metadata_stream : StreamId
metadata_stream = 0b1111_1100

abbrev pub extended_stream_id : StreamId
extended_stream_id = 0b1111_1101

abbrev pub reserved_data_stream : StreamId
reserved_data_stream = 0b1111_1110

abbrev pub program_stream_directory : StreamId
program_stream_directory = 0b1111_1111

unfoldable pub is_parsed : StreamId → Bool
is_parsed s = not (
    (s == program_stream_map)
    || (s == padding_stream)
    || (s == private_stream2)
    || (s == ecm_stream)
    || (s == emm_stream)
    || (s == program_stream_directory)
    || (s == dsm_cc)
    || (s == h222_1_type_e))

unfoldable pub is_audio : StreamId → Bool
is_audio s = bit_and s 0xe0 == 0xc0

unfoldable pub is_video : StreamId → Bool
is_video s = bit_and s 0xf0 == 0xe0
