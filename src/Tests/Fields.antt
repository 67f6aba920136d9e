-- ===== src/Tests/Fields.antt =====
-- Tests of the optional fields: of adaptation fields (src/packet.rs), of PES headers (src/pes.rs) and
-- of Program Map Tables (src/psi/pmt.rs).
use mpeg2ts_reader.Base.{ℕ, ◌<◌, ◌≡◌, arith, true, false, ◌⊎◌, some, none, List, [], ◌∷◌, All}
use mpeg2ts_reader.Base.{ok, err, Holds}
use mpeg2ts_reader.Base.Bits.{IsBytes}
use mpeg2ts_reader.Base.Layout.{Spans}
use mpeg2ts_reader.Packet.ClockRef.{ClockRef}
use mpeg2ts_reader.Packet.Header.{AdaptationField}
use mpeg2ts_reader.Packet.AdaptationField
use mpeg2ts_reader.Packet.AdaptationField.{
  discontinuity_indicator, random_access_indicator, elementary_stream_priority_indicator, pos,
  negsuc, pcr, opcr, splice_countdown, transport_private_data, adaptation_field_extension,
}
use mpeg2ts_reader.Packet.AdaptationField.Parts
use mpeg2ts_reader.Packet.AdaptationField.Layout.{laid_out, layout-Reads}
use mpeg2ts_reader.Packet.AdaptationField.Bounds.{ReadsExtension, adaptation_field-Reads}
use mpeg2ts_reader.Pes.Timestamp.{Timestamp}
use mpeg2ts_reader.Pes.Header.{PesError}
use mpeg2ts_reader.Pes.Extension.{
  PesExtension, extension_from_bytes, pes_private_data, pack_header, sequence_counter, p_std_buffer,
  stream_id_extension, tref,
}
use mpeg2ts_reader.Pes.Extension.Parts.{ReadsPack, ReadsCounter, ReadsBuffer}
use mpeg2ts_reader.Pes.Extension.Bounds.{accessors-Holds}
use mpeg2ts_reader.Pes.Contents.{
  pes_priority, data_alignment_indicator, not_aligned, copyright, undefined, original_or_copy, copy,
  PesParsedContents, contents_from_bytes, payload,
}
use mpeg2ts_reader.Pes.Contents.Fields.{
  pts_dts, escr, es_rate, dsm_trick_mode, slow_motion, additional_copy_info,
  previous_pes_packet_crc, pes_extension,
}
use mpeg2ts_reader.Pes.Contents.Values.{Settles}
use mpeg2ts_reader.Pes.Contents.Bounds.{contents_from_bytes-Settles}
use mpeg2ts_reader.Pes.Contents.Layout as Header
use mpeg2ts_reader.Pes.Contents.Parts.{stamps_value}
use mpeg2ts_reader.Pes.Contents.RoundTrip.{Fit, contents_from_bytes-Reads}
use mpeg2ts_reader.Error.{PmtError}
use mpeg2ts_reader.Psi.Section.{Fault}
use mpeg2ts_reader.Psi.Pmt
use mpeg2ts_reader.Psi.Pmt.Bounds.{ReadsItem, from_bytes-streams}

abbrev clock : ClockRef
clock = record { base = 0x1_2345_6789; extension = 299 }

abbrev fields : Parts.Fields
fields = record {
  pcr = some clock;
  opcr = none;
  countdown = some 0xff;
  private_data = some (1 ∷ 2 ∷ []);
  extension = none;
}

layout-Reads_example :
    (pcr (laid_out 2 fields (0xff ∷ [])) ≡ ok clock)
    × (opcr (laid_out 2 fields (0xff ∷ [])) ≡ err AdaptationField.field_not_present)
    × (splice_countdown (laid_out 2 fields (0xff ∷ [])) ≡ ok (negsuc 0))
    × (transport_private_data (laid_out 2 fields (0xff ∷ [])) ≡ ok (1 ∷ 2 ∷ []))
    × (adaptation_field_extension (laid_out 2 fields (0xff ∷ []))
        ≡ err AdaptationField.field_not_present)
layout-Reads_example = layout-Reads 2 fields (0xff ∷ []) (omega arith) (omega arith, omega arith) tt

-- A field whose extension is cut off.
abbrev cut_field : AdaptationField
cut_field = record { buf = 0x01 ∷ 5 ∷ 0x80 ∷ [] }

adaptation_field-Reads_example :
    (discontinuity_indicator cut_field ≡ ok false)
    × (random_access_indicator cut_field ≡ ok false)
    × (elementary_stream_priority_indicator cut_field ≡ ok 0)
    × Holds (λ c. Unit {0}) (pcr cut_field)
    × Holds (λ c. Unit {0}) (opcr cut_field)
    × Holds (λ c. Unit {0}) (splice_countdown cut_field)
    × Holds IsBytes (transport_private_data cut_field)
    × Holds ReadsExtension (adaptation_field_extension cut_field)
adaptation_field-Reads_example =
    adaptation_field-Reads cut_field (omega arith) (omega arith, (omega arith, (omega arith, tt)))

abbrev time : Timestamp
time = record { val = 900000 }

abbrev header : Header.Fields
header = record {
  stamps = Header.presented time;
  clock = some clock;
  rate = some 5000;
  trick = some (slow_motion 3);
  copy_info = some 0x55;
  crc = some 0x1234;
  extended = true;
  tail = 0x00 ∷ 0xff ∷ [];
}

header-Fit : Fit header
header-Fit = record {
  stamps = omega arith;
  clock = (omega arith, omega arith);
  rate = omega arith;
  trick = omega arith;
  copy_info = omega arith;
  crc = omega arith;
}

contents_from_bytes-Reads_example :
    (contents_from_bytes (Header.layout 0x84 header (1 ∷ 2 ∷ []))
      ≡ ok (Header.laid_out 0x84 header (1 ∷ 2 ∷ [])))
    × (pts_dts (Header.laid_out 0x84 header (1 ∷ 2 ∷ [])) ≡ stamps_value header.stamps)
    × (escr (Header.laid_out 0x84 header (1 ∷ 2 ∷ [])) ≡ ok clock)
    × (es_rate (Header.laid_out 0x84 header (1 ∷ 2 ∷ [])) ≡ ok (record { val = 5000 }))
    × (dsm_trick_mode (Header.laid_out 0x84 header (1 ∷ 2 ∷ [])) ≡ ok (slow_motion 3))
    × (additional_copy_info (Header.laid_out 0x84 header (1 ∷ 2 ∷ [])) ≡ ok 0x55)
    × (previous_pes_packet_crc (Header.laid_out 0x84 header (1 ∷ 2 ∷ [])) ≡ ok 0x1234)
    × (pes_extension (Header.laid_out 0x84 header (1 ∷ 2 ∷ []))
        ≡ extension_from_bytes (0x00 ∷ 0xff ∷ []))
    × (payload {E = PesError} (Header.laid_out 0x84 header (1 ∷ 2 ∷ [])) ≡ ok (1 ∷ 2 ∷ []))
contents_from_bytes-Reads_example =
    contents_from_bytes-Reads 0x84 header (1 ∷ 2 ∷ []) (omega arith) (omega arith) header-Fit

-- The check bits and the flag of the CRC, with a header that has room for it.
abbrev crc_header : List ℕ
crc_header = 0x80 ∷ 0x02 ∷ 2 ∷ 0x12 ∷ 0x34 ∷ 9 ∷ []

contents_from_bytes-Settles_example :
    ((e : PesError) × (contents_from_bytes crc_header ≡ err e))
    ⊎ (h : PesParsedContents) × (contents_from_bytes crc_header ≡ ok h)
      × (pes_priority {E = PesError} h ≡ ok 0)
      × (data_alignment_indicator {E = PesError} h ≡ ok not_aligned)
      × (copyright {E = PesError} h ≡ ok undefined)
      × (original_or_copy {E = PesError} h ≡ ok copy)
      × Settles (pts_dts h)
      × Settles (escr h)
      × Settles (es_rate h)
      × Settles (dsm_trick_mode h)
      × Settles (additional_copy_info h)
      × Settles (previous_pes_packet_crc h)
      × Holds (λ x. Spans 1 x.buf) (pes_extension h)
      × (payload {E = PesError} h ≡ ok (9 ∷ []))
contents_from_bytes-Settles_example =
    contents_from_bytes-Settles crc_header
      (omega arith, (omega arith, (omega arith, (omega arith, (omega arith, (omega arith, tt))))))

-- Every flag of the extension is set, and the pack header is cut off.
abbrev extension : PesExtension
extension = record { buf = 0x78 ∷ 20 ∷ 0 ∷ [] }

accessors-Holds_example :
    Holds (Spans 16) (pes_private_data extension)
    × Holds ReadsPack (pack_header extension)
    × Holds ReadsCounter (sequence_counter extension)
    × Holds ReadsBuffer (p_std_buffer extension)
    × Holds (λ i. i < 128) (stream_id_extension extension)
    × Holds (λ t. Unit {0}) (tref extension)
accessors-Holds_example =
    accessors-Holds extension (omega arith) (omega arith, (omega arith, (omega arith, tt)))

-- A table with one stream of type 0x1b on the PID 0x101.
abbrev pmt : List ℕ
pmt = 0xe1 ∷ 0x01 ∷ 0xf0 ∷ 0x00 ∷ 0x1b ∷ 0xe1 ∷ 0x01 ∷ 0xf0 ∷ 0x00 ∷ []

from_bytes-streams_example :
    ((e : PmtError) × (Pmt.from_bytes pmt ≡ err e))
    ⊎ (Pmt.from_bytes pmt ≡ ok (record { data' = pmt }))
      × (Pmt.pcr_pid {E = Fault} (record { data' = pmt }) ≡ ok (record { val = 0x101 }))
      × (Pmt.descriptor_data {E = Fault} (record { data' = pmt }) ≡ ok [])
      × ((is : List Pmt.Item) × (Pmt.streams (record { data' = pmt }) ≡ ok is) × All ReadsItem is)
from_bytes-streams_example = from_bytes-streams pmt (
  omega arith,
  (
    omega arith,
    (
      omega arith,
      (omega arith, (omega arith, (omega arith, (omega arith, (omega arith, (omega arith, tt)))))),
    ),
  ),
)
