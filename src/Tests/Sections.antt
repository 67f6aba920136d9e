-- ===== src/Tests/Sections.antt =====
-- Tests of the modules that are about src/psi.
use mpeg2ts_reader.Base.{
  All, ℕ, ◌<◌, ◌≡◌, refl, arith, true, false, inl, inr, none, List, [], ◌∷◌, ◌++◌,
}
use mpeg2ts_reader.Base.{ok}
use mpeg2ts_reader.Base.Bits.{IsBytes, IsBytes-append}
use mpeg2ts_reader.Packet.Fields.{Pid}
use mpeg2ts_reader.Error.{DemuxError, ErrorSink, crc_check_failed, not_enough_data}
use mpeg2ts_reader.Crc.Division.{crc_reference, crc_bits, crc_bit}
use mpeg2ts_reader.Crc.Reference.{crc_bytes}
use mpeg2ts_reader.Psi.Section.{
  Fault, SectionCommonHeader, TableSyntaxHeader, current, id, version, current_next_indicator,
  section_number, last_section_number,
}
use mpeg2ts_reader.Psi.Section.Facts.{header_of, table_syntax_header_lem}
use mpeg2ts_reader.Psi.Syntax.{
  SectionSyntax, WholeSectionParser, WholeCompactParser, compact_syntax_mode,
  compact_syntax_mode-laws, validate_compact,
}
use mpeg2ts_reader.Psi.CrcCheck
use mpeg2ts_reader.Psi.Dedup
use mpeg2ts_reader.Psi.Pat
use mpeg2ts_reader.Psi.Pat.{network, program, programs}
use mpeg2ts_reader.Psi.Pat.Codec.{HasPid, encode_all, programs-encode_all, programs-total}
use mpeg2ts_reader.Psi.Framer.{Framer, idle, consume}
use mpeg2ts_reader.Psi.Framer.Invariant.{IsSection, IsValid, framer_in, Delivers}
use mpeg2ts_reader.Psi.Framer.Stream.{Segments, tail, more, IsPartial, deliver_all, holding}
use mpeg2ts_reader.Psi.Framer.Feed.{Feeds, consume-Feeds}
use mpeg2ts_reader.Psi.Framer.Chunks.{feed_all, feed_all-Segments}
use mpeg2ts_reader.Tests.Packets.{packet, packet-IsPacket}

-- A context that collects the reports, and parsers that collect what they are given.
abbrev pub sink : ErrorSink (List DemuxError)
sink = record { error = λ c e. e ∷ c }

abbrev pub collect : WholeCompactParser (List (List ℕ)) (List DemuxError)
collect = record { section = λ q c h data'. ok (q ++ data' ∷ [], c); reset = λ q. q }

abbrev collect_syntax : WholeSectionParser (List (List ℕ)) (List DemuxError)
collect_syntax = record { section = λ q c h t data'. ok (q ++ data' ∷ [], c); reset = λ q. q }

abbrev pub mode : SectionSyntax (List (List ℕ)) (List DemuxError)
mode = compact_syntax_mode sink collect

abbrev pub table_pid : Pid
table_pid = record { val = 17 }

abbrev section_bytes : List ℕ
section_bytes = 0x70 ∷ 0x00 ∷ 0x02 ∷ 0xaa ∷ 0xbb ∷ []

abbrev partial_bytes : List ℕ
partial_bytes = 0x71 ∷ 0x00 ∷ []

section_bytes-IsSection : IsSection mode table_pid section_bytes
unfolding validate_compact header_of
section_bytes-IsSection = record {
  bytes = (omega arith, (omega arith, (omega arith, (omega arith, (omega arith, tt)))));
  header = omega arith;
  whole = refl;
  accepted = λ c. refl;
}

partial_bytes-IsPartial : IsPartial mode table_pid partial_bytes
partial_bytes-IsPartial = (omega arith, omega arith, λ h. absurd (omega arith))

stream-Segments :
    Segments mode table_pid (section_bytes ++ partial_bytes) (section_bytes ∷ []) partial_bytes
stream-Segments =
    more section_bytes partial_bytes [] partial_bytes (section_bytes ++ partial_bytes)
      section_bytes-IsSection (omega arith) (tail partial_bytes partial_bytes-IsPartial) refl

-- The section lies across two payloads.
feed_all-Segments_example :
    feed_all mode table_pid
      (holding mode table_pid true [] [])
      []
      ((0x70 ∷ 0x00 ∷ []) ∷ (0x02 ∷ 0xaa ∷ 0xbb ∷ 0x71 ∷ 0x00 ∷ []) ∷ [])
    ≡ ok (holding mode table_pid true (section_bytes ∷ []) partial_bytes, [])
unfolding deliver_all
feed_all-Segments_example =
    feed_all-Segments mode table_pid (compact_syntax_mode-laws sink collect) true [] [] []
      ((0x70 ∷ 0x00 ∷ []) ∷ (0x02 ∷ 0xaa ∷ 0xbb ∷ 0x71 ∷ 0x00 ∷ []) ∷ []) (section_bytes ∷ [])
      partial_bytes tt
      (
        omega arith,
        (
          omega arith,
          (omega arith, (omega arith, (omega arith, (omega arith, (omega arith, tt))))),
        ),
      )
      stream-Segments

abbrev waiting : Framer (List (List ℕ))
waiting = framer_in table_pid [] idle [] false

waiting-IsValid : IsValid mode waiting
waiting-IsValid = record { bytes = tt; fits = refl }

collect-Delivers : Delivers mode table_pid
collect-Delivers q c sect h = ((q ++ sect ∷ [], c), refl)

consume-Feeds_example : Feeds mode waiting (consume mode waiting [] packet)
consume-Feeds_example =
    consume-Feeds mode (compact_syntax_mode-laws sink collect) waiting [] packet packet-IsPacket
      collect-Delivers waiting-IsValid

abbrev syntax_bytes : List ℕ
syntax_bytes = 0x12 ∷ 0x34 ∷ 0xc3 ∷ 0x00 ∷ 0x01 ∷ []

abbrev header : TableSyntaxHeader
header = record { buf = syntax_bytes }

table_syntax_header_lem_example :
    (id {E = Fault} header ≡ ok 0x1234)
    × (version {E = Fault} header ≡ ok 1)
    × (current_next_indicator {E = Fault} header ≡ ok current)
    × (section_number {E = Fault} header ≡ ok 0)
    × (last_section_number {E = Fault} header ≡ ok 1)
table_syntax_header_lem_example =
    table_syntax_header_lem {E = Fault} header (omega arith)
      (omega arith, (omega arith, (omega arith, (omega arith, (omega arith, tt)))))

abbrev checked : CrcCheck.Checked (List (List ℕ))
checked = record { pid = table_pid; inner = [] }

abbrev syntax_header : SectionCommonHeader
syntax_header = record {
  table_id = 0;
  section_syntax_indicator = true;
  private_indicator = false;
  section_length = 9;
}

abbrev body : List ℕ
body = 0x00 ∷ 0xb0 ∷ 0x09 ∷ 0x12 ∷ 0x34 ∷ 0xc3 ∷ 0x00 ∷ 0x01 ∷ []

-- The bytes with their CRC, and with a wrong one.
abbrev right : List ℕ
right = body ++ 0x44 ∷ 0xff ∷ 0x5a ∷ 0x58 ∷ []

abbrev wrong : List ℕ
wrong = body ++ 0 ∷ 0 ∷ 0 ∷ 0 ∷ []

abbrev received : List ℕ → CrcCheck.Checked (List (List ℕ))
received data' = record { pid = table_pid; inner = data' ∷ [] }

body-IsBytes : IsBytes body
body-IsBytes = (
  omega arith,
  (
    omega arith,
    (omega arith, (omega arith, (omega arith, (omega arith, (omega arith, (omega arith, tt)))))),
  ),
)

section-crc_wrong :
    CrcCheck.section sink collect_syntax checked [] syntax_header header wrong
    ≡ ok (checked, crc_check_failed table_pid 0 ∷ [])
unfolding crc_reference crc_bits crc_bit
section-crc_wrong =
    CrcCheck.section-crc_reference sink collect_syntax checked [] syntax_header header wrong refl (
      IsBytes-append body (0 ∷ 0 ∷ 0 ∷ 0 ∷ []) body-IsBytes
        (omega arith, (omega arith, (omega arith, (omega arith, tt)))))

section-crc_reference_example :
    CrcCheck.section sink collect_syntax checked [] syntax_header header right
    ≡ ok (received right, [])
unfolding crc_reference crc_bits crc_bit
section-crc_reference_example =
    CrcCheck.section-crc_reference sink collect_syntax checked [] syntax_header header right refl (
      IsBytes-append body (0x44 ∷ 0xff ∷ 0x5a ∷ 0x58 ∷ []) body-IsBytes
        (omega arith, (omega arith, (omega arith, (omega arith, tt)))))

section-crc_bytes_example :
    CrcCheck.section sink collect_syntax checked [] syntax_header header
      (body ++ crc_bytes (crc_reference 0xffff_ffff body))
    ≡ ok (received (body ++ crc_bytes (crc_reference 0xffff_ffff body)), [])
section-crc_bytes_example =
    CrcCheck.section-crc_bytes sink collect_syntax checked [] syntax_header header body refl
      body-IsBytes (omega arith)

abbrev delivered : ℕ → Dedup.Delivered
delivered v = record {
  header = syntax_header;
  table_syntax_header = record { buf = 0x12 ∷ 0x34 ∷ v ∷ 0x00 ∷ 0x01 ∷ [] };
  data' = v ∷ [];
}

abbrev fresh : Dedup.Deduplicated (List (List ℕ))
fresh = record { inner = []; last_version = none }

delivered-IsSection : (v : ℕ) → v < 256 → Dedup.AreSections (delivered v ∷ [])
delivered-IsSection v h =
    ((omega arith, (omega arith, (omega arith, (h, (omega arith, (omega arith, tt)))))), tt)

-- The second copy of version 1 is dropped, and the first version is passed on again after it.
section_all-changes_example :
    Dedup.inner_of (
      Dedup.section_all
        (Dedup.parser collect_syntax)
        fresh
        []
        (delivered 2 ∷ delivered 2 ∷ delivered 4 ∷ delivered 2 ∷ []))
    ≡ ok ((2 ∷ []) ∷ (4 ∷ []) ∷ (2 ∷ []) ∷ [], [])
unfolding Dedup.section_all Dedup.changes
section_all-changes_example =
    Dedup.section_all-changes collect_syntax fresh []
      (delivered 2 ∷ delivered 2 ∷ delivered 4 ∷ delivered 2 ∷ [])
      (
        (delivered-IsSection 2 (omega arith)).0,
        (
          (delivered-IsSection 2 (omega arith)).0,
          ((delivered-IsSection 4 (omega arith)).0, ((delivered-IsSection 2 (omega arith)).0, tt)),
        ),
      )

programs-encode_all_example :
    programs (
      encode_all 7 (network (record { val = 16 }) ∷ program 1 (record { val = 0x100 }) ∷ [])
      ++ 5 ∷ [])
    ≡ ok (
        inr (network (record { val = 16 }))
        ∷ inr (program 1 (record { val = 0x100 }))
        ∷ inl (not_enough_data 1)
        ∷ [])
programs-encode_all_example =
    programs-encode_all 7 (network (record { val = 16 }) ∷ program 1 (record { val = 0x100 }) ∷ [])
      (5 ∷ []) (omega arith, ((omega arith, omega arith, omega arith), tt)) (omega arith)

programs-total_example :
    (is : List Pat.Item) × (programs (0x00 ∷ 0x01 ∷ 0xe1 ∷ 0x00 ∷ 0x05 ∷ []) ≡ ok is)
    × All HasPid is
programs-total_example =
    programs-total (0x00 ∷ 0x01 ∷ 0xe1 ∷ 0x00 ∷ 0x05 ∷ [])
      (omega arith, (omega arith, (omega arith, (omega arith, (omega arith, tt)))))
