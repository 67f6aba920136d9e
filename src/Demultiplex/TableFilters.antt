-- ===== src/Demultiplex/TableFilters.antt =====
-- src/demultiplex.rs: the processor of the Transport Stream Description Table, and the packet
-- filters that put a section framer, the check for duplicates and the check of the CRC before the
-- processor of a table.
pub mod Safety
use mpeg2ts_reader.Base.{ℕ, ◌+◌, not, ltb, ◌==◌, if◌then◌else◌, List, length}
use mpeg2ts_reader.Base.{ok, slice_range, ◌>>=◌}
use mpeg2ts_reader.Packet.Fields.{Pid}
use mpeg2ts_reader.Packet.Header.{Packet}
use mpeg2ts_reader.Error.{invalid_table_id, section_too_large}
use mpeg2ts_reader.Psi.Section.{
  Run, SectionCommonHeader, TableSyntaxHeader, common_size, syntax_size,
}
use mpeg2ts_reader.Psi.Syntax.{SectionSyntax, WholeSectionParser, section_syntax_mode}
use mpeg2ts_reader.Psi.Framer
use mpeg2ts_reader.Psi.Framer.{Framer, sub}
use mpeg2ts_reader.Psi.Dedup
use mpeg2ts_reader.Psi.CrcCheck
use mpeg2ts_reader.Demultiplex.Context.{DemuxContext, sink_of}
use mpeg2ts_reader.Demultiplex.Push.{pat_pid}
use mpeg2ts_reader.Demultiplex.Tables.{
  FixedBitSet, PatProcessor, PmtProcessor, new_pat_processor, new_pmt_processor, pat_section,
  pmt_section, section_length_limit,
}

-- `psi::tsdt::TSDT_PID`.
abbrev pub tsdt_pid : Pid
tsdt_pid = record { val = 2 }

-- `TsdtConsumer`, of the application. A `TsdtSection` is the bytes that it wraps.
pub record TsdtConsumer (T C : Type 0) : Type 0 where
  pub tsdt : T → C → TableSyntaxHeader → List ℕ → T × C

-- `TsdtProcessor::section`; the processor is its consumer.
unfoldable pub tsdt_section :
    {T C F : Type 0}
    → DemuxContext C F
    → TsdtConsumer T C
    → T
    → C
    → SectionCommonHeader
    → TableSyntaxHeader
    → List ℕ
    → Run (T × C)
tsdt_section D w consumer c header table_syntax_header data' =
    if not (header.table_id == 0x03)
    then ok (consumer, D.error c (invalid_table_id tsdt_pid 0x03 header.table_id))
    else if ltb section_length_limit header.section_length
    then ok (
      consumer,
      D.error c
          (section_too_large tsdt_pid header.table_id header.section_length section_length_limit),
    )
    else (do
      end ← sub (length data') 4
      section ← slice_range data' (common_size + syntax_size) end
      ok (w.tsdt consumer c table_syntax_header section))

-- The processors keep the `reset` of the trait, which does nothing.
abbrev pub processor :
    {P C : Type 0}
    → (P → C → SectionCommonHeader → TableSyntaxHeader → List ℕ → Run (P × C))
    → WholeSectionParser P C
processor section = record { section = section; reset = λ p. p }

-- `PacketFilterConsumer<Proc>`.
abbrev pub PacketFilterConsumer : Type 0 → Type 0
PacketFilterConsumer P = Framer (Dedup.Deduplicated (CrcCheck.Checked P))

module _ {C F : Type 0} (D : DemuxContext C F) where
  abbrev pub consumer_mode :
      {P : Type 0}
      → WholeSectionParser P C
      → SectionSyntax (Dedup.Deduplicated (CrcCheck.Checked P)) C
  consumer_mode w = section_syntax_mode (sink_of D) (Dedup.parser (CrcCheck.parser (sink_of D) w))

  unfoldable pub new_consumer : {P : Type 0} → Pid → P → PacketFilterConsumer P
  new_consumer pid proc = Framer.new pid (Dedup.new (record { pid = pid; inner = proc }))

module _ {B : ℕ → Type 0} {C F : Type 0} (S : FixedBitSet B) (D : DemuxContext C F) where
  -- `PatPacketFilter`.
  unfoldable pub new_pat_filter : PacketFilterConsumer (PatProcessor B)
  unfolding new_consumer
  new_pat_filter = new_consumer D pat_pid (new_pat_processor S D)

  unfoldable pub consume_pat :
      PacketFilterConsumer (PatProcessor B)
      → C
      → Packet
      → Run (PacketFilterConsumer (PatProcessor B) × C)
  consume_pat f c pk = Framer.consume (consumer_mode D (processor (pat_section S D))) f c pk

  -- `PmtPacketFilter`; the program number is not used.
  unfoldable pub new_pmt_filter : Pid → PacketFilterConsumer (PmtProcessor B)
  unfolding new_consumer
  new_pmt_filter pid = new_consumer D pid (new_pmt_processor S D pid)

  unfoldable pub consume_pmt :
      PacketFilterConsumer (PmtProcessor B)
      → C
      → Packet
      → Run (PacketFilterConsumer (PmtProcessor B) × C)
  consume_pmt f c pk = Framer.consume (consumer_mode D (processor (pmt_section S D))) f c pk

module _ {T C F : Type 0} (D : DemuxContext C F) (w : TsdtConsumer T C) where
  -- `TsdtPacketFilter`.
  unfoldable pub new_tsdt_filter : T → PacketFilterConsumer T
  unfolding new_consumer
  new_tsdt_filter consumer = new_consumer D tsdt_pid consumer

  unfoldable pub consume_tsdt :
      PacketFilterConsumer T → C → Packet → Run (PacketFilterConsumer T × C)
  consume_tsdt f c pk = Framer.consume (consumer_mode D (processor (tsdt_section D w))) f c pk
