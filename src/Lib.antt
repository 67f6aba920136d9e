-- ===== src/Lib.antt =====
-- A model of mpeg2ts-reader, a parser of MPEG transport streams, with proofs about it.
--
-- A stream comes to `Demultiplex::push` as packets of 188 bytes. Each packet goes to the filter of
-- its PID. The filters of tables put the sections together from the packets (`SectionFramer`), check
-- their CRC and drop duplicates, and queue changes to the table of filters for what a table
-- announces.
--
--   Base: lists, tests, machine words, and the results of calls. `Outcome` has `ok`, `err` and
--     `panic`: an index out of range or a failed assertion is the last of these. Base.Layout is about
--     buffers whose parts, some of them optional, lie one behind the other.
--   Packet: src/packet.rs. Packet.Fields has the small types, Packet.Header the packet,
--     Packet.ClockRef the clock references, Packet.AdaptationField the optional fields of an
--     adaptation field and of its extension. Packet.Payload and Packet.Counters are about packets.
--   Pes: src/pes.rs. Pes.Timestamp has the timestamps, Pes.Header the fixed header of a PES packet,
--     Pes.StreamId the stream identifiers, Pes.Filter the packet filter that calls an
--     `ElementaryStreamConsumer`. Pes.Contents has the flags of `PesParsedContents` and where its
--     optional fields end, Pes.Contents.Fields those fields and `PesHeader::contents`, and
--     Pes.Extension the PES extension.
--   Descriptor: src/descriptor. Descriptor.Iter has the iterator over any implementation of the trait
--     `Descriptor`, Descriptor.Core `CoreDescriptors`, Descriptor.Types the descriptors with fields.
--   StreamType: src/lib.rs, the stream types.
--   Crc: src/mpegts_crc.rs. Crc.Division is the division bit by bit, to which Crc.Reference compares
--     the table.
--   Error: src/error.rs, with the error types of src/psi/pat.rs and src/psi/pmt.rs.
--   Psi: src/psi. Psi.Section has the headers, Psi.Syntax the interface `SectionSyntax`,
--     Psi.Framer the framer, Psi.CrcCheck and Psi.Dedup the parsers that wrap a parser, Psi.Pat and
--     Psi.Pmt the two tables.
--   Demultiplex: src/demultiplex.rs. Demultiplex.Filters has the table of filters,
--     Demultiplex.Context what an application implements, Demultiplex.Push `push`,
--     Demultiplex.Tables the processors of the PAT and of PMTs, and Demultiplex.TableFilters that of
--     the TSDT of src/psi/tsdt.rs, and the packet filters made of a framer, the check for duplicates,
--     the check of the CRC and a processor.
--   Tests: the definitions and the theorems at concrete inputs.
--
-- A function keeps the name it has in Rust. A method that changes its receiver takes it and returns
-- it. Numbers are natural numbers; a shift that drops bits is written with the remainder.
--
-- Fuel: `feed` has two rounds for each byte and one more, since a round takes a byte or leaves a
-- state that has nothing to skip; the iterators over a table have one round for each byte, and
-- `chunks_exact` as well. A parser, a context, a filter and a stream consumer of the application are
-- parameters, and so is the bit set of the crate fixedbitset: sets of as many bits as `with_capacity`
-- was given, whose `insert` panics out of bounds (Demultiplex.Tables.Places has what the crate
-- documents).
--
-- The iterators over descriptors and languages have a round for each byte too. Functions of other
-- crates are parameters: how a format identifier is made and compared, and the decoding of Latin-1.
--
-- Not modelled: the texts of errors and Debug output, which print values that are modelled; the
-- macros that make enums for an application, but for `descriptor_enum!` as it makes
-- `CoreDescriptors`; `NullPacketFilter`, which does nothing; the feature `fuzzing`; the examples and
-- benchmarks.
pub mod Base
pub mod Packet
pub mod Pes
pub mod Error
pub mod Crc
pub mod Psi
pub mod Demultiplex
pub mod Descriptor
pub mod StreamType
pub mod Tests
