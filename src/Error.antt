-- ===== src/Error.antt =====
-- src/error.rs: the problems reported through `ErrorSink`, with the error types of the tables.
use Prim.Native.String.{String}
use mpeg2ts_reader.Base.{ℕ}
use mpeg2ts_reader.Packet.Fields.{Pid, PacketError}

-- psi/pat.rs.
pub data PatError : Type 0 where
  not_enough_data : ℕ → PatError

-- psi/pmt.rs: the field, and the numbers of bytes expected and found.
pub data PmtError : Type 0 where
  not_enough_data : String → ℕ → ℕ → PmtError

pub data DemuxError : Type 0 where
  transport_error : Pid → DemuxError
  scrambled_packet : Pid → DemuxError
  -- the table ids expected and found
  invalid_table_id : Pid → ℕ → ℕ → DemuxError
  -- the table id, the length and the limit
  section_too_large : Pid → ℕ → ℕ → ℕ → DemuxError
  pmt_parse_error : Pid → PmtError → DemuxError
  missing_payload_start_indicator : Pid → DemuxError
  pes_header_parse_error : Pid → DemuxError
  crc_check_failed : Pid → ℕ → DemuxError
  section_too_small_for_crc : Pid → ℕ → ℕ → DemuxError
  unexpected_section_syntax_indicator : Pid → ℕ → DemuxError
  -- the table id, the size and the minimum
  section_data_too_short : Pid → ℕ → ℕ → ℕ → DemuxError
  psi_section_too_large : Pid → ℕ → ℕ → ℕ → DemuxError
  psi_pointer_out_of_bounds : Pid → DemuxError
  section_header_too_short : Pid → DemuxError
  no_payload_in_psi_packet : Pid → DemuxError
  extra_data_after_section_complete : Pid → DemuxError
  pat_entry_parse_error : PatError → DemuxError
  malformed_adaptation_field : Pid → PacketError → DemuxError
  malformed_payload : Pid → PacketError → DemuxError

-- `ErrorSink`: what a context does with a report.
pub record ErrorSink (C : Type 0) : Type 0 where
  pub error : C → DemuxError → C
