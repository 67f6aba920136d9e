-- ===== src/Demultiplex/Context.antt =====
-- src/demultiplex.rs: `DemuxContext` and `PacketFilter`, which the application implements, and the
-- requests that the demultiplexer makes to it.
use mpeg2ts_reader.Base.{ℕ, ◌≡◌, List}
use mpeg2ts_reader.Packet.Fields.{Pid}
use mpeg2ts_reader.Packet.Header.{Packet}
use mpeg2ts_reader.Error.{DemuxError, ErrorSink}
use mpeg2ts_reader.Psi.Section.{Run}
use mpeg2ts_reader.Demultiplex.Filters.{FilterChange}

-- `FilterRequest`. A stream and its table are the bytes that they were read from.
pub data FilterRequest : Type 0 where
  by_pid : Pid → FilterRequest
  -- the PID of the table, the type of the stream, the table and the entry
  by_stream : Pid → ℕ → List ℕ → List ℕ → FilterRequest
  -- the PID and the program number
  by_pmt : Pid → ℕ → FilterRequest
  nit : Pid → FilterRequest

-- `DemuxContext`, with the `consume` of the filters that it makes. `filter_changeset` gives a
-- mutable reference: the queue is read and written.
pub record DemuxContext (C F : Type 0) : Type 0 where
  pub error : C → DemuxError → C
  pub filter_changeset : C → List (FilterChange F)
  pub set_changeset : C → List (FilterChange F) → C
  pub construct : C → FilterRequest → F × C
  pub consume : F → C → Packet → Run (F × C)

-- The queue of changes is a place of the context.
pub record ContextLaws {C F : Type 0} (D : DemuxContext C F) : Type 0 where
  pub get-set :
      (c : C) (us : List (FilterChange F)) → D.filter_changeset (D.set_changeset c us) ≡ us
  pub set-get : (c : C) → D.set_changeset c (D.filter_changeset c) ≡ c

abbrev pub sink_of : {C F : Type 0} → DemuxContext C F → ErrorSink C
sink_of D = record { error = D.error }
