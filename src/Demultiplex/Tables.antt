-- ===== src/Demultiplex/Tables.antt =====
-- src/demultiplex.rs: the processors of the Program Association Table and of the Program Map
-- Tables, which register filters for what the tables announce.
pub mod Places
pub mod Entries
pub mod Effects
use mpeg2ts_reader.Base.{
  ℕ, ◌+◌, ◌-◌, ◌%◌, ◌^◌, Bool, not, ltb, ◌==◌, ◌||◌, if◌then◌else◌, inl, inr, List, [], ◌∷◌, ◌++◌,
  length,
}
use mpeg2ts_reader.Base.{Outcome, ok, err, panic, slice_range, ◌>>=◌}
use mpeg2ts_reader.Packet.Fields.{Pid, pid_count, new_pid}
use mpeg2ts_reader.Error.{
  invalid_table_id, section_too_large, pat_entry_parse_error, pmt_parse_error,
}
use mpeg2ts_reader.Psi.Section.{
  Run, SectionCommonHeader, TableSyntaxHeader, common_size, syntax_size,
}
use mpeg2ts_reader.Psi.Syntax.{WholeSectionParser}
use mpeg2ts_reader.Psi.Framer.{sub}
use mpeg2ts_reader.Psi.Pat
use mpeg2ts_reader.Psi.Pmt
use mpeg2ts_reader.Demultiplex.Filters.{FilterChange, insertion, removal}
use mpeg2ts_reader.Demultiplex.Context.{DemuxContext, by_stream, by_pmt, nit}
use mpeg2ts_reader.Demultiplex.Push.{pat_pid}

-- `fixedbitset::FixedBitSet`, of the crate of that name: `B n` is the sets of `n` bits, the number
-- that `with_capacity` is given and that no call changes. `insert` panics on a bit that is out of
-- bounds; `difference` iterates over the bits of the first set that the second has not.
pub record FixedBitSet (B : ℕ → Type 0) : Type 0 where
  pub with_capacity : (n : ℕ) → B n
  pub insert : {n : ℕ} → B n → ℕ → Run (B n)
  pub difference : {n m : ℕ} → B n → B m → List ℕ

abbrev pub section_length_limit : ℕ
section_length_limit = 1021

module _ {C F : Type 0} (D : DemuxContext C F) where
  -- `FilterChangeset::insert` and `remove`, on the queue of the context.
  unfoldable pub queue_insert : C → Pid → F → C
  queue_insert c p f = D.set_changeset c (D.filter_changeset c ++ insertion p f ∷ [])

  unfoldable pub queue_remove : C → Pid → C
  queue_remove c p = D.set_changeset c (D.filter_changeset c ++ removal p ∷ [])

  -- The loop of `remove_outdated`, over the PIDs that are not announced any longer.
  unfoldable pub remove_all : C → List ℕ → Run C
  remove_all c [] = ok c
  remove_all c (p ∷ ps) = new_pid (p % 2 ^ 16) >>= λ q. remove_all (queue_remove c q) ps

-- `PatProcessor`. Its set is made with as many bits as there are PIDs, here and in `new_table`.
pub record PatProcessor (B : ℕ → Type 0) : Type 0 where
  pub filters_registered : B pid_count

-- `PmtProcessor`, with a set of the same size. Its program number is not used.
pub record PmtProcessor (B : ℕ → Type 0) : Type 0 where
  pub pid : Pid
  pub filters_registered : B pid_count

module _ {B : ℕ → Type 0} {C F : Type 0} (S : FixedBitSet B) (D : DemuxContext C F) where
  -- What the loops over a table carry: the PIDs registered, the PIDs seen and the context.
  abbrev pub Pass : Type 0
  Pass = B pid_count × B pid_count × C

  -- A filter for a PID that the table announces.
  unfoldable pub register : Pass → Pid → F → C → Run Pass
  register s p filter c = do
    let c' = queue_insert D c p filter
    pids_seen ← S.insert s.1 p.val
    filters_registered ← S.insert s.0 p.val
    ok (filters_registered, pids_seen, c')

  -- `PatProcessor::default` and `PmtProcessor::new`.
  unfoldable pub new_pat_processor : PatProcessor B
  new_pat_processor = record { filters_registered = S.with_capacity pid_count }

  unfoldable pub new_pmt_processor : Pid → PmtProcessor B
  new_pmt_processor pid = record { pid = pid; filters_registered = S.with_capacity pid_count }

  -- `ctx.construct` for an entry of the PAT.
  abbrev pub construct_program : C → Pat.ProgramDescriptor → F × C
  construct_program c (Pat.program n p) = D.construct c (by_pmt p n)
  construct_program c (Pat.network p) = D.construct c (nit p)

  -- The body of the loop over the programs.
  unfoldable pub add_program : Pass → Pat.Item → Run Pass
  add_program s (inl e) = ok (s.0, s.1, D.error s.2 (pat_entry_parse_error e))
  add_program s (inr desc) =
      let (filter, c) = construct_program s.2 desc in register s (Pat.pid desc) filter c

  unfoldable pub add_programs : Pass → List Pat.Item → Run Pass
  add_programs s [] = ok s
  add_programs s (i ∷ is) = add_program s i >>= λ t. add_programs t is

  -- `PatProcessor::new_table`.
  unfoldable pub pat_new_table :
      PatProcessor B → C → SectionCommonHeader → List ℕ → Run (PatProcessor B × C)
  pat_new_table p c header sect =
      if not (0x00 == header.table_id)
      then ok (p, D.error c (invalid_table_id pat_pid 0x00 header.table_id))
      else (do
        is ← Pat.programs sect
        (registered, pids_seen, c') ←
            add_programs (p.filters_registered, S.with_capacity pid_count, c) is
        c'' ← remove_all D c' (S.difference registered pids_seen)
        ok (record { filters_registered = pids_seen }, c''))

  -- `PatProcessor::section`.
  unfoldable pub pat_section :
      PatProcessor B
      → C
      → SectionCommonHeader
      → TableSyntaxHeader
      → List ℕ
      → Run (PatProcessor B × C)
  pat_section p c header table_syntax_header data' =
      if ltb section_length_limit header.section_length
      then ok (
        p,
        D.error c
            (section_too_large pat_pid header.table_id header.section_length section_length_limit),
      )
      else (do
        end ← sub (length data') 4
        sect ← slice_range data' (common_size + syntax_size) end
        pat_new_table p c header sect)

  -- The body of the loop over the streams.
  unfoldable pub add_stream : PmtProcessor B → Pmt.PmtSection → Pass → Pmt.Item → Run Pass
  add_stream p sect s (inl e) = ok (s.0, s.1, D.error s.2 (pmt_parse_error p.pid e))
  add_stream p sect s (inr stream_info) = do
    kind ← Pmt.stream_type stream_info
    let (filter, c) = D.construct s.2 (by_stream p.pid kind sect.data' stream_info.data')
    elementary_pid ← Pmt.elementary_pid stream_info
    register s elementary_pid filter c

  unfoldable pub add_streams : PmtProcessor B → Pmt.PmtSection → Pass → List Pmt.Item → Run Pass
  add_streams p sect s [] = ok s
  add_streams p sect s (i ∷ is) = add_stream p sect s i >>= λ t. add_streams p sect t is

  -- `PmtProcessor::new_table`.
  unfoldable pub pmt_new_table :
      PmtProcessor B → C → SectionCommonHeader → Pmt.PmtSection → Run (PmtProcessor B × C)
  pmt_new_table p c header sect =
      if not (0x02 == header.table_id)
      then ok (p, D.error c (invalid_table_id p.pid 0x02 header.table_id))
      else (do
        is ← Pmt.streams sect
        (registered, pids_seen, c') ←
            add_streams p sect (p.filters_registered, S.with_capacity pid_count, c) is
        c'' ← remove_all D c' (S.difference registered pids_seen)
        ok (record p { filters_registered = pids_seen }, c''))

  -- `PmtProcessor::section`.
  unfoldable pub pmt_section :
      PmtProcessor B
      → C
      → SectionCommonHeader
      → TableSyntaxHeader
      → List ℕ
      → Run (PmtProcessor B × C)
  pmt_section p c header table_syntax_header data' =
      if ltb section_length_limit header.section_length
      then ok (
        p,
        D.error c
            (section_too_large p.pid header.table_id header.section_length section_length_limit),
      )
      else (do
        end ← sub (length data') 4
        body ← slice_range data' (common_size + syntax_size) end
        elim (Pmt.from_bytes body) [
          | ok sect ↦ pmt_new_table p c header sect
          | err e ↦ ok (p, D.error c (pmt_parse_error p.pid e))
          | panic ↦ panic
        ])
