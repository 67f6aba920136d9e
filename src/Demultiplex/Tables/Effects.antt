-- ===== src/Demultiplex/Tables/Effects.antt =====
-- src/demultiplex.rs: what a Program Association Table and a Program Map Table leave in the table of
-- filters.
use mpeg2ts_reader.Base.{
  ℕ, ◌+◌, ◌≤◌, ◌≡◌, refl, ap, Bool, false, ◌||◌, ◌==◌, if◌then◌else◌, inl, inr, none, List, [], ◌∷◌,
  map, length, get_or, All,
}
use mpeg2ts_reader.Base.{ok, bind_ext}
use mpeg2ts_reader.Base.Bits.{IsBytes}
use mpeg2ts_reader.Packet.Fields.{Pid, pid_count}
use mpeg2ts_reader.Error.{pat_entry_parse_error, pmt_parse_error}
use mpeg2ts_reader.Psi.Section.{Fault, SectionCommonHeader}
use mpeg2ts_reader.Psi.Pat
use mpeg2ts_reader.Psi.Pat.Codec.{HasPid, programs-HasPid}
use mpeg2ts_reader.Psi.Pmt
use mpeg2ts_reader.Psi.Pmt.Readable.{length_at, pid_at, pid_at-lt, info_accessors}
use mpeg2ts_reader.Psi.Pmt.Bounds.{IsReadableItem, streams_return}
use mpeg2ts_reader.Demultiplex.Filters.{Filters}
use mpeg2ts_reader.Demultiplex.Context.{DemuxContext, ContextLaws, by_stream, by_pmt, nit}
use mpeg2ts_reader.Demultiplex.Tables.{
  FixedBitSet, PatProcessor, PmtProcessor, Pass, add_program, add_programs, pat_new_table,
  add_stream, add_streams, pmt_new_table,
}
use mpeg2ts_reader.Demultiplex.Tables.Entries.{
  found, Entry, named, IsPidEntry, enter, enter_all, enter_all-Places,
}
use mpeg2ts_reader.Demultiplex.Tables.Places.{SetLaws, IsSteady, Places}

-- Does an entry of the table name the PID?
abbrev pub announced : ℕ → List Pat.Item → Bool
announced q [] = false
announced q (inl e ∷ is) = announced q is
announced q (inr d ∷ is) = (Pat.pid d).val == q || announced q is

abbrev pub program_entry : Pat.Item → Entry
program_entry (inl e) = inl (pat_entry_parse_error e)
program_entry (inr (Pat.program n p)) = inr (p, by_pmt p n)
program_entry (inr (Pat.network p)) = inr (p, nit p)

named-announced : (q : ℕ) (is : List Pat.Item) → named q (map program_entry is) ≡ announced q is
named-announced q [] = refl
named-announced q (inl e ∷ is) = named-announced q is
named-announced q (inr (Pat.program n p) ∷ is) =
    ap (λ (b : Bool). p.val == q || b) (named-announced q is)
named-announced q (inr (Pat.network p) ∷ is) =
    ap (λ (b : Bool). p.val == q || b) (named-announced q is)

pub program_entry-IsPidEntry :
    (is : List Pat.Item) → All HasPid is → All IsPidEntry (map program_entry is)
program_entry-IsPidEntry [] h = tt
program_entry-IsPidEntry (inl e ∷ is) h = (tt, program_entry-IsPidEntry is h.1)
program_entry-IsPidEntry (inr (Pat.program n p) ∷ is) h = (h.0, program_entry-IsPidEntry is h.1)
program_entry-IsPidEntry (inr (Pat.network p) ∷ is) h = (h.0, program_entry-IsPidEntry is h.1)

module _ {B : ℕ → Type 0} {C F : Type 0} (S : FixedBitSet B) (D : DemuxContext C F) where
  add_program-enter :
      (s : Pass S D) (i : Pat.Item) → add_program S D s i ≡ enter S D s (program_entry i)
  unfolding add_program enter
  add_program-enter s (inl e) = refl
  add_program-enter s (inr (Pat.program n p)) = refl
  add_program-enter s (inr (Pat.network p)) = refl

  pub add_programs-enter_all :
      (s : Pass S D) (is : List Pat.Item)
      → add_programs S D s is ≡ enter_all S D s (map program_entry is)
  unfolding add_programs enter_all
  add_programs-enter_all s [] = refl
  add_programs-enter_all s (i ∷ is) =
      rw (add_program-enter s i)
        (bind_ext (enter S D s (program_entry i)) _ _ (λ t. add_programs-enter_all t is))

module _ {B : ℕ → Type 0} {C F : Type 0} (S : FixedBitSet B) (sets : SetLaws S)
    (D : DemuxContext C F) (laws : ContextLaws D) (steady : IsSteady D) (fs : Filters F) where
  -- A section of bytes with the table id of the PAT, whose programs are the given entries, read in
  -- a context that makes filters and takes reports without touching its queue of changes: the
  -- processor returns, and the PIDs registered are those that the section names. Once the queue is
  -- applied, each PID that the section names has a filter, each other PID that was registered has
  -- none, and the rest are as the queue had left them.
  pub pat_new_table-Places :
      (p : PatProcessor B) (c : C) (header : SectionCommonHeader) (sect : List ℕ)
      (is : List Pat.Item)
      → header.table_id ≡ 0
      → IsBytes sect
      → Pat.programs sect ≡ ok is
      → (p' : PatProcessor B) × (c' : C) × (pat_new_table S D p c header sect ≡ ok (p', c'))
        × ((q : ℕ) → sets.member p'.filters_registered q ≡ announced q is)
        × ((q : ℕ)
            → Places
                (announced q is)
                (found D laws fs c' q)
                (if sets.member p.filters_registered q then none else found D laws fs c q))
  unfolding pat_new_table
  pat_new_table-Places p c header sect is t bytes e =
      let (t', c', entered, done, seen, k) =
        enter_all-Places S sets D laws steady fs p.filters_registered c (map program_entry is)
          (λ q. announced q is) (λ q. named-announced q is)
          (program_entry-IsPidEntry is (programs-HasPid sect is bytes e)) in
      (
        record { filters_registered = t'.1 },
        c',
        rw
            (
              t,
              e,
              add_programs-enter_all S D (p.filters_registered, S.with_capacity pid_count, c) is,
              entered,
              done,
            )
            refl,
        seen,
        k,
      )

-- Does a stream of the table lie on the PID?
abbrev pub carried : ℕ → List Pmt.Item → Bool
carried q [] = false
carried q (inl e ∷ is) = carried q is
carried q (inr i ∷ is) = pid_at i.data' 1 == q || carried q is

module _ (table : Pid) (sect : List ℕ) where
  -- The request for a stream has the PID of the table, the type of the stream, and the two syntax
  -- elements.
  abbrev pub stream_entry : Pmt.Item → Entry
  stream_entry (inl e) = inl (pmt_parse_error table e)
  stream_entry (inr i) =
      inr (record { val = pid_at i.data' 1 }, by_stream table (get_or i.data' 0 0) sect i.data')

  named-carried : (q : ℕ) (is : List Pmt.Item) → named q (map stream_entry is) ≡ carried q is
  named-carried q [] = refl
  named-carried q (inl e ∷ is) = named-carried q is
  named-carried q (inr i ∷ is) = ap (λ (b : Bool). pid_at i.data' 1 == q || b) (named-carried q is)

pub stream_entry-IsPidEntry :
    (table : Pid) (sect : List ℕ) (is : List Pmt.Item)
    → All IsReadableItem is
    → All IsPidEntry (map (stream_entry table sect) is)
stream_entry-IsPidEntry table sect [] h = tt
stream_entry-IsPidEntry table sect (inl e ∷ is) h = (tt, stream_entry-IsPidEntry table sect is h.1)
stream_entry-IsPidEntry table sect (inr i ∷ is) h =
    (pid_at-lt i h.0, stream_entry-IsPidEntry table sect is h.1)

module _ {B : ℕ → Type 0} {C F : Type 0} (S : FixedBitSet B) (D : DemuxContext C F)
    (p : PmtProcessor B) (sect : List ℕ) where
  add_stream-enter :
      (s : Pass S D) (i : Pmt.Item)
      → IsReadableItem i
      → add_stream S D p (record { data' = sect }) s i ≡ enter S D s (stream_entry p.pid sect i)
  unfolding add_stream enter
  add_stream-enter s (inl e) h = refl
  add_stream-enter s (inr i) h =
      let (kind, pid, descriptors) = info_accessors {E = Fault} i h in rw (kind, pid) refl

  pub add_streams-enter_all :
      (s : Pass S D) (is : List Pmt.Item)
      → All IsReadableItem is
      → add_streams S D p (record { data' = sect }) s is
        ≡ enter_all S D s (map (stream_entry p.pid sect) is)
  unfolding add_streams enter_all
  add_streams-enter_all s [] h = refl
  add_streams-enter_all s (i ∷ is) (h, hs) =
      rw (add_stream-enter s i h) (
        bind_ext (enter S D s (stream_entry p.pid sect i)) _ _ (λ t. add_streams-enter_all t is hs))

module _ {B : ℕ → Type 0} {C F : Type 0} (S : FixedBitSet B) (sets : SetLaws S)
    (D : DemuxContext C F) (laws : ContextLaws D) (steady : IsSteady D) (fs : Filters F) where
  -- A section with the table id of a PMT that `from_bytes` accepts, read in a context that makes
  -- filters and takes reports without touching its queue of changes: the processor returns, with its
  -- PID, and the PIDs registered are those of the streams of the section. Once the queue is applied,
  -- each of these PIDs has a filter, each other PID that was registered has none, and the rest are
  -- as the queue had left them.
  pub pmt_new_table-Places :
      (p : PmtProcessor B) (c : C) (header : SectionCommonHeader) (sect : List ℕ)
      → header.table_id ≡ 2
      → IsBytes sect
      → 4 + length_at sect 2 ≤ length sect
      → (is : List Pmt.Item) × (p' : PmtProcessor B) × (c' : C) × (Pmt.streams
            (record { data' = sect })
          ≡ ok is)
        × (pmt_new_table S D p c header (record { data' = sect }) ≡ ok (p', c'))
        × (p'.pid ≡ p.pid)
        × ((q : ℕ) → sets.member p'.filters_registered q ≡ carried q is)
        × ((q : ℕ)
            → Places
                (carried q is)
                (found D laws fs c' q)
                (if sets.member p.filters_registered q then none else found D laws fs c q))
  unfolding pmt_new_table
  pmt_new_table-Places p c header sect t bytes n =
      let (is, e, all) = streams_return sect bytes n in
      let (t', c', entered, done, seen, k) =
        enter_all-Places S sets D laws steady fs p.filters_registered c
          (map (stream_entry p.pid sect) is) (λ q. carried q is)
          (λ q. named-carried p.pid sect q is) (stream_entry-IsPidEntry p.pid sect is all) in
      (
        is,
        record p { filters_registered = t'.1 },
        c',
        e,
        rw
            (
              t,
              e,
              add_streams-enter_all S D p sect (p.filters_registered, S.with_capacity pid_count, c)
                  is all,
              entered,
              done,
            )
            refl,
        refl,
        seen,
        k,
      )
