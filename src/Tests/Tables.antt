-- ===== src/Tests/Tables.antt =====
-- Tests of the filters for tables of src/demultiplex.rs.
use mpeg2ts_reader.Base.{ok, arith, true, false, none, ◌≡◌, ℕ, refl, if◌then◌else◌, List, [], ◌∷◌}
use mpeg2ts_reader.Packet.Fields.{Pid}
use mpeg2ts_reader.Psi.Section.{SectionCommonHeader}
use mpeg2ts_reader.Psi.Pmt
use mpeg2ts_reader.Psi.Framer.Invariant.{IsValid}
use mpeg2ts_reader.Psi.Framer.Feed.{Feeds}
use mpeg2ts_reader.Demultiplex.Tables.{pat_section, pmt_section}
use mpeg2ts_reader.Demultiplex.Tables.{PmtProcessor, pmt_new_table}
use mpeg2ts_reader.Demultiplex.Tables.Places.{occurs, Places}
use mpeg2ts_reader.Demultiplex.Tables.Entries.{found}
use mpeg2ts_reader.Demultiplex.Tables.Effects.{carried, pmt_new_table-Places}
use mpeg2ts_reader.Demultiplex.TableFilters.{
  TsdtConsumer, tsdt_section, processor, consumer_mode, new_pat_filter, consume_pat, new_pmt_filter,
  consume_pmt, new_tsdt_filter, consume_tsdt,
}
use mpeg2ts_reader.Demultiplex.TableFilters.Safety.{
  consume_pat-Feeds, consume_pmt-Feeds, consume_tsdt-Feeds,
}
use mpeg2ts_reader.Tests.Packets.{packet, packet-IsPacket}
use mpeg2ts_reader.Tests.Streams.{
  Ctx, counting, counting-laws, counting-IsSteady, quiet, Bits, two_pids, bits, bits-laws, table,
}

pat_filter-IsValid :
    IsValid
      (consumer_mode counting (processor (pat_section bits counting)))
      (new_pat_filter bits counting)
unfolding new_pat_filter
pat_filter-IsValid = record { bytes = tt; fits = refl }

consume_pat-Feeds_example :
    Feeds
      (consumer_mode counting (processor (pat_section bits counting)))
      (new_pat_filter bits counting)
      (consume_pat bits counting (new_pat_filter bits counting) quiet packet)
consume_pat-Feeds_example =
    consume_pat-Feeds bits counting bits-laws (new_pat_filter bits counting) quiet packet
      packet-IsPacket pat_filter-IsValid

abbrev pmt_pid : Pid
pmt_pid = record { val = 0x100 }

pmt_filter-IsValid :
    IsValid
      (consumer_mode counting (processor (pmt_section bits counting)))
      (new_pmt_filter bits counting pmt_pid)
unfolding new_pmt_filter
pmt_filter-IsValid = record { bytes = tt; fits = refl }

consume_pmt-Feeds_example :
    Feeds
      (consumer_mode counting (processor (pmt_section bits counting)))
      (new_pmt_filter bits counting pmt_pid)
      (consume_pmt bits counting (new_pmt_filter bits counting pmt_pid) quiet packet)
consume_pmt-Feeds_example =
    consume_pmt-Feeds bits counting bits-laws (new_pmt_filter bits counting pmt_pid) quiet packet
      packet-IsPacket pmt_filter-IsValid

-- A consumer that keeps the tables.
abbrev tables : TsdtConsumer (List (List ℕ)) Ctx
tables = record { tsdt = λ s c h data'. (data' ∷ s, c) }

tsdt_filter-IsValid :
    IsValid
      (consumer_mode counting (processor (tsdt_section counting tables)))
      (new_tsdt_filter counting tables [])
unfolding new_tsdt_filter
tsdt_filter-IsValid = record { bytes = tt; fits = refl }

consume_tsdt-Feeds_example :
    Feeds
      (consumer_mode counting (processor (tsdt_section counting tables)))
      (new_tsdt_filter counting tables [])
      (consume_tsdt counting tables (new_tsdt_filter counting tables []) quiet packet)
consume_tsdt-Feeds_example =
    consume_tsdt-Feeds counting tables (new_tsdt_filter counting tables []) quiet packet
      packet-IsPacket tsdt_filter-IsValid

-- A table with one stream of type 0x1b on the PID 0x101.
abbrev pmt_bytes : List ℕ
pmt_bytes = 0xe1 ∷ 0x01 ∷ 0xf0 ∷ 0x00 ∷ 0x1b ∷ 0xe1 ∷ 0x01 ∷ 0xf0 ∷ 0x00 ∷ []

abbrev earlier : PmtProcessor Bits
earlier = record { pid = pmt_pid; filters_registered = two_pids }

abbrev pmt_header : SectionCommonHeader
pmt_header = record {
  table_id = 2;
  section_syntax_indicator = true;
  private_indicator = false;
  section_length = 18;
}

-- The stream on PID 0x100 is gone, the one on 0x101 goes on.
pmt_new_table-Places_example :
    (is : List Pmt.Item) × (p' : PmtProcessor Bits) × (c' : Ctx) × (Pmt.streams
        (record { data' = pmt_bytes })
      ≡ ok is)
    × (pmt_new_table bits counting earlier quiet pmt_header (record { data' = pmt_bytes })
        ≡ ok (p', c'))
    × (p'.pid ≡ pmt_pid)
    × ((q : ℕ) → occurs q p'.filters_registered.bits ≡ carried q is)
    × ((q : ℕ)
        → Places (carried q is) (found counting counting-laws table c' q) (
            if occurs q (0x100 ∷ 0x101 ∷ [])
            then none
            else found counting counting-laws table quiet q))
pmt_new_table-Places_example =
    pmt_new_table-Places bits bits-laws counting counting-laws counting-IsSteady table earlier quiet
      pmt_header pmt_bytes refl
      (
        omega arith,
        (
          omega arith,
          (
            omega arith,
            (
              omega arith,
              (omega arith, (omega arith, (omega arith, (omega arith, (omega arith, tt))))),
            ),
          ),
        ),
      )
      (omega arith)
