-- ===== src/Demultiplex/TableFilters/Safety.antt =====
-- src/demultiplex.rs: the filters for tables never panic, whatever packets they are given.
use mpeg2ts_reader.Base.{
  ℕ, ◌+◌, ◌-◌, ◌≤◌, ◌<◌, ◌≡◌, refl, arith, true, not, ltb, le→leb, ltb→le, ◌==◌, ==_refl, ◌⊎◌, inl,
  inr, List, [], ◌∷◌, length, take, drop, length-drop, All,
}
use mpeg2ts_reader.Base.{
  ok, err, panic, slice_range, slice_range_lem, slice_from_lem, Ends, Ends-if, Ends-bind,
}
use mpeg2ts_reader.Base.Bits.{IsBytes, IsBytes-take, IsBytes-drop}
use mpeg2ts_reader.Packet.Fields.{Pid, pid_count}
use mpeg2ts_reader.Error.{PmtError, pmt_parse_error}
use mpeg2ts_reader.Packet.Header.{Packet}
use mpeg2ts_reader.Packet.Payload.{IsPacket}
use mpeg2ts_reader.Crc.Division.{crc_reference}
use mpeg2ts_reader.Psi.Section.{Fault, SectionCommonHeader, TableSyntaxHeader, new_syntax, version}
use mpeg2ts_reader.Psi.Section.Facts.{header_of, section_length-header_of, table_syntax_header_lem}
use mpeg2ts_reader.Psi.Syntax.{
  WholeSectionParser, section_syntax_mode-laws, deliver_syntax, validate_syntax,
}
use mpeg2ts_reader.Psi.Framer.{sub}
use mpeg2ts_reader.Psi.Framer.Invariant.{IsValid, Delivers}
use mpeg2ts_reader.Psi.Framer.Feed.{Feeds, consume-Feeds}
use mpeg2ts_reader.Psi.Dedup
use mpeg2ts_reader.Psi.CrcCheck
use mpeg2ts_reader.Psi.Pat.Codec.{programs-total}
use mpeg2ts_reader.Psi.Pmt
use mpeg2ts_reader.Psi.Pmt.Readable.{length_at}
use mpeg2ts_reader.Psi.Pmt.Bounds.{from_bytes_cases, streams_return}
use mpeg2ts_reader.Demultiplex.Context.{DemuxContext, sink_of}
use mpeg2ts_reader.Demultiplex.Tables.Places.{occurs, SetLaws, new_pid_lem, or_true}
use mpeg2ts_reader.Demultiplex.Tables.Entries.{
  Entry, IsPidEntry, enter, enter_all, register-Ends, difference-lt,
}
use mpeg2ts_reader.Demultiplex.Tables.Effects.{
  add_programs-enter_all, program_entry-IsPidEntry, add_streams-enter_all, stream_entry-IsPidEntry,
}
use mpeg2ts_reader.Demultiplex.Tables.{
  FixedBitSet, PatProcessor, PmtProcessor, Pass, queue_remove, remove_all, pat_new_table,
  pat_section, pmt_new_table, pmt_section, section_length_limit,
}
use mpeg2ts_reader.Demultiplex.TableFilters.{
  TsdtConsumer, tsdt_section, processor, PacketFilterConsumer, consumer_mode, consume_pat,
  consume_pmt, consume_tsdt,
}

-- The processor returns for every section that has room for its two headers and its CRC.
abbrev pub Returns : {P C : Type 0} → WholeSectionParser P C → Type 0
Returns {P} {C} w =
    (p : P) (c : C) (h : SectionCommonHeader) (t : TableSyntaxHeader) (data' : List ℕ)
    → 12 ≤ length data'
    → IsBytes data'
    → Ends (w.section p c h t data')

module _ {P C F : Type 0} (D : DemuxContext C F) (w : WholeSectionParser P C)
    (returns : Returns w) where
  checked_returns :
      (p : CrcCheck.Checked P) (c : C) (h : SectionCommonHeader) (t : TableSyntaxHeader)
      (data' : List ℕ)
      → h.section_syntax_indicator ≡ true
      → IsBytes data'
      → Ends (CrcCheck.section (sink_of D) w p c h t data')
  checked_returns p c h t data' on bytes =
      rw (CrcCheck.section-crc_reference (sink_of D) w p c h t data' on bytes) (
        Ends-if (ltb (length data') 12) _ _ (λ short. (_, refl))
          (λ long.
            Ends-if (crc_reference 0xffff_ffff data' == 0) _ _
              (λ right.
                Ends-bind (w.section p.inner c h t data') _
                  (returns p.inner c h t data' (ltb→le (length data') 12 long) bytes)
                  (λ r e. (_, refl)))
              (λ wrong. (_, refl))))

  deduplicated_returns :
      (p : Dedup.Deduplicated (CrcCheck.Checked P)) (c : C) (h : SectionCommonHeader)
      (t : TableSyntaxHeader) (data' : List ℕ)
      → 5 ≤ length t.buf
      → IsBytes t.buf
      → h.section_syntax_indicator ≡ true
      → IsBytes data'
      → Ends (Dedup.section (CrcCheck.parser (sink_of D) w) p c h t data')
  unfolding Dedup.section
  deduplicated_returns p c h t data' five tb on bytes =
      Ends-bind (version t) _ (_, (table_syntax_header_lem t five tb).1)
        (λ v e.
          Ends-if (Dedup.is_last p.last_version v) _ _ (λ same. (_, refl))
            (λ new.
              Ends-bind (CrcCheck.section (sink_of D) w p.inner c h t data') _
                (checked_returns p.inner c h t data' on bytes) (λ r e'. (_, refl))))

  -- What `validate_header` of the section syntax accepts.
  accepted_syntax :
      (pid : Pid) (c : C) (h : SectionCommonHeader)
      → (validate_syntax (sink_of D) pid c h).1 ≡ true
      → (h.section_syntax_indicator ≡ true) × (5 ≤ h.section_length)
  unfolding validate_syntax
  accepted_syntax pid c h e = ground arith

  pub consumer_mode-Delivers : (pid : Pid) → Delivers (consumer_mode D w) pid
  unfolding deliver_syntax new_syntax
  consumer_mode-Delivers pid q c sect s =
      let (on, five) = accepted_syntax pid c (header_of sect) (s.accepted c) in
      let len = section_length-header_of sect in
      let eight : 8 ≤ length sect = omega (arith, five, len, s.whole) in
      let rest : 5 ≤ length (drop 3 sect) = omega (arith, eight, length-drop 3 sect) in
      rw
        (
          slice_from_lem {E = Fault} sect 3 (omega (arith, eight)),
          le→leb 5 (length (drop 3 sect)) rest,
        )
        (deduplicated_returns q c (header_of sect) (record { buf = drop 3 sect }) sect rest
          (IsBytes-drop 3 sect s.bytes) on s.bytes)

-- The bytes between the two headers and the CRC.
body_lem :
    (data' : List ℕ)
    → 12 ≤ length data'
    → (sub {E = Fault} (length data') 4 ≡ ok (length data' - 4))
      × (slice_range {E = Fault} data' 8 (length data' - 4)
          ≡ ok (take (length data' - 4 - 8) (drop 8 data')))
body_lem data' n =
    (ground arith, slice_range_lem data' 8 (length data' - 4) (omega arith) (omega arith))

module _ {B : ℕ → Type 0} {C F : Type 0} (S : FixedBitSet B) (D : DemuxContext C F)
    (sets : SetLaws S) where
  remove_all_returns :
      (c : C) (ps : List ℕ) → ((q : ℕ) → occurs q ps ≡ true → q < 8192) → Ends (remove_all D c ps)
  unfolding remove_all
  remove_all_returns c [] h = (c, refl)
  remove_all_returns c (p ∷ ps) h =
      let small : p < 8192 = h p (rw (==_refl p) refl) in
      rw (new_pid_lem p small) (
        remove_all_returns (queue_remove D c (record { val = p })) ps
          (λ q r. h q (or_true (p == q) r)))

  outdated_returns : (c : C) (a b : B pid_count) → Ends (remove_all D c (S.difference a b))
  outdated_returns c a b = remove_all_returns c (S.difference a b) (difference-lt S sets a b)

  -- Entries whose PIDs fit a set of PIDs are all taken.
  enter_all_returns :
      (s : Pass S D) (is : List Entry) → All IsPidEntry is → Ends (enter_all S D s is)
  unfolding enter_all enter
  enter_all_returns s [] h = (s, refl)
  enter_all_returns s (inl e ∷ is) h = enter_all_returns (s.0, s.1, D.error s.2 e) is h.1
  enter_all_returns s (inr d ∷ is) h =
      let made = D.construct s.2 d.1 in
      let r = register-Ends S sets D s d.0 made.0 made.1 h.0 in
      rw (r.1) (enter_all_returns r.0 is h.1)

  pat_section-Returns : Returns (processor (pat_section S D))
  unfolding pat_section pat_new_table
  pat_section-Returns p c h t data' n bytes =
      Ends-if (ltb section_length_limit h.section_length) _ _ (λ big. (_, refl))
        (λ fits.
          rw ((body_lem data' n).0, (body_lem data' n).1)
            (Ends-if (not (0x00 == h.table_id)) _ _ (λ other. (_, refl))
              (λ pat.
                let body = take (length data' - 4 - 8) (drop 8 data') in
                let (is, e, all) =
                  programs-total body
                    (IsBytes-take _ (drop 8 data') (IsBytes-drop 8 data' bytes)) in
                rw (e, add_programs-enter_all S D _ is)
                  (Ends-bind (enter_all S D _ _) _
                    (enter_all_returns _ _ (program_entry-IsPidEntry is all))
                    (λ t k.
                      Ends-bind (remove_all D _ _) _ (outdated_returns _ _ _)
                        (λ c' r. (_, refl)))))))

  pmt_new_table_returns :
      (p : PmtProcessor B) (c : C) (h : SectionCommonHeader) (body : List ℕ)
      → IsBytes body
      → 4 + length_at body 2 ≤ length body
      → Ends (pmt_new_table S D p c h (record { data' = body }))
  unfolding pmt_new_table
  pmt_new_table_returns p c h body bytes n =
      Ends-if (not (0x02 == h.table_id)) _ _ (λ other. (_, refl))
        (λ pmt.
          let (is, e, all) = streams_return body bytes n in
          rw e (
            rw (add_streams-enter_all S D p body _ is all) (
              Ends-bind (enter_all S D _ _) _
                (enter_all_returns _ _ (stream_entry-IsPidEntry p.pid body is all))
                (λ t r.
                  Ends-bind (remove_all D _ _) _ (outdated_returns _ _ _) (λ c' r'. (_, refl))))))

  dispatch_returns :
      (p : PmtProcessor B) (c : C) (h : SectionCommonHeader) (body : List ℕ)
      → IsBytes body
      → ((e : PmtError) × (Pmt.from_bytes body ≡ err e))
        ⊎ (4 + length_at body 2 ≤ length body)
          × (Pmt.from_bytes body ≡ ok (record { data' = body }))
      → Ends (elim (Pmt.from_bytes body) [
        | ok sect ↦ pmt_new_table S D p c h sect
        | err e ↦ ok (p, D.error c (pmt_parse_error p.pid e))
        | panic ↦ panic
      ])
  dispatch_returns p c h body bytes (inl (e, r)) = rw r (_, refl)
  dispatch_returns p c h body bytes (inr (n, r)) = rw r (pmt_new_table_returns p c h body bytes n)

  pmt_section-Returns : Returns (processor (pmt_section S D))
  unfolding pmt_section
  pmt_section-Returns p c h t data' n bytes =
      let body = take (length data' - 4 - 8) (drop 8 data') in
      let small = IsBytes-take (length data' - 4 - 8) (drop 8 data') (IsBytes-drop 8 data' bytes) in
      Ends-if (ltb section_length_limit h.section_length) _ _ (λ big. (_, refl))
        (λ fits.
          rw ((body_lem data' n).0, (body_lem data' n).1)
            (dispatch_returns p c h body small (from_bytes_cases body small)))

  -- For bit sets as the crate documents them, whose `insert` panics out of bounds, any valid filter of
  -- the Program Association Table and any whole packet with its sync byte: the filter returns, without a panic and within its fuel,
  -- and its framer stays valid and keeps its PID.
  pub consume_pat-Feeds :
      (f : PacketFilterConsumer (PatProcessor B)) (c : C) (pk : Packet)
      → IsPacket pk
      → IsValid (consumer_mode D (processor (pat_section S D))) f
      → Feeds (consumer_mode D (processor (pat_section S D))) f (consume_pat S D f c pk)
  unfolding consume_pat
  consume_pat-Feeds f c pk whole v =
      let w = processor (pat_section S D) in
      consume-Feeds (consumer_mode D w) (section_syntax_mode-laws (sink_of D) _) f c pk whole
        (consumer_mode-Delivers D w pat_section-Returns f.pid) v

  -- For bit sets as the crate documents them, whose `insert` panics out of bounds, any valid filter of
  -- a Program Map Table and any whole packet with its sync byte: the filter returns, without a panic and within its fuel, and its
  -- framer stays valid and keeps its PID.
  pub consume_pmt-Feeds :
      (f : PacketFilterConsumer (PmtProcessor B)) (c : C) (pk : Packet)
      → IsPacket pk
      → IsValid (consumer_mode D (processor (pmt_section S D))) f
      → Feeds (consumer_mode D (processor (pmt_section S D))) f (consume_pmt S D f c pk)
  unfolding consume_pmt
  consume_pmt-Feeds f c pk whole v =
      let w = processor (pmt_section S D) in
      consume-Feeds (consumer_mode D w) (section_syntax_mode-laws (sink_of D) _) f c pk whole
        (consumer_mode-Delivers D w pmt_section-Returns f.pid) v

module _ {T C F : Type 0} (D : DemuxContext C F) (w : TsdtConsumer T C) where
  tsdt_section-Returns : Returns (processor (tsdt_section D w))
  unfolding tsdt_section
  tsdt_section-Returns p c h t data' n bytes =
      Ends-if (not (h.table_id == 0x03)) _ _ (λ other. (_, refl))
        (λ tsdt.
          Ends-if (ltb section_length_limit h.section_length) _ _ (λ big. (_, refl))
            (λ fits. rw ((body_lem data' n).0, (body_lem data' n).1) (_, refl)))

  -- For any consumer, any valid filter of the Transport Stream Description Table and any whole
  -- packet with its sync byte: the filter returns, without a panic and within its fuel, and its
  -- framer stays valid and keeps its PID.
  pub consume_tsdt-Feeds :
      (f : PacketFilterConsumer T) (c : C) (pk : Packet)
      → IsPacket pk
      → IsValid (consumer_mode D (processor (tsdt_section D w))) f
      → Feeds (consumer_mode D (processor (tsdt_section D w))) f (consume_tsdt D w f c pk)
  unfolding consume_tsdt
  consume_tsdt-Feeds f c pk whole v =
      let p = processor (tsdt_section D w) in
      consume-Feeds (consumer_mode D p) (section_syntax_mode-laws (sink_of D) _) f c pk whole
        (consumer_mode-Delivers D p tsdt_section-Returns f.pid) v
