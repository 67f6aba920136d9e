-- ===== src/Psi/CrcCheck.antt =====
-- src/psi/mod.rs: `CrcCheckWholeSectionSyntaxPayloadParser`, which passes on the sections whose CRC
-- is right. The feature `fuzzing` is off.
use mpeg2ts_reader.Base.{
  ℕ, ◌+◌, ◌≤◌, ◌≡◌, refl, arith, Bool, true, false, not, ltb, ◌==◌, if◌then◌else◌, List, ◌++◌,
  length, length-append,
}
use mpeg2ts_reader.Base.{ok, assert, ◌>>=◌, ◌>>◌}
use mpeg2ts_reader.Packet.Fields.{Pid}
use mpeg2ts_reader.Error.{ErrorSink, crc_check_failed, section_too_small_for_crc}
use mpeg2ts_reader.Base.Bits.{IsBytes}
use mpeg2ts_reader.Crc.{sum32}
use mpeg2ts_reader.Crc.Division.{crc_reference}
use mpeg2ts_reader.Crc.Reference.{crc_bytes, sum32-crc_reference, sum32_residue}
use mpeg2ts_reader.Psi.Section.{
  Fault, SectionCommonHeader, TableSyntaxHeader, Run, common_size, syntax_size,
}
use mpeg2ts_reader.Psi.Syntax.{WholeSectionParser}

abbrev pub crc_size : ℕ
crc_size = 4

pub record Checked (P : Type 0) : Type 0 where
  pub pid : Pid
  pub inner : P

select :
    {A : Type 0} (x y z : A) (a b : Bool)
    → (if a then x else if not b then y else z) ≡ (if a then x else if b then z else y)
select x y z true b = refl
select x y z false true = refl
select x y z false false = refl

module _ {P C : Type 0} (sink : ErrorSink C) (w : WholeSectionParser P C) where
  -- What follows the checks.
  unfoldable pub pass :
      Checked P → C → SectionCommonHeader → TableSyntaxHeader → List ℕ → Run (Checked P × C)
  pass p c header table_syntax_header data' = do
    (inner', c') ← w.section p.inner c header table_syntax_header data'
    ok (record p { inner = inner' }, c')

  unfoldable pub section :
      Checked P → C → SectionCommonHeader → TableSyntaxHeader → List ℕ → Run (Checked P × C)
  section p c header table_syntax_header data' = do
    assert header.section_syntax_indicator
    if ltb (length data') (common_size + syntax_size + crc_size)
        then ok (p, sink.error c (section_too_small_for_crc p.pid header.table_id (length data')))
        else sum32 data' >>= λ sum.
            if not (sum == 0)
            then ok (p, sink.error c (crc_check_failed p.pid header.table_id))
            else pass p c header table_syntax_header data'

  unfoldable pub reset : Checked P → Checked P
  reset p = record p { inner = w.reset p.inner }

  abbrev pub parser : WholeSectionParser (Checked P) C
  parser = record { section = section; reset = reset }

  -- With the section syntax indicator set, on bytes: the wrapped parser is called with the section,
  -- and its new state is kept, exactly where the section has room for both headers and a CRC and its
  -- bit-serial CRC is 0; else there is one report, and the wrapped parser is left alone.
  pub section-crc_reference :
      (p : Checked P) (c : C) (h : SectionCommonHeader) (t : TableSyntaxHeader) (data' : List ℕ)
      → h.section_syntax_indicator ≡ true
      → IsBytes data'
      → section p c h t data' ≡ (
          if ltb (length data') 12
          then ok (p, sink.error c (section_too_small_for_crc p.pid h.table_id (length data')))
          else if crc_reference 0xffff_ffff data' == 0
          then (w.section p.inner c h t data' >>= λ r. ok (record p { inner = r.0 }, r.1))
          else ok (p, sink.error c (crc_check_failed p.pid h.table_id)))
  unfolding section pass
  section-crc_reference p c h t data' e bytes =
      rw (e, sum32-crc_reference {E = Fault} data' bytes)
        (select _ _ _ (ltb (length data') 12) (crc_reference 0xffff_ffff data' == 0))

  -- With the section syntax indicator set, for a section that ends with the CRC of its other bytes,
  -- 8 or more of them, the wrapped parser is called with the whole section, and its new state is
  -- kept.
  pub section-crc_bytes :
      (p : Checked P) (c : C) (h : SectionCommonHeader) (t : TableSyntaxHeader) (body : List ℕ)
      → h.section_syntax_indicator ≡ true
      → IsBytes body
      → 8 ≤ length body
      → section p c h t (body ++ crc_bytes (crc_reference 0xffff_ffff body)) ≡ (
          w.section p.inner c h t (body ++ crc_bytes (crc_reference 0xffff_ffff body)) >>= λ r.
          ok (record p { inner = r.0 }, r.1))
  unfolding section crc_bytes pass
  section-crc_bytes p c h t body e bytes long =
      let crc = crc_reference 0xffff_ffff body in
      rw (e, sum32_residue {E = Fault} body bytes)
        (ground (arith, length-append body (crc_bytes crc)))
