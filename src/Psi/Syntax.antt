-- ===== src/Psi/Syntax.antt =====
-- src/psi/mod.rs: the interface `SectionSyntax` between the framer and the two kinds of section,
-- and its two implementations.
use mpeg2ts_reader.Base.{ℕ, ◌+◌, ◌≤◌, ◌≡◌, arith, Bool, true, false, not, ltb, if◌then◌else◌, List}
use mpeg2ts_reader.Base.{slice_from, ◌>>=◌}
use mpeg2ts_reader.Packet.Fields.{Pid}
use mpeg2ts_reader.Error.{
  ErrorSink, unexpected_section_syntax_indicator, psi_section_too_large, section_data_too_short,
}
use mpeg2ts_reader.Psi.Section.{
  SectionCommonHeader, TableSyntaxHeader, Run, common_size, syntax_size, section_limit, new_syntax,
}

-- `deliver_section` and `reset_parser` return the parser and the context that they change.
pub record SectionSyntax (Parser Context : Type 0) : Type 0 where
  pub validate_header : Pid → Context → SectionCommonHeader → Context × Bool
  pub deliver_section : Parser → Context → SectionCommonHeader → List ℕ → Run (Parser × Context)
  pub reset_parser : Parser → Parser
  pub error : ErrorSink Context

-- What the framer relies on: an accepted header leaves the context alone, and has a length within
-- the limit.
pub record SyntaxLaws {Parser Context : Type 0} (S : SectionSyntax Parser Context) : Type 0 where
  pub accepts :
      (pid : Pid) (c : Context) (h : SectionCommonHeader)
      → (S.validate_header pid c h).1 ≡ true
      → ((S.validate_header pid c h).0 ≡ c) × (h.section_length ≤ section_limit)
  pub steady :
      (pid : Pid) (c d : Context) (h : SectionCommonHeader)
      → (S.validate_header pid c h).1 ≡ (S.validate_header pid d h).1

-- `WholeSectionSyntaxPayloadParser`.
pub record WholeSectionParser (P C : Type 0) : Type 0 where
  pub section : P → C → SectionCommonHeader → TableSyntaxHeader → List ℕ → Run (P × C)
  pub reset : P → P

-- `WholeCompactSyntaxPayloadParser`.
pub record WholeCompactParser (P C : Type 0) : Type 0 where
  pub section : P → C → SectionCommonHeader → List ℕ → Run (P × C)
  pub reset : P → P

module _ {C : Type 0} (sink : ErrorSink C) where
  unfoldable pub validate_syntax : Pid → C → SectionCommonHeader → C × Bool
  validate_syntax pid c h =
      if not h.section_syntax_indicator
      then (sink.error c (unexpected_section_syntax_indicator pid h.table_id), false)
      else if ltb section_limit h.section_length
      then (
        sink.error c (psi_section_too_large pid h.table_id h.section_length section_limit),
        false,
      )
      else if ltb h.section_length syntax_size
      then (
        sink.error c (
            section_data_too_short pid h.table_id (common_size + h.section_length)
              (common_size + syntax_size)),
        false,
      )
      else (c, true)

  unfoldable pub validate_compact : Pid → C → SectionCommonHeader → C × Bool
  validate_compact pid c h =
      if h.section_syntax_indicator
      then (sink.error c (unexpected_section_syntax_indicator pid h.table_id), false)
      else if ltb section_limit h.section_length
      then (
        sink.error c (psi_section_too_large pid h.table_id h.section_length section_limit),
        false,
      )
      else (c, true)

unfoldable pub deliver_syntax :
    {P C : Type 0} → WholeSectionParser P C → P → C → SectionCommonHeader → List ℕ → Run (P × C)
unfolding new_syntax
deliver_syntax w parser c h data' = do
  rest ← slice_from data' common_size
  table_syntax_header ← new_syntax rest
  w.section parser c h table_syntax_header data'

module _ {P C : Type 0} (sink : ErrorSink C) where
  -- `SectionSyntaxMode`.
  abbrev pub section_syntax_mode : WholeSectionParser P C → SectionSyntax P C
  section_syntax_mode w = record {
    validate_header = validate_syntax sink;
    deliver_section = deliver_syntax w;
    reset_parser = w.reset;
    error = sink;
  }

  -- `CompactSyntaxMode`.
  abbrev pub compact_syntax_mode : WholeCompactParser P C → SectionSyntax P C
  compact_syntax_mode w = record {
    validate_header = validate_compact sink;
    deliver_section = w.section;
    reset_parser = w.reset;
    error = sink;
  }

  pub section_syntax_mode-laws : (w : WholeSectionParser P C) → SyntaxLaws (section_syntax_mode w)
  unfolding validate_syntax
  section_syntax_mode-laws w = record {
    accepts = λ pid c h e. ground arith;
    steady = λ pid c d h. ground arith;
  }

  pub compact_syntax_mode-laws : (w : WholeCompactParser P C) → SyntaxLaws (compact_syntax_mode w)
  unfolding validate_compact
  compact_syntax_mode-laws w = record {
    accepts = λ pid c h e. ground arith;
    steady = λ pid c d h. ground arith;
  }
