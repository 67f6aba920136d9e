-- ===== src/Tests/Refused.antt =====
-- Tests of src/psi/mod.rs: a refused section that is empty.
use mpeg2ts_reader.Base.{◌≡◌, refl, true, [], ◌∷◌}
use mpeg2ts_reader.Base.{ok, slice_range, slice_from}
use mpeg2ts_reader.Error.{unexpected_section_syntax_indicator, extra_data_after_section_complete}
use mpeg2ts_reader.Psi.Section.{new_common}
use mpeg2ts_reader.Psi.Syntax.{validate_compact}
use mpeg2ts_reader.Psi.Framer.{
  idle, collecting, ignoring, feed, feed_loop, round_in, feed_idle, feed_collecting, promote,
  consume_payload, consume_start, settle, reset,
}
use mpeg2ts_reader.Psi.Framer.Invariant.{framer_in}
use mpeg2ts_reader.Tests.Sections.{mode, table_pid}

-- The header of a section of length 0 is refused, and its last byte comes in a payload of its own: the
-- framer is left with nothing to skip, but not idle.
refused_empty :
    feed mode (framer_in table_pid (0x70 ∷ 0x80 ∷ []) (collecting 3) [] true) [] (0x00 ∷ [])
    ≡ ok (
      framer_in table_pid [] (ignoring 0) [] true,
      unexpected_section_syntax_indicator table_pid 0x70 ∷ [],
    )
unfolding feed feed_loop round_in feed_collecting promote slice_range slice_from new_common
    validate_compact
refused_empty = refl

-- The packet after that, in which a section begins at once, is reported as extra data.
refused_empty_reported :
    consume_payload mode (framer_in table_pid [] (ignoring 0) [] true) [] true (0x00 ∷ 0xff ∷ [])
    ≡ ok (framer_in table_pid [] idle [] true, extra_data_after_section_complete table_pid ∷ [])
unfolding consume_payload consume_start settle reset feed feed_loop round_in feed_idle slice_range
    slice_from
refused_empty_reported = refl
