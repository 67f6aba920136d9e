-- ===== src/Psi/Framer.antt =====
-- src/psi/mod.rs: `Framer`, which takes the payloads of one PID apart into sections.
pub mod Invariant
pub mod Rounds
pub mod Feed
pub mod Stream
pub mod Reassembly
pub mod Chunks
use mpeg2ts_reader.Base.{
  ℕ, zero, suc, ◌+◌, ◌-◌, ◌*◌, min, Bool, true, false, not, ◌&&◌, leb, ltb, ◌==◌, if◌then◌else◌,
  List, [], ◌∷◌, ◌++◌, take, drop, length, Option, none, some,
}
use mpeg2ts_reader.Base.{
  Outcome, ok, err, panic, assert, index, slice_range, slice_from, ◌>>=◌, ◌>>◌,
}
use mpeg2ts_reader.Packet.Fields.{Pid, PacketError}
use mpeg2ts_reader.Packet.Header.{Packet, payload, payload_unit_start_indicator}
use mpeg2ts_reader.Error.{
  ErrorSink, section_header_too_short, psi_pointer_out_of_bounds, extra_data_after_section_complete,
  no_payload_in_psi_packet, malformed_payload,
}
use mpeg2ts_reader.Psi.Section.{
  SectionCommonHeader, Run, Fault, out_of_fuel, new_common, common_size, stuffing_byte,
}
use mpeg2ts_reader.Psi.Syntax.{SectionSyntax}

pub data FramerState : Type 0 where
  idle : FramerState
  -- the number of bytes to collect
  collecting : ℕ → FramerState
  -- the number of bytes still to skip
  ignoring : ℕ → FramerState

pub record Framer (Parser : Type 0) : Type 0 where
  pub pid : Pid
  pub buf : List ℕ
  pub state : FramerState
  pub parser : Parser
  pub synced : Bool

abbrev pub is_idle : FramerState → Bool
is_idle idle = true
is_idle (collecting target) = false
is_idle (ignoring remaining) = false

abbrev pub new : {P : Type 0} → Pid → P → Framer P
new pid parser = record { pid = pid; buf = []; state = idle; parser = parser; synced = false }

-- One round of the loop in `feed`: `return`, or on with what is left of `bytes`.
pub data Round (P C : Type 0) : Type 0 where
  stop : Framer P → C → Round P C
  again : Framer P → C → List ℕ → Round P C

-- A `usize` subtraction, which must not go below zero.
abbrev pub sub : {E : Type 0} → ℕ → ℕ → Outcome E ℕ
sub a b = if leb b a then ok (a - b) else panic

module _ {P C : Type 0} (S : SectionSyntax P C) where
  -- A rejected header: the rest of the body is skipped, as far as it is at hand.
  unfoldable pub skip_body : Framer P → C → List ℕ → ℕ → Run (Round P C)
  skip_body f c bytes total = do
    let skip = min total (length bytes)
    rest ← slice_from bytes skip
    ok (again (if ltb skip total then record f { state = ignoring (total - skip) } else f) c rest)

  -- The header is accepted: deliver the section, or keep what there is of it.
  unfoldable pub take_section : Framer P → C → List ℕ → SectionCommonHeader → ℕ → Run (Round P C)
  take_section f c bytes h total = do
    let whole : Run (Round P C) = do
      section ← slice_range bytes 0 total
      rest ← slice_from bytes total
      (q, c') ← S.deliver_section f.parser c h section
      ok (again (record f { parser = q }) c' rest)
    if leb total (length bytes)
        then whole
        else ok (stop (record f { buf = bytes; state = collecting total }) c)

  -- The match arm `Idle`.
  unfoldable pub feed_idle : Framer P → C → List ℕ → Run (Round P C)
  feed_idle f c bytes = do
    b0 ← index bytes 0
    let start : Run (Round P C) = do
      first ← slice_range bytes 0 common_size
      h ← new_common first
      let total = common_size + h.section_length
      let (c', valid) = S.validate_header f.pid c h
      if not valid then skip_body f c' bytes total else take_section f c' bytes h total
    if b0 == stuffing_byte
        then ok (stop f c)
        else if leb common_size (length bytes)
        then start
        else ok (stop (record f { buf = bytes; state = collecting common_size }) c)

  -- The buffer holds a whole header: go on to the full section.
  unfoldable pub promote : Framer P → C → List ℕ → Run (Round P C)
  promote f c bytes = do
    first ← slice_range f.buf 0 common_size
    h ← new_common first
    let full_len = common_size + h.section_length
    let (c', valid) = S.validate_header f.pid c h
    let deliver : Run (Round P C) = do
      (q, c'') ← S.deliver_section f.parser c' h f.buf
      ok (again (record f { buf = []; state = idle; parser = q }) c'' bytes)
    if not valid
        then ok (again (record f { buf = []; state = ignoring h.section_length }) c' bytes)
        else if full_len == common_size
        then deliver
        else ok (again (record f { state = collecting full_len }) c' bytes)

  -- The buffer holds a whole section.
  unfoldable pub complete : Framer P → C → ℕ → List ℕ → Run (Round P C)
  complete f c target bytes = do
    first ← slice_range f.buf 0 common_size
    h ← new_common first
    section ← slice_range f.buf 0 target
    (q, c') ← S.deliver_section f.parser c h section
    ok (again (record f { buf = []; state = idle; parser = q }) c' bytes)

  -- The match arm `Collecting`.
  unfoldable pub feed_collecting : Framer P → C → ℕ → List ℕ → Run (Round P C)
  feed_collecting f c target bytes = do
    needed ← sub target (length f.buf)
    let n = min needed (length bytes)
    first ← slice_range bytes 0 n
    rest ← slice_from bytes n
    let f' = record f { buf = f.buf ++ first }
    if (length f'.buf == target) && (target == common_size)
        then promote f' c rest
        else if length f'.buf == target
        then complete f' c target rest
        else ok (again f' c rest)

  -- The match arm `Ignoring`.
  unfoldable pub feed_ignoring : Framer P → C → ℕ → List ℕ → Run (Round P C)
  feed_ignoring f c remaining bytes = do
    let n = min remaining (length bytes)
    rest ← slice_from bytes n
    let state' = if n == remaining then idle else ignoring (remaining - n)
    ok (again (record f { state = state' }) c rest)

  unfoldable pub round_in : FramerState → Framer P → C → List ℕ → Run (Round P C)
  round_in idle f c bytes = feed_idle f c bytes
  round_in (collecting target) f c bytes = feed_collecting f c target bytes
  round_in (ignoring remaining) f c bytes = feed_ignoring f c remaining bytes

  -- The loop of `feed`, on fuel.
  unfoldable pub feed_loop : ℕ → Framer P → C → List ℕ → Run (Framer P × C)
  feed_loop fuel f c [] = ok (f, c)
  feed_loop zero f c (b ∷ bs) = err out_of_fuel
  feed_loop (suc fuel) f c (b ∷ bs) = round_in f.state f c (b ∷ bs) >>= λ r. elim r [
    | stop f' c' ↦ ok (f', c')
    | again f' c' bytes ↦ feed_loop fuel f' c' bytes
  ]

  -- Each round takes a byte, but for the round that leaves `Ignoring { remaining: 0 }`, so two rounds
  -- for a byte are enough, and one for the start.
  unfoldable pub feed : Framer P → C → List ℕ → Run (Framer P × C)
  feed f c bytes = feed_loop (2 * length bytes + 1) f c bytes

  unfoldable pub reset : Framer P → Framer P
  reset f = record f { buf = []; state = idle; parser = S.reset_parser f.parser }

  -- What is still in progress where a new section starts is given up.
  unfoldable pub settle : Framer P → C → Framer P × C
  settle f c =
      if not (is_idle f.state)
      then (reset f, S.error.error c (extra_data_after_section_complete f.pid))
      else (f, c)

  -- A packet with payload_unit_start_indicator, its payload not empty.
  unfoldable pub consume_start : Framer P → C → ℕ → List ℕ → Run (Framer P × C)
  consume_start f c pointer section_data = do
    before ← slice_range section_data 0 pointer
    (g, d) ←
        (if f.synced && ltb 0 pointer && not (is_idle f.state) then feed f c before else ok (f, c))
    let (g', d') = settle g d
    rest ← slice_from section_data pointer
    feed (record g' { synced = true }) d' rest

  unfoldable pub consume_payload : Framer P → C → Bool → List ℕ → Run (Framer P × C)
  consume_payload f c true [] = ok (reset f, S.error.error c (section_header_too_short f.pid))
  consume_payload f c true (pointer ∷ section_data) =
      if ltb (length section_data) pointer
      then ok (reset f, S.error.error c (psi_pointer_out_of_bounds f.pid))
      else consume_start f c pointer section_data
  consume_payload f c false pk_buf =
      if f.synced
      then (if is_idle f.state
          then ok (f, S.error.error c (extra_data_after_section_complete f.pid))
          else feed f c pk_buf)
      else ok (f, c)

  -- What `consume` does with the result of `pk.payload()`.
  unfoldable pub on_payload :
      Framer P → C → Packet → Outcome PacketError (Option (List ℕ)) → Run (Framer P × C)
  on_payload f c pk (ok (some pk_buf)) = do
    pusi ← payload_unit_start_indicator pk
    consume_payload f c pusi pk_buf
  on_payload f c pk (ok none) = ok (f, S.error.error c (no_payload_in_psi_packet f.pid))
  on_payload f c pk (err e) = ok (f, S.error.error c (malformed_payload f.pid e))
  on_payload f c pk panic = panic

  unfoldable pub consume : Framer P → C → Packet → Run (Framer P × C)
  consume f c pk = on_payload f c pk (payload pk)
