-- ===== src/Pes/Filter.antt =====
-- src/pes.rs: `PesPacketFilter`, which tells a consumer where PES packets begin, go on and end.
pub mod States
use mpeg2ts_reader.Base.{
  ℕ, Bool, true, false, not, ◌==◌, if◌then◌else◌, List, [], ◌∷◌, Option, none, some, length,
}
use mpeg2ts_reader.Base.{Outcome, ok, err, panic, ◌>>=◌}
use mpeg2ts_reader.Packet.Fields.{Pid, PacketError, ContinuityCounter, has_payload, follows, count}
use mpeg2ts_reader.Packet.Header.{
  Packet, adaptation_control, continuity_counter, payload_unit_start_indicator, pid, payload,
}
use mpeg2ts_reader.Error.{
  ErrorSink, pes_header_parse_error, malformed_payload, missing_payload_start_indicator,
}
use mpeg2ts_reader.Psi.Section.{Run}
use mpeg2ts_reader.Pes.Header.{PesHeader, pes_from_bytes}

-- `ElementaryStreamConsumer`, of the application.
pub record StreamConsumer (S C : Type 0) : Type 0 where
  pub start_stream : S → C → S × C
  pub begin_packet : S → C → PesHeader → S × C
  pub continue_packet : S → C → List ℕ → S × C
  pub end_packet : S → C → S × C
  pub continuity_error : S → C → S × C

pub data PesState : Type 0 where
  begin started ignore_rest : PesState

pub record PesPacketFilter (S : Type 0) : Type 0 where
  pub stream_consumer : S
  pub ccounter : Option ContinuityCounter
  pub state : PesState

unfoldable pub new_filter : {S : Type 0} → S → PesPacketFilter S
new_filter s = record { stream_consumer = s; ccounter = none; state = begin }

-- A counter that does not go on is a gap; it stands still where a packet has no payload.
unfoldable pub is_continuous : {S : Type 0} → PesPacketFilter S → Packet → Run Bool
is_continuous f pk = elim f.ccounter [
  | none ↦ ok true
  | some cc ↦ adaptation_control pk >>= λ ac. continuity_counter pk >>= λ counter.
      ok (if has_payload ac then follows counter cc else (count counter == count cc))
]

module _ {S C : Type 0} (w : StreamConsumer S C) (sink : ErrorSink C) where
  -- The payload of a packet in which a PES packet begins.
  unfoldable pub begin_payload :
      S → C → Packet → Outcome PacketError (Option (List ℕ)) → Run (S × C)
  begin_payload s c pk (ok (some data')) = elim (pes_from_bytes data') [
    | ok header ↦ ok (w.begin_packet s c header)
    | err e ↦ pid pk >>= λ p. ok (s, sink.error c (pes_header_parse_error p))
    | panic ↦ panic
  ]
  begin_payload s c pk (ok none) = ok (s, c)
  begin_payload s c pk (err e) = pid pk >>= λ p. ok (s, sink.error c (malformed_payload p e))
  begin_payload s c pk panic = panic

  -- The payload of a packet in which a PES packet goes on.
  unfoldable pub continue_payload :
      S → C → Packet → Outcome PacketError (Option (List ℕ)) → Run (S × C)
  continue_payload s c pk (ok (some [])) = ok (s, c)
  continue_payload s c pk (ok (some (b ∷ bs))) = ok (w.continue_packet s c (b ∷ bs))
  continue_payload s c pk (ok none) = ok (s, c)
  continue_payload s c pk (err e) = pid pk >>= λ p. ok (s, sink.error c (malformed_payload p e))
  continue_payload s c pk panic = panic

  -- What is told before the new packet begins.
  unfoldable pub before_begin : PesState → S → C → S × C
  before_begin started s c = w.end_packet s c
  before_begin begin s c = w.start_stream s c
  before_begin ignore_rest s c = (s, c)

  unfoldable pub consume_in : PesState → Bool → S → C → Packet → Run (PesState × S × C)
  consume_in st true s c pk = do
    let (s', c') = before_begin st s c
    (s'', c'') ← begin_payload s' c' pk (payload pk)
    ok (started, s'', c'')
  consume_in started false s c pk = do
    (s', c') ← continue_payload s c pk (payload pk)
    ok (started, s', c')
  consume_in begin false s c pk = do
    p ← pid pk
    ok (begin, s, sink.error c (missing_payload_start_indicator p))
  consume_in ignore_rest false s c pk = ok (ignore_rest, s, c)

  unfoldable pub consume_pes : PesPacketFilter S → C → Packet → Run (PesPacketFilter S × C)
  consume_pes f c pk = do
    continuous ← is_continuous f pk
    let st = if continuous then f.state else ignore_rest
    let (s', c') =
        if continuous then (f.stream_consumer, c) else w.continuity_error f.stream_consumer c
    counter ← continuity_counter pk
    pusi ← payload_unit_start_indicator pk
    (st', s'', c'') ← consume_in st pusi s' c' pk
    ok (record { stream_consumer = s''; ccounter = some counter; state = st' }, c'')
