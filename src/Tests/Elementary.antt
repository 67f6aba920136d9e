-- ===== src/Tests/Elementary.antt =====
-- Tests of the modules that are about the packet filter of src/pes.rs.
use mpeg2ts_reader.Base.{ℕ, ◌≡◌, refl, List, [], ◌∷◌, ◌++◌, some}
use mpeg2ts_reader.Base.{Outcome, ok, slice_from, ◌>>=◌}
use mpeg2ts_reader.Psi.Section.{Fault}
use mpeg2ts_reader.Packet.Header.{
  Packet, payload, mk_payload, content_offset, adaptation_control, adaptation_field_length,
  continuity_counter, payload_unit_start_indicator, pid,
}
use mpeg2ts_reader.Error.{DemuxError, ErrorSink}
use mpeg2ts_reader.Pes.Header.{pes_from_bytes}
use mpeg2ts_reader.Pes.Filter.{
  StreamConsumer, started, PesPacketFilter, new_filter, is_continuous, begin_payload,
  continue_payload, before_begin, consume_in, consume_pes,
}
use mpeg2ts_reader.Pes.Filter.States.{counter_of, consume_pes-next_state}
use mpeg2ts_reader.Tests.Packets.{fill, packet, packet-IsPacket}

-- A consumer that keeps the numbers of the calls: 0 start_stream, 1 begin_packet, 2 continue_packet,
-- 3 end_packet, 4 continuity_error.
abbrev calls : StreamConsumer (List ℕ) (List DemuxError)
calls = record {
  start_stream = λ s c. (s ++ 0 ∷ [], c);
  begin_packet = λ s c h. (s ++ 1 ∷ [], c);
  continue_packet = λ s c data'. (s ++ 2 ∷ [], c);
  end_packet = λ s c. (s ++ 3 ∷ [], c);
  continuity_error = λ s c. (s ++ 4 ∷ [], c);
}

abbrev reports : ErrorSink (List DemuxError)
reports = record { error = λ c e. e ∷ c }

consume_pes-next_state_example :
    (g : PesPacketFilter (List ℕ)) × (d : List DemuxError) × (consume_pes calls reports
        (new_filter [])
        []
        packet
      ≡ ok (g, d))
    × (g.ccounter ≡ some (counter_of packet))
    × (g.state ≡ started)
unfolding new_filter
consume_pes-next_state_example =
    consume_pes-next_state calls reports packet-IsPacket (new_filter []) []

-- A packet in which nothing begins, with the counter 0.
abbrev plain : Packet
plain = record { buf = 0x47 ∷ 0x01 ∷ 0x00 ∷ 0x10 ∷ fill 184 0x5a }

-- A packet in which a PES packet begins, with the counter 5.
abbrev after_gap : Packet
after_gap = record {
  buf = 0x47 ∷ 0x41 ∷ 0x00 ∷ 0x15 ∷ 0x00 ∷ 0x00 ∷ 0x01 ∷ 0xe0 ∷ 0x00 ∷ 0x00 ∷ fill 178 0x5a;
}

-- The calls that a run of packets leads to.
abbrev calls_of : PesPacketFilter (List ℕ) → List DemuxError → List Packet → Outcome Fault (List ℕ)
calls_of f c [] = ok f.stream_consumer
calls_of f c (pk ∷ pks) = consume_pes calls reports f c pk >>= λ r. calls_of r.0 r.1 pks

-- The stream starts with its first PES packet.
starts : calls_of (new_filter []) [] (after_gap ∷ []) ≡ ok (0 ∷ 1 ∷ [])
unfolding new_filter consume_pes is_continuous adaptation_control continuity_counter
    payload_unit_start_indicator consume_in before_begin begin_payload continue_payload payload
    mk_payload content_offset adaptation_field_length slice_from pes_from_bytes pid
starts = refl

-- A gap ahead of the first PES packet: begin_packet is called without start_stream.
gap_before_start : calls_of (new_filter []) [] (plain ∷ after_gap ∷ []) ≡ ok (4 ∷ 1 ∷ [])
unfolding new_filter consume_pes is_continuous adaptation_control continuity_counter
    payload_unit_start_indicator consume_in before_begin begin_payload continue_payload payload
    mk_payload content_offset adaptation_field_length slice_from pes_from_bytes pid
gap_before_start = refl

-- A PES packet without its start code: its later bytes are passed on, though begin_packet was not
-- called.
continue_without_begin :
    calls_of
      (new_filter [])
      []
      (record { buf = 0x47 ∷ 0x41 ∷ 0x00 ∷ 0x1f ∷ fill 184 0x5a } ∷ plain ∷ [])
    ≡ ok (0 ∷ 2 ∷ [])
unfolding new_filter consume_pes is_continuous adaptation_control continuity_counter
    payload_unit_start_indicator consume_in before_begin begin_payload continue_payload payload
    mk_payload content_offset adaptation_field_length slice_from pes_from_bytes pid
continue_without_begin = refl
