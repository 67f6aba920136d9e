-- ===== src/Pes/Filter/States.antt =====
-- src/pes.rs: the states of `PesPacketFilter` from packet to packet.
use mpeg2ts_reader.Base.{
  ℕ, ◌%◌, ◌≡◌, refl, arith, Bool, true, false, ltb, ◌==◌, Bool-cases, inl, inr, if◌then◌else◌,
  bit_or, List, [], ◌∷◌, length, get_or, Option, none, some, ◌⊎◌,
}
use mpeg2ts_reader.Base.{Outcome, ok, err, index-lt}
use mpeg2ts_reader.Base.Bits.{has_bits, shl32}
use mpeg2ts_reader.Packet.Fields.{PacketError, ContinuityCounter, follows, count}
use mpeg2ts_reader.Packet.Header.{Packet, payload, payload_unit_start_indicator, adaptation_control}
use mpeg2ts_reader.Packet.Payload.{
  IsPacket, byte, byte_at, PayloadOf, absent, refused, payload-PayloadOf,
}
use mpeg2ts_reader.Packet.Payload
use mpeg2ts_reader.Packet.Counters.{pid_of, pid_lem, continuity_counter_lem}
use mpeg2ts_reader.Error.{
  ErrorSink, pes_header_parse_error, malformed_payload, missing_payload_start_indicator,
}
use mpeg2ts_reader.Psi.Section.{Fault}
use mpeg2ts_reader.Pes.Header.{
  PesHeader, PesError, not_enough_data, invalid_start_code, pes_from_bytes,
}
use mpeg2ts_reader.Pes.Filter.{
  StreamConsumer, PesState, begin, started, ignore_rest, PesPacketFilter, is_continuous,
  begin_payload, continue_payload, before_begin, consume_in, consume_pes,
}

abbrev pub counter_of : Packet → ContinuityCounter
counter_of pk = record { val = byte_at pk 3 % 16 }

-- The counter goes on where there is a payload, and stands still where there is none.
abbrev pub goes_on : Option ContinuityCounter → Packet → Bool
goes_on none pk = true
goes_on (some cc) pk =
    if has_bits (byte_at pk 3) 0b0001_0000
    then follows (counter_of pk) cc
    else (count (counter_of pk) == count cc)

-- The state after a packet, from the state before it, whether the counter went on, and whether a PES
-- packet begins in it.
abbrev pub next_state : PesState → Bool → Bool → PesState
next_state st continuous true = started
next_state st true false = st
next_state st false false = ignore_rest

pes_from_bytes_returns :
    (buf : List ℕ)
    → ((h : PesHeader) × (pes_from_bytes buf ≡ ok h))
      ⊎ ((e : PesError) × (pes_from_bytes buf ≡ err e))
unfolding pes_from_bytes
pes_from_bytes_returns buf = elim (Bool-cases (ltb (length buf) 6)) [
  | inl short ↦ inr (not_enough_data 6 (length buf), rw short refl)
  | inr long ↦
      (let b0 = index-lt {E = PesError} buf 0 (ground arith) in
        let b1 = index-lt {E = PesError} buf 1 (ground arith) in
        let b2 = index-lt {E = PesError} buf 2 (ground arith) in
        elim (Bool-cases (
          bit_or (bit_or (shl32 (get_or buf 0 0) 16) (shl32 (get_or buf 1 0) 8)) (get_or buf 2 0)
          == 1)) [
            | inl e ↦ inl (record { buf = buf }, rw (long, b0, b1, b2, e) refl)
            | inr e ↦ inr (invalid_start_code, rw (long, b0, b1, b2, e) refl)
          ])
]

module _ {S C : Type 0} (w : StreamConsumer S C) (sink : ErrorSink C) {pk : Packet}
    (valid : IsPacket pk) where
  begin_payload_returns :
      (s : S) (c : C) (m : Outcome PacketError (Option (List ℕ)))
      → PayloadOf pk m
      → (r : S × C) × (begin_payload w sink s c pk m ≡ ok r)
  unfolding begin_payload
  begin_payload_returns s c m (Payload.found rest hr n) = elim (pes_from_bytes_returns rest) [
    | inl h ↦ (w.begin_packet s c h.0, rw (begin_payload, h.1) refl)
    | inr e ↦ (
      (s, sink.error c (pes_header_parse_error (record { val = pid_of pk }))),
      rw (begin_payload, e.1, (pid_lem valid {E = Fault}).0) refl,
    )
  ]
  begin_payload_returns s c m absent = ((s, c), refl)
  begin_payload_returns s c m (refused e) = (
    (s, sink.error c (malformed_payload (record { val = pid_of pk }) e)),
    rw (pid_lem valid {E = Fault}).0 refl,
  )

  continue_payload_returns :
      (s : S) (c : C) (m : Outcome PacketError (Option (List ℕ)))
      → PayloadOf pk m
      → (r : S × C) × (continue_payload w sink s c pk m ≡ ok r)
  unfolding continue_payload
  continue_payload_returns s c m (Payload.found [] hr n) = ((s, c), refl)
  continue_payload_returns s c m (Payload.found (b ∷ bs) hr n) =
      (w.continue_packet s c (b ∷ bs), refl)
  continue_payload_returns s c m absent = ((s, c), refl)
  continue_payload_returns s c m (refused e) = (
    (s, sink.error c (malformed_payload (record { val = pid_of pk }) e)),
    rw (pid_lem valid {E = Fault}).0 refl,
  )

  consume_in_returns :
      (st : PesState) (continuous pusi : Bool) (s : S) (c : C)
      → (r : PesState × S × C) × (consume_in w sink
            (if continuous then st else ignore_rest)
            pusi
            s
            c
            pk
          ≡ ok r)
        × (r.0 ≡ next_state st continuous pusi)
  unfolding consume_in
  consume_in_returns st continuous true s c =
      let (r, e) =
        begin_payload_returns (before_begin w sink (if continuous then st else ignore_rest) s c).0
          (before_begin w sink (if continuous then st else ignore_rest) s c).1 (payload pk)
          (payload-PayloadOf valid) in
      ((started, r.0, r.1), rw e refl, refl)
  consume_in_returns started true false s c =
      let (r, e) = continue_payload_returns s c (payload pk) (payload-PayloadOf valid) in
      ((started, r.0, r.1), rw e refl, refl)
  consume_in_returns begin true false s c = (
    (begin, s, sink.error c (missing_payload_start_indicator (record { val = pid_of pk }))),
    rw (pid_lem valid {E = Fault}).0 refl,
    refl,
  )
  consume_in_returns ignore_rest true false s c = ((ignore_rest, s, c), refl, refl)
  consume_in_returns st false false s c = ((ignore_rest, s, c), refl, refl)

  is_continuous_lem : (f : PesPacketFilter S) → is_continuous f pk ≡ ok (goes_on f.ccounter pk)
  unfolding is_continuous adaptation_control
  is_continuous_lem f = at f.ccounter
    where
      at :
          (m : Option ContinuityCounter)
          → is_continuous (record f { ccounter = m }) pk ≡ ok (goes_on m pk)
      at none = refl
      at (some cc) =
          rw (byte valid {E = Fault} 3 (omega arith), continuity_counter_lem valid {E = Fault}) refl

  -- Every whole packet with its sync byte is consumed without a panic. Afterwards the counter is
  -- that of the packet. A packet in which a PES packet begins leads to `Started`; one in which
  -- none begins leads to `IgnoreRest` where the counter did not go on, and else leaves the state
  -- alone.
  pub consume_pes-next_state :
      (f : PesPacketFilter S) (c : C)
      → (g : PesPacketFilter S) × (d : C) × (consume_pes w sink f c pk ≡ ok (g, d))
        × (g.ccounter ≡ some (counter_of pk))
        × (g.state
            ≡ next_state f.state (goes_on f.ccounter pk) (has_bits (byte_at pk 1) 0b0100_0000))
  unfolding consume_pes payload_unit_start_indicator
  consume_pes-next_state f c =
      let on = goes_on f.ccounter pk in
      let pusi = has_bits (byte_at pk 1) 0b0100_0000 in
      let told = if on then (f.stream_consumer, c) else w.continuity_error f.stream_consumer c in
      let (r, e, k) = consume_in_returns f.state on pusi told.0 told.1 in
      (
        record { stream_consumer = r.1; ccounter = some (counter_of pk); state = r.0 },
        r.2,
        rw
            (
              is_continuous_lem f,
              continuity_counter_lem valid {E = Fault},
              byte valid {E = Fault} 1 (omega arith),
              e,
            )
            refl,
        refl,
        k,
      )
