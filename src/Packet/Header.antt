-- ===== src/Packet/Header.antt =====
-- src/packet.rs: `Packet`, its constructors, the fixed header, and where the adaptation field and
-- the payload lie.
use mpeg2ts_reader.Base.{ℕ, ◌+◌, ◌-◌, Bool, not, ltb, ◌==◌, if◌then◌else◌, bit_and, bit_or}
use mpeg2ts_reader.Base.{List, length, Option, none, some}
use mpeg2ts_reader.Base.{Outcome, ok, err, assert, index, slice_range, slice_from, ◌>>=◌, ◌>>◌}
use mpeg2ts_reader.Base.Bits.{has_bits, shl16}
use mpeg2ts_reader.Packet.Fields.{
  AdaptationControl, has_payload, has_adaptation_field, TransportScramblingControl, from_byte_four,
  ContinuityCounter, new_counter, Pid, PacketError, invalid_sync_byte,
  invalid_adaptation_field_length, payload_out_of_bounds,
}
use Prim.Native.Nat.{compare, Ordering}

pub record Packet : Type 0 where
  pub buf : List ℕ

-- The bytes of an adaptation field, without its length.
pub record AdaptationField : Type 0 where
  pub buf : List ℕ

abbrev pub fixed_header_size : ℕ
fixed_header_size = 4

abbrev pub adaptation_field_offset : ℕ
adaptation_field_offset = fixed_header_size + 1

abbrev pub sync_byte : ℕ
sync_byte = 0x47

abbrev pub size : ℕ
size = 188

abbrev pub is_sync_byte : ℕ → Bool
is_sync_byte b = b == sync_byte

unfoldable pub new : {E : Type 0} → List ℕ → Outcome E Packet
new buf = do
  assert (length buf == size)
  b0 ← index buf 0
  assert (is_sync_byte b0)
  ok (record { buf = buf })

unfoldable pub try_new : List ℕ → Outcome PacketError Packet
try_new buf = do
  assert (length buf == size)
  b0 ← index buf 0
  if is_sync_byte b0 then ok (record { buf = buf }) else err (invalid_sync_byte b0)

module _ {E : Type 0} (p : Packet) where
  unfoldable pub transport_error_indicator : Outcome E Bool
  transport_error_indicator = do b1 ← index p.buf 1; ok (has_bits b1 0b1000_0000)

  unfoldable pub payload_unit_start_indicator : Outcome E Bool
  payload_unit_start_indicator = do b1 ← index p.buf 1; ok (has_bits b1 0b0100_0000)

  unfoldable pub transport_priority : Outcome E Bool
  transport_priority = do b1 ← index p.buf 1; ok (has_bits b1 0b0010_0000)

  unfoldable pub pid : Outcome E Pid
  pid = do
    b1 ← index p.buf 1
    b2 ← index p.buf 2
    ok (record { val = bit_or (shl16 (bit_and b1 0b0001_1111) 8) b2 })

  unfoldable pub transport_scrambling_control : Outcome E TransportScramblingControl
  transport_scrambling_control = do b3 ← index p.buf 3; ok (from_byte_four b3)

  unfoldable pub adaptation_control : Outcome E AdaptationControl
  adaptation_control = do b3 ← index p.buf 3; ok (record { header_byte = b3 })

  unfoldable pub continuity_counter : Outcome E ContinuityCounter
  unfolding new_counter
  continuity_counter = do b3 ← index p.buf 3; new_counter (bit_and b3 0b0000_1111)

  unfoldable pub adaptation_field_length : Outcome E ℕ
  adaptation_field_length = index p.buf 4

  unfoldable pub content_offset : Outcome E ℕ
  unfolding adaptation_control adaptation_field_length
  content_offset = do
    ac ← adaptation_control
    let far : Outcome E ℕ = do len ← adaptation_field_length; ok (adaptation_field_offset + len)
    if has_adaptation_field ac then far else ok fixed_header_size

-- `AdaptationField::new`.
unfoldable pub new_field : {E : Type 0} → List ℕ → Outcome E AdaptationField
new_field buf = do assert (not (length buf == 0)); ok (record { buf = buf })

unfoldable pub mk_af : {E : Type 0} → Packet → ℕ → Outcome E AdaptationField
unfolding new_field
mk_af p len = do
  field ← slice_range p.buf adaptation_field_offset (adaptation_field_offset + len)
  new_field field

-- A field beside a payload: at least one byte, and at most 182.
unfoldable pub field_before_payload : Packet → ℕ → Outcome PacketError (Option AdaptationField)
unfolding mk_af
field_before_payload p len =
    if ltb 182 len
    then err (invalid_adaptation_field_length len)
    else if len == 0
    then err (invalid_adaptation_field_length len)
    else (mk_af p len >>= λ af. ok (some af))

-- A field that fills the packet.
unfoldable pub field_alone : Packet → ℕ → Outcome PacketError (Option AdaptationField)
unfolding mk_af
field_alone p len =
    if not (len == size - adaptation_field_offset)
    then err (invalid_adaptation_field_length len)
    else (mk_af p len >>= λ af. ok (some af))

unfoldable pub adaptation_field : Packet → Outcome PacketError (Option AdaptationField)
unfolding adaptation_control adaptation_field_length
adaptation_field p = do
  ac ← adaptation_control p
  let beside : Outcome PacketError (Option AdaptationField) = do
    len ← adaptation_field_length p
    field_before_payload p len
  let alone : Outcome PacketError (Option AdaptationField) = do
    len ← adaptation_field_length p
    field_alone p len
  if has_adaptation_field ac then (if has_payload ac then beside else alone) else ok none

unfoldable pub mk_payload : Packet → Outcome PacketError (Option (List ℕ))
unfolding content_offset
mk_payload p = do
  offset ← content_offset p
  elim (compare offset (length p.buf)) [
    | Ordering.eq ↦ ok none
    | Ordering.gt ↦ err (payload_out_of_bounds offset)
    | Ordering.lt ↦ slice_from p.buf offset >>= λ rest. ok (some rest)
  ]

unfoldable pub payload : Packet → Outcome PacketError (Option (List ℕ))
unfolding adaptation_control mk_payload
payload p = do ac ← adaptation_control p; if has_payload ac then mk_payload p else ok none
