-- ===== src/Tests/Packets.antt =====
-- Tests of the modules that are about src/packet.rs.
use mpeg2ts_reader.Base.{
  ℕ, zero, suc, ◌+◌, ◌<◌, ◌≡◌, refl, arith, some, List, [], ◌∷◌, ◌++◌, length, take, ◌%◌, ◌^◌,
}
use mpeg2ts_reader.Base.{ok, err, slice_range, slice_from}
use mpeg2ts_reader.Base.Bits.{IsBytes, IsBytes-append}
use mpeg2ts_reader.Packet.Fields.{PacketError, ContinuityCounter, payload_out_of_bounds}
use mpeg2ts_reader.Packet.Header.{
  Packet, pid, payload, adaptation_field, mk_payload, content_offset, adaptation_control,
  adaptation_field_length, field_before_payload, mk_af, new_field,
}
use mpeg2ts_reader.Packet.Payload.{
  IsPacket, payload_lem, adaptation_field_lem, adaptation_field-payload,
}
use mpeg2ts_reader.Packet.Counters.{here, next, Run-val, pid_lem}
use mpeg2ts_reader.Packet.ClockRef.{from_slice, from_parts}
use mpeg2ts_reader.Packet.ClockRef.Codec.{encode, from_slice-encode}

abbrev pub fill : ℕ → ℕ → List ℕ
fill zero b = []
fill (suc n) b = b ∷ fill n b

pub fill-IsBytes : (n b : ℕ) → b < 256 → IsBytes (fill n b)
fill-IsBytes zero b h = tt
fill-IsBytes (suc n) b h = (h, fill-IsBytes n b h)

-- A packet with an adaptation field of two bytes.
abbrev front : List ℕ
front = 0x47 ∷ 0x41 ∷ 0x00 ∷ 0x35 ∷ 0x02 ∷ 0x00 ∷ 0xff ∷ []

abbrev pub buffer : List ℕ
buffer = front ++ fill 181 0x5a

abbrev field_bytes : List ℕ
field_bytes = 0x00 ∷ 0xff ∷ []

abbrev pub packet : Packet
packet = record { buf = buffer }

pub buffer-IsBytes : IsBytes buffer
buffer-IsBytes =
    IsBytes-append front (fill 181 0x5a)
      (
        omega arith,
        (
          omega arith,
          (omega arith, (omega arith, (omega arith, (omega arith, (omega arith, tt))))),
        ),
      )
      (fill-IsBytes 181 0x5a (omega arith))

pub packet-IsPacket : IsPacket packet
packet-IsPacket = record { whole = refl; bytes = buffer-IsBytes; sync = refl }

-- The field reaches past the packet.
long_field :
    payload (record { buf = 0x47 ∷ 0x41 ∷ 0x00 ∷ 0x35 ∷ 200 ∷ fill 183 0x5a })
    ≡ err (payload_out_of_bounds 205)
unfolding payload mk_payload content_offset adaptation_control adaptation_field_length
long_field = refl

payload_lem_example : payload packet ≡ ok (some (fill 181 0x5a))
payload_lem_example = payload_lem packet-IsPacket

adaptation_field_lem_example :
    adaptation_field packet ≡ ok (some (record { buf = 0x00 ∷ 0xff ∷ [] }))
adaptation_field_lem_example = adaptation_field_lem packet-IsPacket

adaptation_field-payload_example :
    take 4 buffer ++ length field_bytes ∷ (field_bytes ++ fill 181 0x5a) ≡ buffer
unfolding adaptation_field mk_af field_before_payload new_field slice_range adaptation_control
    adaptation_field_length payload mk_payload content_offset slice_from
adaptation_field-payload_example =
    adaptation_field-payload packet-IsPacket (record { buf = field_bytes }) (fill 181 0x5a) refl
      refl

pid_lem_example : (pid {E = PacketError} packet ≡ ok (record { val = 0x100 })) × (0x100 < 8192)
pid_lem_example = pid_lem packet-IsPacket {E = PacketError}

abbrev counter : ℕ → ContinuityCounter
counter n = record { val = n }

Run-val_example : 1 ≡ (15 + 2) % 16
Run-val_example = Run-val {a = counter 15} {b = counter 1} {n = 2} (omega arith) (
    next (counter 15) (counter 0) (counter 1) 1
      (next (counter 15) (counter 15) (counter 0) 0 (here (counter 15)) refl) refl)

from_slice-encode_example :
    (from_slice {E = PacketError} (encode (record { base = 2 ^ 32 + 5; extension = 299 }))
      ≡ ok (record { base = 2 ^ 32 + 5; extension = 299 }))
    × (from_parts {E = PacketError} (2 ^ 32 + 5) 299
        ≡ ok (record { base = 2 ^ 32 + 5; extension = 299 }))
from_slice-encode_example =
    from_slice-encode {E = PacketError} (record { base = 2 ^ 32 + 5; extension = 299 })
      (omega arith) (omega arith)
