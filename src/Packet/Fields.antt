-- ===== src/Packet/Fields.antt =====
-- src/packet.rs: the small types that wrap a header field. Each is a record around the number that
-- the Rust tuple struct holds.
use mpeg2ts_reader.Base.{ℕ, ◌+◌, ◌%◌, ◌^◌, Bool, bit_and, ltb, leb, ◌==◌, if◌then◌else◌}
use mpeg2ts_reader.Base.{Outcome, ok, err, assert, ◌>>◌, Option, none, some}
use mpeg2ts_reader.Base.Bits.{has_bits, shr}

pub record AdaptationControl : Type 0 where
  pub header_byte : ℕ

abbrev pub has_payload : AdaptationControl → Bool
has_payload c = has_bits c.header_byte 0b0001_0000

abbrev pub has_adaptation_field : AdaptationControl → Bool
has_adaptation_field c = has_bits c.header_byte 0b0010_0000

pub record TransportScramblingControl : Type 0 where
  pub val : ℕ

abbrev pub from_byte_four : ℕ → TransportScramblingControl
from_byte_four val = record { val = val }

abbrev pub is_scrambled : TransportScramblingControl → Bool
is_scrambled c = has_bits c.val 0b1100_0000

-- `NonZeroU8::new` of the two bits.
abbrev pub scheme : TransportScramblingControl → Option ℕ
scheme c = let s = shr c.val 6 in if s == 0 then none else some s

pub record ContinuityCounter : Type 0 where
  pub val : ℕ

unfoldable pub new_counter : {E : Type 0} → ℕ → Outcome E ContinuityCounter
new_counter count = do assert (ltb count 0b10000); ok (record { val = count })

abbrev pub count : ContinuityCounter → ℕ
count c = c.val

-- A `u8` sum: the counters that `new` makes are below 16, so it does not wrap.
abbrev pub follows : ContinuityCounter → ContinuityCounter → Bool
follows self other = bit_and ((other.val + 1) % 2 ^ 8) 0b1111 == self.val

pub record Pid : Type 0 where
  pub val : ℕ

abbrev pub max_value : ℕ
max_value = 0x1fff

abbrev pub pid_count : ℕ
pid_count = max_value + 1

unfoldable pub new_pid : {E : Type 0} → ℕ → Outcome E Pid
new_pid pid = do assert (leb pid 0x1fff); ok (record { val = pid })

-- `TryFrom<u16>`, whose error is `()`.
unfoldable pub try_from : ℕ → Outcome Unit Pid
try_from value = if leb value max_value then ok (record { val = value }) else err tt

pub data PacketError : Type 0 where
  invalid_sync_byte : ℕ → PacketError
  invalid_adaptation_field_length : ℕ → PacketError
  payload_out_of_bounds : ℕ → PacketError
