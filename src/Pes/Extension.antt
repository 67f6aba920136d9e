-- ===== src/Pes/Extension.antt =====
-- src/pes.rs: `PesExtension`, the last optional field of the header, and its own optional fields.
pub mod Clock
pub mod Parts
pub mod Bounds
use mpeg2ts_reader.Base.{
  ℕ, ◌+◌, ◌*◌, Bool, not, leb, ltb, ◌==◌, if◌then◌else◌, bit_and, bit_or, List, length,
}
use mpeg2ts_reader.Base.{Outcome, ok, err, panic, index, slice_range, map_err, ◌>>=◌}
use mpeg2ts_reader.Base.Bits.{has_bits, shl16, shl32, shl64, shr}
use mpeg2ts_reader.Packet.ClockRef.{ClockRef, from_parts}
use mpeg2ts_reader.Pes.Timestamp.{Timestamp, from_bytes}
use mpeg2ts_reader.Pes.Header.{PesError, field_not_present, not_enough_data, marker_bit_not_set}

-- A clock reference among marker bits, as `PackHeader::system_clock_reference` and
-- `PesParsedContents::escr` both write it out.
unfoldable pub escr_clock : {E : Type 0} → List ℕ → Outcome E ClockRef
escr_clock s = do
  s0 ← index s 0
  s1 ← index s 1
  s2 ← index s 2
  s3 ← index s 3
  s4 ← index s 4
  let base =
      bit_or
        (bit_or
          (bit_or
            (bit_or
              (bit_or
                (bit_or (shl64 (bit_and s0 0b0011_1000) 27) (shl64 (bit_and s0 0b0000_0011) 28))
                (shl64 s1 20))
              (shl64 (bit_and s2 0b1111_1000) 12))
            (shl64 (bit_and s2 0b0000_0011) 13))
          (shl64 s3 5))
        (shr (bit_and s4 0b1111_1000) 3)
  s5 ← index s 5
  let extension = bit_or (shl16 (bit_and s4 0b0000_0011) 7) (shr (bit_and s5 0b1111_1110) 1)
  from_parts base extension

pub record PStdBuffer : Type 0 where
  pub buf : List ℕ

module _ {E : Type 0} (p : PStdBuffer) where
  unfoldable pub buffer_scale : Outcome E Bool
  buffer_scale = do b0 ← index p.buf 0; ok (has_bits b0 0b0010_0000)

  unfoldable pub buffer_size_raw : Outcome E ℕ
  buffer_size_raw = do
    b0 ← index p.buf 0
    b1 ← index p.buf 1
    ok (bit_or (shl16 (bit_and b0 0b0001_1111) 8) b1)

  -- The size has 13 bits: the products do not overflow.
  unfoldable pub buffer_size_bytes : Outcome E ℕ
  buffer_size_bytes = do
    size ← buffer_size_raw
    scale ← buffer_scale
    ok (if scale then size * 1024 else size * 128)

-- `ProgramPacketSequenceCounter`.
pub record SequenceCounter : Type 0 where
  pub buf : List ℕ

module _ {E : Type 0} (p : SequenceCounter) where
  unfoldable pub counter : Outcome E ℕ
  counter = do b0 ← index p.buf 0; ok (bit_and b0 0b0111_1111)

  unfoldable pub mpeg1_mpeg2_identifier : Outcome E Bool
  mpeg1_mpeg2_identifier = do b1 ← index p.buf 1; ok (has_bits b1 0b0100_0000)

  unfoldable pub original_stuff_length : Outcome E ℕ
  original_stuff_length = do b1 ← index p.buf 1; ok (bit_and b1 0b0011_1111)

pub record PackHeader : Type 0 where
  pub buf : List ℕ

abbrev pub pack_start_code : ℕ
pack_start_code = 0x0000_01ba

abbrev pub min_size : ℕ
min_size = 14

-- `PackHeader::from_bytes`.
unfoldable pub pack_from_bytes : List ℕ → Outcome PesError PackHeader
pack_from_bytes buf =
    if ltb (length buf) min_size then err (not_enough_data min_size (length buf)) else (do
      b0 ← index buf 0
      b1 ← index buf 1
      b2 ← index buf 2
      b3 ← index buf 3
      let start_code = bit_or (bit_or (bit_or (shl32 b0 24) (shl32 b1 16)) (shl32 b2 8)) b3
      if not (start_code == pack_start_code) then err marker_bit_not_set else (do
        b4 ← index buf 4
        if not (shr b4 6 == 0b01) then err marker_bit_not_set else ok (record { buf = buf })))

module _ {E : Type 0} (p : PackHeader) where
  unfoldable pub system_clock_reference : Outcome E ClockRef
  system_clock_reference = do s ← slice_range p.buf 4 10; escr_clock s

  unfoldable pub program_mux_rate : Outcome E ℕ
  program_mux_rate = do
    b10 ← index p.buf 10
    b11 ← index p.buf 11
    b12 ← index p.buf 12
    ok (bit_or (bit_or (shl32 b10 14) (shl32 b11 6)) (shr b12 2))

  unfoldable pub pack_stuffing_length : Outcome E ℕ
  pack_stuffing_length = do b13 ← index p.buf 13; ok (bit_and b13 0b0000_0111)

pub record PesExtension : Type 0 where
  pub buf : List ℕ

abbrev pub private_data_size : ℕ
private_data_size = 16

abbrev pub sequence_counter_size : ℕ
sequence_counter_size = 2

abbrev pub p_std_buffer_size : ℕ
p_std_buffer_size = 2

-- `PesExtension::from_bytes`.
unfoldable pub extension_from_bytes : List ℕ → Outcome PesError PesExtension
extension_from_bytes buf =
    if length buf == 0 then err (not_enough_data 1 0) else ok (record { buf = buf })

-- A flag of the first byte: `self.buf[0] & mask != 0`.
abbrev pub has_flag : {E : Type 0} → PesExtension → ℕ → Outcome E Bool
has_flag h mask = do b0 ← index h.buf 0; ok (has_bits b0 mask)

unfoldable pub extension_slice : PesExtension → ℕ → ℕ → Outcome PesError (List ℕ)
extension_slice h from to =
    if ltb (length h.buf) to
    then err (not_enough_data to (length h.buf))
    else slice_range h.buf from to

module _ (h : PesExtension) where
  unfoldable pub private_data_end : Outcome PesError ℕ
  private_data_end = do
    present ← has_flag h 0b1000_0000
    ok (1 + (if present then private_data_size else 0))

  unfoldable pub pack_header_field_end : Outcome PesError ℕ
  pack_header_field_end = do
    start ← private_data_end
    present ← has_flag h 0b0100_0000
    if present
        then (if leb (length h.buf) start
            then err (not_enough_data (start + 1) (length h.buf))
            else (do pack_field_length ← index h.buf start; ok (start + 1 + pack_field_length)))
        else ok start

  unfoldable pub sequence_counter_end : Outcome PesError ℕ
  sequence_counter_end = do
    start ← pack_header_field_end
    present ← has_flag h 0b0010_0000
    ok (start + (if present then sequence_counter_size else 0))

  unfoldable pub p_std_buffer_end : Outcome PesError ℕ
  p_std_buffer_end = do
    start ← sequence_counter_end
    present ← has_flag h 0b0001_0000
    ok (start + (if present then p_std_buffer_size else 0))

  unfoldable pub pes_private_data : Outcome PesError (List ℕ)
  pes_private_data = has_flag h 0b1000_0000 >>= λ present.
      if present then extension_slice h 1 (1 + private_data_size) else err field_not_present

  unfoldable pub pack_header : Outcome PesError PackHeader
  pack_header = has_flag h 0b0100_0000 >>= λ present.
      if present
      then (do
        private_end ← private_data_end
        let data_start = private_end + 1
        end ← pack_header_field_end
        s ← extension_slice h data_start end
        pack_from_bytes s)
      else err field_not_present

  unfoldable pub sequence_counter : Outcome PesError SequenceCounter
  sequence_counter = has_flag h 0b0010_0000 >>= λ present.
      if present
      then (do
        start ← pack_header_field_end
        s ← extension_slice h start (start + sequence_counter_size)
        s0 ← index s 0
        if bit_and s0 0b1000_0000 == 0 then err marker_bit_not_set else (do
          s1 ← index s 1
          if bit_and s1 0b1000_0000 == 0 then err marker_bit_not_set else ok (record { buf = s })))
      else err field_not_present

  unfoldable pub p_std_buffer : Outcome PesError PStdBuffer
  p_std_buffer = has_flag h 0b0001_0000 >>= λ present.
      if present
      then (do
        start ← sequence_counter_end
        s ← extension_slice h start (start + p_std_buffer_size)
        s0 ← index s 0
        if not (bit_and s0 0b1100_0000 == 0b0100_0000)
            then err marker_bit_not_set
            else ok (record { buf = s }))
      else err field_not_present

  unfoldable pub pes_extension_2_data : Outcome PesError (ℕ × Bool)
  pes_extension_2_data = has_flag h 0b0000_1000 >>= λ present.
      if not present then err field_not_present else (do
        start ← p_std_buffer_end
        if leb (length h.buf) start then err (not_enough_data (start + 1) (length h.buf)) else (do
          b ← index h.buf start
          if bit_and b 0b1000_0000 == 0 then err marker_bit_not_set else (do
            let data_start = start + 1
            if leb (length h.buf) data_start
                then err (not_enough_data (data_start + 1) (length h.buf))
                else (do d ← index h.buf data_start; ok (data_start, has_bits d 0b1000_0000)))))

  unfoldable pub stream_id_extension : Outcome PesError ℕ
  stream_id_extension = pes_extension_2_data >>= λ p.
      if p.1 then err field_not_present else (do d ← index h.buf p.0; ok (bit_and d 0b0111_1111))

  unfoldable pub tref : Outcome PesError Timestamp
  tref = pes_extension_2_data >>= λ p. if not p.1 then err field_not_present else (do
    d ← index h.buf p.0
    if has_bits d 0b0000_0001 then err field_not_present else (do
      let tref_start = p.0 + 1
      s ← extension_slice h tref_start (tref_start + 5)
      map_err (λ e. marker_bit_not_set) (from_bytes s)))
