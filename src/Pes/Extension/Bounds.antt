-- ===== src/Pes/Extension/Bounds.antt =====
-- src/pes.rs: the accessors of the PES extension stay within its bytes.
use mpeg2ts_reader.Base.{
  ℕ, ◌+◌, ◌-◌, ◌≤◌, ◌<◌, ◌≡◌, refl, subst, arith, true, false, not, ltb, leb, ltb→le, ◌==◌,
  if◌then◌else◌, List, length, drop, get_or, bit_and, bit_or, length-take, length-drop,
}
use mpeg2ts_reader.Base.{
  Outcome, ok, Holds, Holds-if, Holds-bind, Holds-index, index, index-lt, slice_range_lem, ◌>>=◌,
}
use mpeg2ts_reader.Base.Bits.{IsBytes, IsBytes-take, IsBytes-drop, and_mask, has_bits, shl32, shr}
use mpeg2ts_reader.Base.Layout.{Spans}
use mpeg2ts_reader.Pes.Header.{PesError}
use mpeg2ts_reader.Pes.Timestamp.{from_bytes}
use mpeg2ts_reader.Pes.Extension.{
  PesExtension, has_flag, extension_slice, private_data_end, pack_header_field_end,
  sequence_counter_end, p_std_buffer_end, pes_private_data, pack_header, pack_start_code,
  pack_from_bytes, sequence_counter, p_std_buffer, pes_extension_2_data, stream_id_extension, tref,
}
use mpeg2ts_reader.Pes.Extension.Parts.{
  ReadsPack, ReadsCounter, ReadsBuffer, pack-Reads, counter-Reads, buffer-Reads, from_bytes-Holds,
  map_err-Holds,
}

module _ (h : PesExtension) (n : 1 ≤ length h.buf) (bytes : IsBytes h.buf) where
  flag_lem : (mask : ℕ) → has_flag {E = PesError} h mask ≡ ok (has_bits (get_or h.buf 0 0) mask)
  flag_lem mask = rw (index-lt {E = PesError} h.buf 0 (omega arith)) refl

  -- A field behind its flag.
  flagged-Holds :
      {A : Type 0} (P : A → Type 0) (mask : ℕ) (x y : Outcome PesError A)
      → (has_bits (get_or h.buf 0 0) mask ≡ true → Holds P x)
      → (has_bits (get_or h.buf 0 0) mask ≡ false → Holds P y)
      → Holds P (has_flag h mask >>= λ present. if present then x else y)
  flagged-Holds P mask x y on off = rw (flag_lem mask) (Holds-if P _ x y on off)

  slice-Spans : (from to : ℕ) → from ≤ to → Holds (Spans (to - from)) (extension_slice h from to)
  unfolding extension_slice
  slice-Spans from to order =
      Holds-if _ (ltb (length h.buf) to) _ _ (λ past. tt)
        (λ fits.
          let e = ltb→le _ _ fits in
          rw (slice_range_lem {E = PesError} h.buf from to order e) (record {
            bytes = IsBytes-take (to - from) (drop from h.buf) (IsBytes-drop from h.buf bytes);
            enough =
                omega (arith, length-take (to - from) (drop from h.buf), length-drop from h.buf);
          }))

  field-Spans : (from k : ℕ) → Holds (Spans k) (extension_slice h from (from + k))
  field-Spans from k =
      let same : from + k - from ≡ k = omega arith in
      subst (λ (m : ℕ). Holds (Spans m) (extension_slice h from (from + k))) same
        (slice-Spans from (from + k) (omega arith))

  -- Where the private data ends.
  abbrev first_end : ℕ
  first_end = 1 + (if has_bits (get_or h.buf 0 0) 0b1000_0000 then 16 else 0)

  private_data_end_lem : private_data_end h ≡ ok first_end
  unfolding private_data_end
  private_data_end_lem = rw (flag_lem 0b1000_0000) refl

  -- A pack header has a byte for its length, and lies behind that.
  pack_header_field_end-Holds :
      Holds
        (λ e. has_bits (get_or h.buf 0 0) 0b0100_0000 ≡ true → first_end + 1 ≤ e)
        (pack_header_field_end h)
  unfolding pack_header_field_end
  pack_header_field_end-Holds = rw private_data_end_lem (
      flagged-Holds _ 0b0100_0000 _ _
        (λ on.
          Holds-if _ (leb (length h.buf) first_end) _ _ (λ past. tt)
            (λ fits.
              Holds-bind (λ x. Unit {0}) _ (index h.buf first_end) _
                (Holds-index PesError _ h.buf first_end (ground arith) tt)
                (λ x u on'. omega arith)))
        (λ off on. ground arith))

  sequence_counter_end-Holds : Holds (λ e. Unit {0}) (sequence_counter_end h)
  unfolding sequence_counter_end
  sequence_counter_end-Holds =
      Holds-bind _ _ (pack_header_field_end h) _ pack_header_field_end-Holds
        (λ e x. rw (flag_lem 0b0010_0000) tt)

  p_std_buffer_end-Holds : Holds (λ e. Unit {0}) (p_std_buffer_end h)
  unfolding p_std_buffer_end
  p_std_buffer_end-Holds =
      Holds-bind _ _ (sequence_counter_end h) _ sequence_counter_end-Holds
        (λ e x. rw (flag_lem 0b0001_0000) tt)

  pack_from_bytes-Holds : (s : List ℕ) → IsBytes s → Holds ReadsPack (pack_from_bytes s)
  unfolding pack_from_bytes
  pack_from_bytes-Holds s b =
      Holds-if _ (ltb (length s) 14) _ _ (λ short. tt)
        (λ long.
          let m = ltb→le (length s) 14 long in
          let at = λ (i : ℕ) (l : i < 14). index-lt {E = PesError} s i (omega arith) in
          rw (at 0 (omega arith), at 1 (omega arith), at 2 (omega arith), at 3 (omega arith))
            (Holds-if _
              (not (
                bit_or
                  (bit_or (bit_or (shl32 (get_or s 0 0) 24) (shl32 (get_or s 1 0) 16))
                    (shl32 (get_or s 2 0) 8))
                  (get_or s 3 0)
                == pack_start_code))
              _ _ (λ wrong. tt)
              (λ right. rw (at 4 (omega arith)) (
                Holds-if _ (not (shr (get_or s 4 0) 6 == 1)) _ _ (λ bad. tt)
                  (λ good. pack-Reads (record { buf = s }) (record { bytes = b; enough = m }))))))

  private_data-Holds : Holds (Spans 16) (pes_private_data h)
  unfolding pes_private_data
  private_data-Holds = flagged-Holds _ 0b1000_0000 _ _ (λ on. field-Spans 1 16) (λ off. tt)

  pack_header-Holds : Holds ReadsPack (pack_header h)
  unfolding pack_header
  pack_header-Holds =
      flagged-Holds _ 0b0100_0000 _ _
        (λ on. rw private_data_end_lem (
          Holds-bind _ _ (pack_header_field_end h) _ pack_header_field_end-Holds (λ e behind.
            Holds-bind (Spans (e - (first_end + 1))) _ (extension_slice h (first_end + 1) e) _
              (slice-Spans (first_end + 1) e (behind on))
              (λ s span. pack_from_bytes-Holds s span.bytes))))
        (λ off. tt)

  sequence_counter-Holds : Holds ReadsCounter (sequence_counter h)
  unfolding sequence_counter
  sequence_counter-Holds =
      flagged-Holds _ 0b0010_0000 _ _
        (λ on. Holds-bind _ _ (pack_header_field_end h) _ pack_header_field_end-Holds (λ e behind.
          Holds-bind (Spans 2) _ (extension_slice h e (e + 2)) _ (field-Spans e 2) (λ s span.
            rw (index-lt {E = PesError} s 0 (omega (arith, span.enough))) (
              Holds-if _ (bit_and (get_or s 0 0) 0b1000_0000 == 0) _ _ (λ clear. tt)
                (λ set. rw (index-lt {E = PesError} s 1 (omega (arith, span.enough))) (
                  Holds-if _ (bit_and (get_or s 1 0) 0b1000_0000 == 0) _ _ (λ clear. tt)
                    (λ set'. counter-Reads (record { buf = s }) span)))))))
        (λ off. tt)

  p_std_buffer-Holds : Holds ReadsBuffer (p_std_buffer h)
  unfolding p_std_buffer
  p_std_buffer-Holds =
      flagged-Holds _ 0b0001_0000 _ _
        (λ on. Holds-bind _ _ (sequence_counter_end h) _ sequence_counter_end-Holds (λ e u.
          Holds-bind (Spans 2) _ (extension_slice h e (e + 2)) _ (field-Spans e 2) (λ s span.
            rw (index-lt {E = PesError} s 0 (omega (arith, span.enough))) (
              Holds-if _ (not (bit_and (get_or s 0 0) 0b1100_0000 == 0b0100_0000)) _ _ (λ wrong. tt)
                (λ right. buffer-Reads (record { buf = s }) span)))))
        (λ off. tt)

  extension_2_data-Holds : Holds (λ p. p.0 < length h.buf) (pes_extension_2_data h)
  unfolding pes_extension_2_data
  extension_2_data-Holds = rw (flag_lem 0b0000_1000) (
      Holds-if _ (not (has_bits (get_or h.buf 0 0) 0b0000_1000)) _ _ (λ off. tt)
        (λ on. Holds-bind _ _ (p_std_buffer_end h) _ p_std_buffer_end-Holds (λ e u.
          Holds-if _ (leb (length h.buf) e) _ _ (λ past. tt)
            (λ fits. rw (index-lt {E = PesError} h.buf e (ground arith)) (
              Holds-if _ (bit_and (get_or h.buf e 0) 0b1000_0000 == 0) _ _ (λ clear. tt)
                (λ set.
                  Holds-if _ (leb (length h.buf) (e + 1)) _ _ (λ past. tt)
                    (λ fits'.
                      let in' : e + 1 < length h.buf = ground arith in
                      rw (index-lt {E = PesError} h.buf (e + 1) in') in')))))))

  stream_id_extension-Holds : Holds (λ i. i < 128) (stream_id_extension h)
  unfolding stream_id_extension
  stream_id_extension-Holds =
      Holds-bind _ _ (pes_extension_2_data h) _ extension_2_data-Holds (λ p inside.
        Holds-if _ p.1 _ _ (λ on. tt)
          (λ off.
            rw (index-lt {E = PesError} h.buf p.0 inside, and_mask 7 (get_or h.buf p.0 0))
              (omega arith)))

  tref-Holds : Holds (λ t. Unit {0}) (tref h)
  unfolding tref
  tref-Holds = Holds-bind _ _ (pes_extension_2_data h) _ extension_2_data-Holds (λ p inside.
      Holds-if _ (not p.1) _ _ (λ off. tt)
        (λ on. rw (index-lt {E = PesError} h.buf p.0 inside) (
          Holds-if _ (has_bits (get_or h.buf p.0 0) 0b0000_0001) _ _ (λ more. tt)
            (λ less.
              Holds-bind (Spans 5) _ (extension_slice h (p.0 + 1) (p.0 + 1 + 5)) _
                (field-Spans (p.0 + 1) 5)
                (λ s span. map_err-Holds _ (from_bytes s) (from_bytes-Holds s span))))))

  -- On any bytes but none, no accessor of the extension panics, and where one returns a part, the
  -- accessors of that part return.
  pub accessors-Holds :
      Holds (Spans 16) (pes_private_data h)
      × Holds ReadsPack (pack_header h)
      × Holds ReadsCounter (sequence_counter h)
      × Holds ReadsBuffer (p_std_buffer h)
      × Holds (λ i. i < 128) (stream_id_extension h)
      × Holds (λ t. Unit {0}) (tref h)
  accessors-Holds = (
    private_data-Holds, pack_header-Holds, sequence_counter-Holds, p_std_buffer-Holds,
    stream_id_extension-Holds, tref-Holds,
  )
