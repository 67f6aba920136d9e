-- ===== src/Pes/Contents/Bounds.antt =====
-- src/pes.rs: the optional fields of an accepted PES header are all there, and reading them does
-- not panic.
use mpeg2ts_reader.Base.{
  ℕ, ◌+◌, ◌-◌, ◌/◌, ◌%◌, ◌≤◌, ◌<◌, ◌≡◌, ◌∙◌, ap, arith, ◌==◌, refl, ◌^◌, if◌then◌else◌, Bool-cases,
  ◌⊎◌, inl, inr, List, length, take, drop, get_or, bit_and, length-take, length-drop,
}
use mpeg2ts_reader.Base.{ok, err, Holds, Holds-if, index-lt, slice_prefix, slice_from_lem}
use mpeg2ts_reader.Base.Bits.{IsBytes, IsBytes-take, IsBytes-drop, byte-lt, and_mask, has_bit}
use mpeg2ts_reader.Pes.Header.{PesError}
use mpeg2ts_reader.Pes.Timestamp.{from_bytes}
use mpeg2ts_reader.Pes.Extension.{extension_from_bytes}
use mpeg2ts_reader.Pes.Extension.Clock.{escr_clock_lem}
use mpeg2ts_reader.Base.Layout.{Spans, take-drop-Spans}
use mpeg2ts_reader.Pes.Extension.Parts.{from_bytes-Holds}
use mpeg2ts_reader.Pes.Contents.{
  PesParsedContents, aligned, not_aligned, protected, undefined, original, copy, pes_priority,
  data_alignment_indicator, copyright, original_or_copy, header_slice, payload, pts_dts_end,
  contents_from_bytes,
}
use mpeg2ts_reader.Pes.Contents.Fields.{
  trick_mode_of, pts_dts, escr, es_rate, dsm_trick_mode, additional_copy_info,
  previous_pes_packet_crc, pes_extension,
}
use mpeg2ts_reader.Pes.Contents.Offsets.{
  IsAccepted, contents_from_bytes_lem, stamps_size, header_slice_lem, flags_lem,
  pes_header_data_len_lem, pts_dts_end_lem, ends_lem, second, flagged, end1, end2, end3, end4, end5,
  end6,
}
use mpeg2ts_reader.Pes.Contents.Values.{
  Settles, Settles-Ends, Settles-flag, Settles-if, kept-Ends, new_rate_lem, trick_mode_of-Ends,
}

module _ (h : PesParsedContents) (a : IsAccepted h) where
  long : 3 ≤ length h.buf
  long = omega (arith, a.whole)

  slice-Spans : (from n : ℕ) → from + n ≤ 3 + get_or h.buf 2 0 → Spans n (take n (drop from h.buf))
  slice-Spans from n k = take-drop-Spans h.buf from n a.bytes (omega (arith, a.whole))

  escr-Settles : Settles (escr h)
  unfolding escr
  escr-Settles = rw ((flags_lem {E = PesError} h long).1) (
      Settles-flag (flagged (second h) 5) _ (λ on.
        let fits : end1 (second h) + 6 ≤ 3 + get_or h.buf 2 0 = ground (arith, a.fields) in
        let s = slice-Spans (end1 (second h)) 6 fits in
        rw
          (
            pts_dts_end_lem {E = PesError} h long (byte-lt h.buf 1 a.bytes),
            header_slice_lem h (end1 (second h)) 6 a fits,
            escr_clock_lem {E = PesError} _ s.enough s.bytes,
          )
          tt))

  es_rate-Settles : Settles (es_rate h)
  unfolding es_rate
  es_rate-Settles = rw ((flags_lem {E = PesError} h long).2) (
      Settles-flag (flagged (second h) 4) _ (λ on.
        let fits : end2 (second h) + 3 ≤ 3 + get_or h.buf 2 0 = ground (arith, a.fields) in
        let s = slice-Spans (end2 (second h)) 3 fits in
        let buf = take 3 (drop (end2 (second h)) h.buf) in
        rw
          (
            (ends_lem {E = PesError} h long (byte-lt h.buf 1 a.bytes)).0,
            header_slice_lem h (end2 (second h)) 3 a fits,
            index-lt {E = PesError} buf 0 (omega (arith, s.enough)),
            index-lt {E = PesError} buf 1 (omega (arith, s.enough)),
            index-lt {E = PesError} buf 2 (omega (arith, s.enough)),
            new_rate_lem {E = PesError} (get_or buf 0 0) (get_or buf 1 0) (get_or buf 2 0)
                (byte-lt buf 0 s.bytes) (byte-lt buf 1 s.bytes) (byte-lt buf 2 s.bytes),
          )
          tt))

  dsm_trick_mode-Settles : Settles (dsm_trick_mode h)
  unfolding dsm_trick_mode
  dsm_trick_mode-Settles = rw ((flags_lem {E = PesError} h long).3) (
      Settles-flag (flagged (second h) 3) _ (λ on.
        let fits : end3 (second h) + 1 ≤ 3 + get_or h.buf 2 0 = ground (arith, a.fields) in
        let s = slice-Spans (end3 (second h)) 1 fits in
        let buf = take 1 (drop (end3 (second h)) h.buf) in
        rw
          (
            (ends_lem {E = PesError} h long (byte-lt h.buf 1 a.bytes)).1,
            header_slice_lem h (end3 (second h)) 1 a fits,
            index-lt {E = PesError} buf 0 (omega (arith, s.enough)),
          )
          (Settles-Ends (trick_mode_of (get_or buf 0 0)) (trick_mode_of-Ends (get_or buf 0 0)))))

  additional_copy_info-Settles : Settles (additional_copy_info h)
  unfolding additional_copy_info
  additional_copy_info-Settles = rw ((flags_lem {E = PesError} h long).4) (
      Settles-flag (flagged (second h) 2) _ (λ on.
        let fits : end4 (second h) + 1 ≤ 3 + get_or h.buf 2 0 = ground (arith, a.fields) in
        let s = slice-Spans (end4 (second h)) 1 fits in
        let buf = take 1 (drop (end4 (second h)) h.buf) in
        rw
          (
            (ends_lem {E = PesError} h long (byte-lt h.buf 1 a.bytes)).2,
            header_slice_lem h (end4 (second h)) 1 a fits,
            index-lt {E = PesError} buf 0 (omega (arith, s.enough)),
          )
          (elim (Bool-cases (bit_and (get_or buf 0 0) 0b1000_0000 == 0)) [
            | inl e ↦ rw e tt
            | inr e ↦ rw e tt
          ])))

  previous_pes_packet_crc-Settles : Settles (previous_pes_packet_crc h)
  unfolding previous_pes_packet_crc
  previous_pes_packet_crc-Settles = rw ((flags_lem {E = PesError} h long).5) (
      Settles-flag (flagged (second h) 1) _ (λ on.
        let fits : end5 (second h) + 2 ≤ 3 + get_or h.buf 2 0 = ground (arith, a.fields) in
        let s = slice-Spans (end5 (second h)) 2 fits in
        let buf = take 2 (drop (end5 (second h)) h.buf) in
        rw
          (
            (ends_lem {E = PesError} h long (byte-lt h.buf 1 a.bytes)).3,
            header_slice_lem h (end5 (second h)) 2 a fits,
            index-lt {E = PesError} buf 0 (omega (arith, s.enough)),
            index-lt {E = PesError} buf 1 (omega (arith, s.enough)),
          )
          tt))

  -- The extension has what is left of the header.
  pes_extension-Holds : Holds (λ x. Spans 1 x.buf) (pes_extension h)
  unfolding pes_extension extension_from_bytes
  pes_extension-Holds = rw ((flags_lem {E = PesError} h long).6) (
      Holds-if _ (second h % 2 == 1) _ _
        (λ on.
          let len = get_or h.buf 2 0 in
          let rest = len + 3 - end6 (second h) in
          let same : len + 3 ≡ end6 (second h) + rest = omega (arith, a.fields) in
          let fits : end6 (second h) + rest ≤ 3 + len = omega (arith, a.fields) in
          let s = slice-Spans (end6 (second h)) rest fits in
          rw
            (
              (ends_lem {E = PesError} h long (byte-lt h.buf 1 a.bytes)).4,
              pes_header_data_len_lem {E = PesError} h long,
              same,
              header_slice_lem h (end6 (second h)) rest a fits,
            )
            (Holds-if _ (length (take rest (drop (end6 (second h)) h.buf)) == 0) _ _ (λ none'. tt)
              (λ some'. record { bytes = s.bytes; enough = ground arith })))
        (λ off. tt))

  -- One timestamp or two lie before the end that the flags give.
  stamps_slice :
      (n : ℕ)
      → stamps_size (second h) ≡ n
      → (Spans n (take n (drop 3 h.buf)))
        × (pts_dts_end {E = PesError} h ≡ ok (3 + n))
        × (header_slice h 3 (3 + n) ≡ ok (take n (drop 3 h.buf)))
  stamps_slice n e =
      let fits : 3 + n ≤ 3 + get_or h.buf 2 0 = ground (arith, a.fields) in
      (
        slice-Spans 3 n fits,
        pts_dts_end_lem {E = PesError} h long (byte-lt h.buf 1 a.bytes)
            ∙ ap (λ (k : ℕ). ok (3 + k)) e,
        header_slice_lem h 3 n a fits,
      )

  pts_dts-Settles : Settles (pts_dts h)
  unfolding pts_dts
  pts_dts-Settles =
      let v = second h / 64 in
      let small : v < 4 = omega (arith, byte-lt h.buf 1 a.bytes) in
      rw ((flags_lem {E = PesError} h long).0) (
        Settles-if (v == 0) _ _ (λ e. tt)
          (λ e0.
            Settles-if (v == 1) _ _ (λ e. tt)
              (λ e1.
                Settles-if (v == 2) _ _
                  (λ e2.
                    let (s, end, slice) = stamps_slice 5 (ground arith) in
                    let (r, k) =
                      kept-Ends (from_bytes (take 5 (drop 3 h.buf))) (from_bytes-Holds _ s) in
                    rw (end, slice, k) tt)
                  (λ e2.
                    Settles-if (v == 3) _ _
                      (λ e3.
                        let (s, end, slice) = stamps_slice 10 (ground arith) in
                        let both' = take 10 (drop 3 h.buf) in
                        let first : Spans 5 (take 5 both') = record {
                          bytes = IsBytes-take 5 both' s.bytes;
                          enough = omega (arith, length-take 5 both', s.enough);
                        } in
                        let second' : Spans 5 (drop 5 both') = record {
                          bytes = IsBytes-drop 5 both' s.bytes;
                          enough = omega (arith, length-drop 5 both', s.enough);
                        } in
                        let (r, k) =
                          kept-Ends (from_bytes (take 5 both')) (from_bytes-Holds _ first) in
                        let (r', k') =
                          kept-Ends (from_bytes (drop 5 both')) (from_bytes-Holds _ second') in
                        rw
                          (
                            end,
                            slice,
                            slice_prefix {E = PesError} both' 5 (omega (arith, s.enough)),
                            k,
                            slice_from_lem {E = PesError} both' 5 (omega (arith, s.enough)),
                            k',
                          )
                          tt)
                      (λ e3. absurd (ground arith))))))

  payload-Ends : payload {E = PesError} h ≡ ok (drop (3 + get_or h.buf 2 0) h.buf)
  unfolding payload
  payload-Ends =
      rw (pes_header_data_len_lem {E = PesError} h long)
        (slice_from_lem {E = PesError} h.buf _ a.whole)

  -- The flags of the first byte.
  first_flags :
      (pes_priority {E = PesError} h ≡ ok (get_or h.buf 0 0 / 8 % 2))
      × (data_alignment_indicator {E = PesError} h
          ≡ ok (if get_or h.buf 0 0 / 4 % 2 == 1 then aligned else not_aligned))
      × (copyright {E = PesError} h
          ≡ ok (if get_or h.buf 0 0 / 2 % 2 == 1 then protected else undefined))
      × (original_or_copy {E = PesError} h
          ≡ ok (if get_or h.buf 0 0 % 2 == 1 then original else copy))
  unfolding pes_priority data_alignment_indicator copyright original_or_copy
  first_flags =
      let b = byte-lt h.buf 0 a.bytes in
      let at = index-lt {E = PesError} h.buf 0 (omega arith) in
      let first = get_or h.buf 0 0 in
      let last : first / 2 ^ 0 % 2 ≡ first % 2 = omega arith in
      (
        rw (at, and_mask 1 (first / 2 ^ 3)) refl,
        rw (at, has_bit 2 first (omega arith) b) refl,
        rw (at, has_bit 1 first (omega arith) b) refl,
        rw (at, has_bit 0 first (omega arith) b, last) refl,
      )

-- On any bytes `contents_from_bytes` returns. Where it accepts them, the four flags of the first byte
-- are its last four bits, no accessor panics, none but that of the extension reports missing bytes,
-- the extension has a byte or more, and the payload is what follows the header.
pub contents_from_bytes-Settles :
    (buf : List ℕ)
    → IsBytes buf
    → ((e : PesError) × (contents_from_bytes buf ≡ err e))
      ⊎ (h : PesParsedContents) × (contents_from_bytes buf ≡ ok h)
        × (pes_priority {E = PesError} h ≡ ok (get_or buf 0 0 / 8 % 2))
        × (data_alignment_indicator {E = PesError} h
            ≡ ok (if get_or buf 0 0 / 4 % 2 == 1 then aligned else not_aligned))
        × (copyright {E = PesError} h
            ≡ ok (if get_or buf 0 0 / 2 % 2 == 1 then protected else undefined))
        × (original_or_copy {E = PesError} h
            ≡ ok (if get_or buf 0 0 % 2 == 1 then original else copy))
        × Settles (pts_dts h)
        × Settles (escr h)
        × Settles (es_rate h)
        × Settles (dsm_trick_mode h)
        × Settles (additional_copy_info h)
        × Settles (previous_pes_packet_crc h)
        × Holds (λ x. Spans 1 x.buf) (pes_extension h)
        × (payload {E = PesError} h ≡ ok (drop (3 + get_or buf 2 0) buf))
contents_from_bytes-Settles buf bytes = elim (contents_from_bytes_lem buf bytes) [
  | inl r ↦ inl r
  | inr r ↦
      let h : PesParsedContents = record { buf = buf } in
      let a = r.0 in
      inr (
        h,
        r.1,
        (first_flags h a).0,
        (first_flags h a).1,
        (first_flags h a).2,
        (first_flags h a).3,
        pts_dts-Settles h a,
        escr-Settles h a,
        es_rate-Settles h a,
        dsm_trick_mode-Settles h a,
        additional_copy_info-Settles h a,
        previous_pes_packet_crc-Settles h a,
        pes_extension-Holds h a,
        payload-Ends h a,
      )
]
