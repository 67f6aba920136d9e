-- ===== src/Pes/Extension/Parts.antt =====
-- src/pes.rs: the parts of the PES extension, whose accessors return.
use mpeg2ts_reader.Base.{
  ℕ, ◌%◌, ◌≤◌, ◌<◌, refl, arith, ◌==◌, List, ◌∷◌, length, take, drop, length-take, length-drop,
}
use mpeg2ts_reader.Base.{
  Outcome, ok, err, panic, Ends, Holds, Holds-if, index-lt, slice_range_lem, map_err,
}
use mpeg2ts_reader.Base.Bits.{IsBytes-take, IsBytes-drop}
use mpeg2ts_reader.Base.Layout.{Spans}
use mpeg2ts_reader.Pes.Header.{PesError}
use mpeg2ts_reader.Pes.Timestamp.{from_bytes}
use mpeg2ts_reader.Pes.Timestamp.Codec.{from_bytes_lem}
use mpeg2ts_reader.Pes.Extension.{
  PackHeader, SequenceCounter, PStdBuffer, system_clock_reference, program_mux_rate,
  pack_stuffing_length, counter, mpeg1_mpeg2_identifier, original_stuff_length, buffer_scale,
  buffer_size_raw, buffer_size_bytes,
}
use mpeg2ts_reader.Pes.Extension.Clock.{escr_clock_lem}

-- A value is there, and its accessors return too.
abbrev pub ReadsPack : PackHeader → Type 0
ReadsPack p =
    Ends (system_clock_reference {E = PesError} p)
    × Ends (program_mux_rate {E = PesError} p)
    × Ends (pack_stuffing_length {E = PesError} p)

abbrev pub ReadsCounter : SequenceCounter → Type 0
ReadsCounter p =
    Ends (counter {E = PesError} p)
    × Ends (mpeg1_mpeg2_identifier {E = PesError} p)
    × Ends (original_stuff_length {E = PesError} p)

abbrev pub ReadsBuffer : PStdBuffer → Type 0
ReadsBuffer p =
    Ends (buffer_scale {E = PesError} p)
    × Ends (buffer_size_raw {E = PesError} p)
    × Ends (buffer_size_bytes {E = PesError} p)

pub pack-Reads : (p : PackHeader) → Spans 14 p.buf → ReadsPack p
unfolding system_clock_reference program_mux_rate pack_stuffing_length
pack-Reads p s =
    let n = s.enough in
    let at = λ (i : ℕ) (l : i < 14). index-lt {E = PesError} p.buf i (omega arith) in
    let long : 6 ≤ length (take 6 (drop 4 p.buf)) =
      omega (arith, length-take 6 (drop 4 p.buf), length-drop 4 p.buf) in
    (
      rw (slice_range_lem {E = PesError} p.buf 4 10 (omega arith) (omega arith)) (
        _,
        escr_clock_lem {E = PesError} (take 6 (drop 4 p.buf)) long
            (IsBytes-take 6 (drop 4 p.buf) (IsBytes-drop 4 p.buf s.bytes)),
      ),
      rw (at 10 (omega arith), at 11 (omega arith), at 12 (omega arith)) (_, refl),
      rw (at 13 (omega arith)) (_, refl),
    )

pub counter-Reads : (p : SequenceCounter) → Spans 2 p.buf → ReadsCounter p
unfolding counter mpeg1_mpeg2_identifier original_stuff_length
counter-Reads p s =
    let n = s.enough in
    let at = λ (i : ℕ) (l : i < 2). index-lt {E = PesError} p.buf i (omega arith) in
    (
      rw (at 0 (omega arith)) (_, refl),
      rw (at 1 (omega arith)) (_, refl),
      rw (at 1 (omega arith)) (_, refl),
    )

pub buffer-Reads : (p : PStdBuffer) → Spans 2 p.buf → ReadsBuffer p
unfolding buffer_scale buffer_size_raw buffer_size_bytes
buffer-Reads p s =
    let n = s.enough in
    let at = λ (i : ℕ) (l : i < 2). index-lt {E = PesError} p.buf i (omega arith) in
    (
      rw (at 0 (omega arith)) (_, refl),
      rw (at 0 (omega arith), at 1 (omega arith)) (_, refl),
      rw (at 0 (omega arith), at 1 (omega arith)) (_, refl),
    )

-- Timestamps of five bytes.
pub from_bytes-Holds : (s : List ℕ) → Spans 5 s → Holds (λ t. Unit {0}) (from_bytes s)
from_bytes-Holds (b0 ∷ b1 ∷ b2 ∷ b3 ∷ b4 ∷ rest) s =
    let (h0, (h1, (h2, (h3, (h4, h))))) = s.bytes in
    rw (from_bytes_lem b0 b1 b2 b3 b4 rest (h0, (h1, (h2, (h3, (h4, tt)))))) (
      Holds-if _ (b0 % 2 == 1) _ _
        (λ m.
          Holds-if _ (b2 % 2 == 1) _ _ (λ m'. Holds-if _ (b4 % 2 == 1) _ _ (λ m''. tt) (λ e. tt))
            (λ e. tt))
        (λ e. tt))
from_bytes-Holds _ s = absurd (omega (arith, s.enough))

pub map_err-Holds :
    {E X A : Type 0} (f : X → E) (m : Outcome X A)
    → Holds (λ a. Unit {0}) m
    → Holds (λ a. Unit {0}) (map_err f m)
map_err-Holds f (ok a) h = tt
map_err-Holds f (err e) h = tt
map_err-Holds f panic h = h
