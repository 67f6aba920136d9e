-- ===== src/Tests/Descriptors.antt =====
-- Tests of the descriptors (src/descriptor/) and of the stream types (src/lib.rs).
use mpeg2ts_reader.Base.{ℕ, ◌≡◌, refl, arith, true, inl, inr, List, [], ◌∷◌, length}
use mpeg2ts_reader.Base.{ok, HoldsOr, ◌<◌, ◌+◌, ◌⊎◌, slice_range}
use mpeg2ts_reader.Descriptor.Core.{
  CoreDescriptors, unknown, user_private, core_from_bytes, variant_of, find, wrap,
}
use mpeg2ts_reader.Descriptor.Core.Bounds.{Describes, core_from_bytes-Describes}
use mpeg2ts_reader.Descriptor.Iter.{descriptors}
use mpeg2ts_reader.Descriptor.Iter.Codec.{descriptors-encode_all}
use mpeg2ts_reader.Descriptor.Types.{too_short, languages}
use mpeg2ts_reader.Descriptor.Types.Bounds.{language_of, languages-encode}
use mpeg2ts_reader.StreamType.{h264, is_pes, one_of}

-- The AVC descriptor of the tests of avcvideo.rs.
abbrev avc_bytes : List ℕ
avc_bytes = 0x28 ∷ 0x04 ∷ 0x42 ∷ 0xc0 ∷ 0x1e ∷ 0x3f ∷ []

core_from_bytes-Describes_example :
    HoldsOr
      (Describes (λ s. length s) (λ a b. true) 0x28 (0x42 ∷ 0xc0 ∷ 0x1e ∷ 0x3f ∷ []))
      ((6 < 2 + 4) ⊎ (4 < 4))
      (core_from_bytes avc_bytes)
core_from_bytes-Describes_example =
    core_from_bytes-Describes (λ s. length s) (λ a b. true) avc_bytes
      (omega arith, (omega arith, (omega arith, (omega arith, (omega arith, (omega arith, tt))))))

abbrev private_of : ℕ × List ℕ → CoreDescriptors
private_of d = unknown user_private (record { tag = d.0; payload = d.1 })

abbrev written : List (ℕ × List ℕ)
written = (0x80, 1 ∷ []) ∷ (0xff, []) ∷ []

core_reads :
    (core_from_bytes (0x80 ∷ 1 ∷ 1 ∷ []) ≡ ok (private_of (0x80, 1 ∷ [])))
    × (core_from_bytes (0xff ∷ 0 ∷ []) ≡ ok (private_of (0xff, [])))
unfolding core_from_bytes variant_of find wrap slice_range
core_reads = (refl, refl)

descriptors-encode_all_example :
    descriptors core_from_bytes (0x80 ∷ 1 ∷ 1 ∷ 0xff ∷ 0 ∷ [])
    ≡ ok (inr (private_of (0x80, 1 ∷ [])) ∷ inr (private_of (0xff, [])) ∷ [])
descriptors-encode_all_example =
    descriptors-encode_all core_from_bytes private_of written (core_reads.0, (core_reads.1, tt))

-- One language, and two bytes of another.
languages-encode_example :
    languages (record { buf = 0x65 ∷ 0x6e ∷ 0x67 ∷ 0 ∷ 0x66 ∷ 0x72 ∷ [] })
    ≡ ok (inr (language_of (0x65, 0x6e, 0x67, 0)) ∷ inl (too_short 2) ∷ [])
languages-encode_example =
    languages-encode ((0x65, 0x6e, 0x67, 0) ∷ []) (0x66 ∷ 0x72 ∷ []) (omega arith)

is_pes-h264 : is_pes h264 ≡ true
unfolding one_of is_pes
is_pes-h264 = refl
