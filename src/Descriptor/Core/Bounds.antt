-- ===== src/Descriptor/Core/Bounds.antt =====
-- src/descriptor/mod.rs: `CoreDescriptors::from_bytes` has a variant for every tag, and what it
-- returns can be read.
use mpeg2ts_reader.Base.{
  ℕ, ◌+◌, ◌-◌, ◌≤◌, ◌≡◌, refl, arith, Bool, true, false, ltb, ltb→le, ◌==◌, Bool-cases, inl, inr,
  Option, some, none, List, length, take, drop, get_or,
}
use mpeg2ts_reader.Base.{
  panic, HoldsOr, HoldsOr-if, HoldsOr-bind, HoldsOr-reason, ◌⊎◌, ◌<◌, length-take, length-drop,
  index-lt, slice_range_lem,
}
use mpeg2ts_reader.Base.Bits.{IsBytes, byte-lt, for_bytes}
use mpeg2ts_reader.Descriptor.{DescriptorError, descriptor_len}
use mpeg2ts_reader.Descriptor.Types.{
  new_avc_video, new_maximum_bitrate, new_registration, new_iso_639_language,
}
use mpeg2ts_reader.Descriptor.Types.Bounds.{
  ReadsAvc, avc_reads, ReadsBitrate, bitrate_reads, ReadsRegistration, registration_reads,
  ReadsLanguages, languages_read,
}
use mpeg2ts_reader.Descriptor.Core
use mpeg2ts_reader.Descriptor.Core.Tags.{has_tag, suits, every_tag, least_size, has_own_type}

-- The constructors that look at their tag or at the size of their payload.
registration_made :
    (tag : ℕ) (payload : List ℕ)
    → (tag == 5) ≡ true
    → HoldsOr
        (λ d. (d.buf ≡ payload) × 4 ≤ length d.buf)
        (length payload < least_size tag)
        (new_registration tag payload)
unfolding new_registration descriptor_len
registration_made tag payload s = elim (Bool-cases (ltb (length payload) 4)) [
  | inl short ↦ rw short (ground arith)
  | inr long ↦ rw long (refl, ltb→le _ _ long)
]

bitrate_made :
    (tag : ℕ) (payload : List ℕ)
    → (tag == 14) ≡ true
    → HoldsOr
        (λ d. (d.buf ≡ payload) × 3 ≤ length d.buf)
        (length payload < least_size tag)
        (new_maximum_bitrate tag payload)
unfolding new_maximum_bitrate descriptor_len
bitrate_made tag payload s = elim (Bool-cases (ltb (length payload) 3)) [
  | inl short ↦ rw (s, short) (ground arith)
  | inr long ↦ rw (s, long) (refl, ltb→le _ _ long)
]

avc_made :
    (tag : ℕ) (payload : List ℕ)
    → (tag == 40) ≡ true
    → HoldsOr
        (λ d. (d.buf ≡ payload) × 4 ≤ length d.buf)
        (length payload < least_size tag)
        (new_avc_video tag payload)
unfolding new_avc_video descriptor_len
avc_made tag payload s = elim (Bool-cases (ltb (length payload) 4)) [
  | inl short ↦ rw (s, short) (ground arith)
  | inr long ↦ rw (s, long) (refl, ltb→le _ _ long)
]

module _ {I : Type 0} (identifier : List ℕ → I) (same : I → I → Bool) where
  -- The descriptor is of the kind that the tag is given to, in the type of its own where it has one; it
  -- holds the payload, and its accessors return. One of no type of its own also holds the tag.
  abbrev pub Describes : ℕ → List ℕ → Core.CoreDescriptors → Type 0
  Describes tag payload (Core.unknown v u) =
      (has_own_type v ≡ false) × (has_tag v tag ≡ true) × (u.tag ≡ tag) × (u.payload ≡ payload)
  Describes tag payload (Core.of_registration d) =
      (has_tag Core.registration tag ≡ true)
      × (d.buf ≡ payload)
      × ReadsRegistration d.buf identifier same
  Describes tag payload (Core.of_iso_639_language d) =
      (has_tag Core.iso_639_language tag ≡ true) × (d.buf ≡ payload) × ReadsLanguages d.buf
  Describes tag payload (Core.of_maximum_bitrate d) =
      (has_tag Core.maximum_bitrate tag ≡ true) × (d.buf ≡ payload) × ReadsBitrate d.buf
  Describes tag payload (Core.of_avc_video d) =
      (has_tag Core.avc_video tag ≡ true) × (d.buf ≡ payload) × ReadsAvc d.buf

  wrap-Describes :
      (v : Core.Variant) (tag : ℕ) (payload : List ℕ)
      → suits (some v) tag ≡ true
      → HoldsOr (Describes tag payload) (length payload < least_size tag) (Core.wrap v tag payload)
  unfolding Core.wrap
  wrap-Describes Core.registration tag payload s =
      HoldsOr-bind _ _ _ (new_registration tag payload) _ (registration_made tag payload s)
        (λ d e. (s, e.0, registration_reads d.buf identifier same e.1))
  wrap-Describes Core.iso_639_language tag payload s =
      unfold new_iso_639_language in (s, refl, languages_read payload)
  wrap-Describes Core.maximum_bitrate tag payload s =
      HoldsOr-bind _ _ _ (new_maximum_bitrate tag payload) _ (bitrate_made tag payload s)
        (λ d e. (s, e.0, bitrate_reads d.buf e.1))
  wrap-Describes Core.avc_video tag payload s =
      HoldsOr-bind _ _ _ (new_avc_video tag payload) _ (avc_made tag payload s)
        (λ d e. (s, e.0, avc_reads d.buf e.1))
  wrap-Describes v tag payload s = (refl, s, refl, refl)

  dispatch :
      (tag : ℕ) (payload : List ℕ) (v : Option Core.Variant)
      → suits v tag ≡ true
      → HoldsOr
          (Describes tag payload)
          (length payload < least_size tag)
          (elim v [ some w ↦ Core.wrap w tag payload | none ↦ panic ])
  dispatch tag payload (some w) s = wrap-Describes w tag payload s
  dispatch tag payload none s = absurd (ground arith)

  -- On any bytes `from_bytes` does not panic: every tag has a variant, and the constructors that
  -- check their tag are given it. It refuses the bytes only where they end before the payload does,
  -- or the payload is too short for the tag. A descriptor that is returned is of the kind that
  -- ISO/IEC 13818-1 gives the first byte to, and in the type of its own where that has one; it holds
  -- the payload at the start of the bytes (and the tag, where it has no type of its own), and its
  -- accessors return.
  pub core_from_bytes-Describes :
      (buf : List ℕ)
      → IsBytes buf
      → HoldsOr
          (Describes (get_or buf 0 0) (take (get_or buf 1 0) (drop 2 buf)))
          ((length buf < 2 + get_or buf 1 0) ⊎ (get_or buf 1 0 < least_size (get_or buf 0 0)))
          (Core.core_from_bytes buf)
  unfolding Core.core_from_bytes
  core_from_bytes-Describes buf h =
      HoldsOr-if _ _ (ltb (length buf) 2) _ _ (λ short. inl (ground arith))
        (λ long.
          let n = ltb→le (length buf) 2 long in
          let tag = get_or buf 0 0 in
          let len = get_or buf 1 0 in
          rw
            (
              index-lt {E = DescriptorError} buf 0 (omega arith),
              index-lt {E = DescriptorError} buf 1 (omega arith),
            )
            (HoldsOr-if _ _ (ltb (length buf) (len + 2)) _ _ (λ past. inl (ground arith))
              (λ fits.
                let m = ltb→le (length buf) (len + 2) fits in
                let order : 2 ≤ len + 2 = omega arith in
                let same' : len + 2 - 2 ≡ len = omega arith in
                let payload = take len (drop 2 buf) in
                let size : length payload ≡ len =
                  omega (arith, length-take len (drop 2 buf), length-drop 2 buf) in
                rw (slice_range_lem {E = DescriptorError} buf 2 (len + 2) order m, same')
                  (HoldsOr-reason (Describes tag payload) (length payload < least_size tag)
                    ((length buf < 2 + len) ⊎ (len < least_size tag)) _
                    (dispatch tag payload (Core.variant_of tag) (
                      for_bytes (λ t. suits (Core.variant_of t) t) every_tag tag (byte-lt buf 0 h)))
                    (λ less. inr (omega (arith, size, less)))))))
