-- ===== src/Packet/AdaptationField/Parts.antt =====
-- src/packet.rs: the optional fields of an adaptation field, each read from the place where it was
-- written.
use mpeg2ts_reader.Base.{
  ℕ, suc, ◌+◌, ◌^◌, ◌<◌, ◌≡◌, refl, arith, le→ltb, if◌then◌else◌, Option, some, none, List, [], ◌∷◌,
  ◌++◌, length,
}
use mpeg2ts_reader.Base.{Outcome, ok, err, index, ◌>>=◌}
use mpeg2ts_reader.Base.Layout.{At, At-fits, At-next, At-slice, is_some, chunk, IfSome, prefixed}
use mpeg2ts_reader.Packet.ClockRef.{ClockRef, from_slice}
use mpeg2ts_reader.Packet.ClockRef.Codec.{encode, from_slice-encode}
use mpeg2ts_reader.Packet.AdaptationField.{
  AdaptationFieldError, field_not_present, as_i8, slice, new_extension,
}

-- The fields as values. The countdown is its byte.
pub record Fields : Type 0 where
  pub pcr : Option ClockRef
  pub opcr : Option ClockRef
  pub countdown : Option ℕ
  pub private_data : Option (List ℕ)
  pub extension : Option (List ℕ)

abbrev pub IsClock : ClockRef → Type 0
IsClock c = (c.base < 2 ^ 33) × (c.extension < 2 ^ 9)

abbrev pub single : ℕ → List ℕ
single b = b ∷ []

-- What an accessor gives for an optional field.
abbrev pub field : {A : Type 0} → Option A → Outcome AdaptationFieldError A
field none = err field_not_present
field (some a) = ok a

module _ {buf : List ℕ} {off : ℕ} where
  pub slice_lem :
      (part rest : List ℕ) → At buf off (part ++ rest) → slice buf off (off + length part) ≡ ok part
  unfolding slice
  slice_lem part rest a =
      rw (le→ltb (length buf) (off + length part) (At-fits part rest a))
        (At-slice part rest a {E = AdaptationFieldError})

module _ {buf : List ℕ} {off : ℕ} where
  -- A clock reference at `off`, if there is one.
  pub clock_read :
      (x : Option ClockRef) (rest : List ℕ)
      → IfSome IsClock x
      → At buf off (chunk encode x ++ rest)
      → (if is_some x
          then (slice buf off (off + 6) >>= λ s. from_slice s)
          else err field_not_present)
        ≡ field x
  clock_read none rest h a = refl
  clock_read (some c) rest h a =
      rw (slice_lem (encode c) rest a) ((from_slice-encode {E = AdaptationFieldError} c h.0 h.1).0)

  pub countdown_read :
      (x : Option ℕ) (rest : List ℕ)
      → At buf off (chunk single x ++ rest)
      → (if is_some x
          then (slice buf off (off + 1) >>= λ s. index s 0 >>= λ b. ok (as_i8 b))
          else err field_not_present)
        ≡ elim x [ none ↦ err field_not_present | some b ↦ ok (as_i8 b) ]
  countdown_read none rest a = refl
  countdown_read (some b) rest a = rw (slice_lem (single b) rest a) refl

  -- A part behind its length at `off`.
  pub prefix_read :
      (d rest : List ℕ)
      → At buf off (prefixed d ++ rest)
      → (slice buf off (off + 1) ≡ ok (length d ∷ []))
        × (slice buf (off + 1) (off + 1 + length d) ≡ ok d)
  prefix_read d rest a = (
    slice_lem (length d ∷ []) (d ++ rest) a,
    slice_lem d rest (At-next (length d ∷ []) (d ++ rest) a),
  )

  pub private_read :
      (x : Option (List ℕ)) (rest : List ℕ)
      → At buf off (chunk prefixed x ++ rest)
      → (if is_some x
          then (do
            s ← slice buf off (off + 1)
            len ← index s 0
            slice buf (off + 1) (off + 1 + len))
          else err field_not_present)
        ≡ field x
  private_read none rest a = refl
  private_read (some d) rest a = rw ((prefix_read d rest a).0) ((prefix_read d rest a).1)

  -- The private data is skipped by its length.
  pub skip_read :
      (x : Option (List ℕ)) (rest : List ℕ)
      → At buf off (chunk prefixed x ++ rest)
      → (if is_some x
          then (do s ← slice buf off (off + 1); len ← index s 0; ok (off + (len + 1)))
          else ok (off + 0))
        ≡ ok (off + length (chunk prefixed x))
  skip_read none rest a = refl
  skip_read (some d) rest a =
      let e : length d + 1 ≡ suc (length d) = omega arith in rw ((prefix_read d rest a).0, e) refl

  pub extension_read :
      (x : Option (List ℕ)) (rest : List ℕ)
      → At buf off (chunk prefixed x ++ rest)
      → (if is_some x
          then (do
            s ← slice buf off (off + 1)
            len ← index s 0
            body ← slice buf (off + 1) (off + 1 + len)
            new_extension body)
          else err field_not_present)
        ≡ elim x [ none ↦ err field_not_present | some d ↦ new_extension d ]
  extension_read none rest a = refl
  extension_read (some d) rest a =
      rw ((prefix_read d rest a).0) (rw ((prefix_read d rest a).1) refl)
