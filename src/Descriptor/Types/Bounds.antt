-- ===== src/Descriptor/Types/Bounds.antt =====
-- src/descriptor/: the accessors of the descriptors stay within their payloads, and the languages
-- are read back.
use mpeg2ts_reader.Base.{
  ℕ, zero, suc, ◌≤◌, ◌<◌, ◌≡◌, refl, arith, Bool, true, false, ltb, ◌==◌, inl, inr, some, List, [],
  ◌∷◌, ◌++◌, map, length, take, drop, ap, subst, All, get_or,
}
use mpeg2ts_reader.Base.{ok, Ends, index-lt, slice_range, slice_prefix, slice_from_lem}
use mpeg2ts_reader.Psi.Section.{Fault}
use mpeg2ts_reader.Descriptor.Types.{
  AvcVideoDescriptor, profile_idc, constraint_set0_flag, constraint_set1_flag, constraint_set2_flag,
  constraint_set3_flag, constraint_set4_flag, constraint_set5_flag, avc_compatible_flags, level_idc,
  avc_still_present, avc_24_hour_picture_flag, frame_packing_sei_not_present_flag,
  MaximumBitrateDescriptor, maximum_bitrate, maximum_bits_per_second, RegistrationDescriptor,
  format_identifier, additional_identification_info, Language, code, audio_type, audio_type_of,
  new_language, LanguageItem, too_short, next_language, languages_on, languages,
}

module _ (buf : List ℕ) where
  -- Every accessor of the descriptor returns.
  abbrev pub ReadsAvc : Type 0
  ReadsAvc =
      let d : AvcVideoDescriptor = record { buf = buf } in
      Ends (profile_idc {E = Fault} d)
      × Ends (constraint_set0_flag {E = Fault} d)
      × Ends (constraint_set1_flag {E = Fault} d)
      × Ends (constraint_set2_flag {E = Fault} d)
      × Ends (constraint_set3_flag {E = Fault} d)
      × Ends (constraint_set4_flag {E = Fault} d)
      × Ends (constraint_set5_flag {E = Fault} d)
      × Ends (avc_compatible_flags {E = Fault} d)
      × Ends (level_idc {E = Fault} d)
      × Ends (avc_still_present {E = Fault} d)
      × Ends (avc_24_hour_picture_flag {E = Fault} d)
      × Ends (frame_packing_sei_not_present_flag {E = Fault} d)

  pub avc_reads : 4 ≤ length buf → ReadsAvc
  unfolding profile_idc constraint_set0_flag constraint_set1_flag constraint_set2_flag
      constraint_set3_flag constraint_set4_flag constraint_set5_flag avc_compatible_flags level_idc
      avc_still_present avc_24_hour_picture_flag frame_packing_sei_not_present_flag
  avc_reads n =
      let e0 = index-lt {E = Fault} buf 0 (omega arith) in
      let e1 = index-lt {E = Fault} buf 1 (omega arith) in
      let e2 = index-lt {E = Fault} buf 2 (omega arith) in
      let e3 = index-lt {E = Fault} buf 3 (omega arith) in
      (
        (_, e0),
        rw e1 (_, refl),
        rw e1 (_, refl),
        rw e1 (_, refl),
        rw e1 (_, refl),
        rw e1 (_, refl),
        rw e1 (_, refl),
        rw e1 (_, refl),
        (_, e2),
        rw e3 (_, refl),
        rw e3 (_, refl),
        rw e3 (_, refl),
      )

  abbrev pub ReadsBitrate : Type 0
  ReadsBitrate =
      let d : MaximumBitrateDescriptor = record { buf = buf } in
      Ends (maximum_bitrate {E = Fault} d) × Ends (maximum_bits_per_second {E = Fault} d)

  pub bitrate_reads : 3 ≤ length buf → ReadsBitrate
  unfolding maximum_bitrate maximum_bits_per_second
  bitrate_reads n =
      let e0 = index-lt {E = Fault} buf 0 (omega arith) in
      let e1 = index-lt {E = Fault} buf 1 (omega arith) in
      let e2 = index-lt {E = Fault} buf 2 (omega arith) in
      (rw (e0, e1, e2) (_, refl), rw (e0, e1, e2) (_, refl))

  module _ {I : Type 0} (identifier : List ℕ → I) (same : I → I → Bool) where
    -- The identifier is made of the first four bytes, whatever it is.
    abbrev pub ReadsRegistration : Type 0
    ReadsRegistration =
        let d : RegistrationDescriptor = record { buf = buf } in
        (format_identifier {E = Fault} identifier same d ≡ ok (identifier (take 4 buf)))
        × (additional_identification_info {E = Fault} d ≡ ok (drop 4 buf))

    pub registration_reads : 4 ≤ length buf → ReadsRegistration
    unfolding format_identifier additional_identification_info
    registration_reads n =
        (rw (slice_prefix {E = Fault} buf 4 n) refl, slice_from_lem {E = Fault} buf 4 n)

-- A language: the three bytes of its code and the byte of its type.
abbrev pub encode : List (ℕ × ℕ × ℕ × ℕ) → List ℕ
encode [] = []
encode (l ∷ ls) = l.0 ∷ l.1 ∷ l.2 ∷ l.3 ∷ encode ls

abbrev pub language_of : ℕ × ℕ × ℕ × ℕ → Language
language_of l = record { buf = l.0 ∷ l.1 ∷ l.2 ∷ l.3 ∷ [] }

next_language_lem :
    (a b c d : ℕ) (rest : List ℕ)
    → next_language (a ∷ b ∷ c ∷ d ∷ rest) ≡ ok (some (inr (language_of (a, b, c, d)), rest))
unfolding next_language new_language
next_language_lem a b c d rest =
    let n = length rest in
    let e1 : (suc (suc (suc (suc n))) == 0) ≡ false = ground arith in
    let e2 : ltb (suc (suc (suc (suc n)))) 4 ≡ false = ground arith in
    rw
      (
        e1,
        e2,
        slice_prefix {E = Fault} (a ∷ b ∷ c ∷ d ∷ rest) 4 (omega arith),
        slice_from_lem {E = Fault} (a ∷ b ∷ c ∷ d ∷ rest) 4 (omega arith),
      )
      refl

-- The last bytes, where they are fewer than four.
abbrev pub cut_off : List ℕ → List LanguageItem
cut_off [] = []
cut_off (b ∷ bs) = inl (too_short (length (b ∷ bs))) ∷ []

languages_rest :
    (fuel : ℕ) (rest : List ℕ)
    → length rest < 4
    → length rest ≤ fuel
    → languages_on fuel rest ≡ ok (cut_off rest)
unfolding languages_on next_language slice_range
languages_rest zero [] h k = refl
languages_rest (suc fuel) [] h k = refl
languages_rest zero (b ∷ bs) h k = absurd (omega arith)
languages_rest (suc zero) (b ∷ []) h k = refl
languages_rest (suc zero) (b ∷ c ∷ bs) h k = absurd (omega arith)
languages_rest (suc (suc fuel)) (b ∷ bs) h k =
    let e1 : (suc (length bs) == 0) ≡ false = ground arith in
    let e2 : ltb (suc (length bs)) 4 ≡ true = ground arith in
    rw (e1, e2, slice_prefix {E = Fault} (b ∷ bs) 0 (omega arith)) refl

languages_on-encode :
    (fuel : ℕ) (ls : List (ℕ × ℕ × ℕ × ℕ)) (rest : List ℕ)
    → length rest < 4
    → length (encode ls ++ rest) ≤ fuel
    → languages_on fuel (encode ls ++ rest) ≡ ok (map (λ l. inr (language_of l)) ls ++ cut_off rest)
unfolding languages_on
languages_on-encode fuel [] rest h k = languages_rest fuel rest h k
languages_on-encode zero (l ∷ ls) rest h k = absurd (omega arith)
languages_on-encode (suc fuel) (l ∷ ls) rest h k =
    rw
      (
        next_language_lem l.0 l.1 l.2 l.3 (encode ls ++ rest),
        languages_on-encode fuel ls rest h (omega arith),
      )
      refl

-- Languages written one after the other are read back in their order; one to three bytes that are
-- left give an error with their number, and end the iteration.
pub languages-encode :
    (ls : List (ℕ × ℕ × ℕ × ℕ)) (rest : List ℕ)
    → length rest < 4
    → languages (record { buf = encode ls ++ rest })
      ≡ ok (map (λ l. inr (language_of l)) ls ++ cut_off rest)
unfolding languages
languages-encode ls rest h =
    languages_on-encode (length (encode ls ++ rest)) ls rest h (omega arith)

-- Bytes as languages, and the fewer than four that are left.
pub record Quads (buf : List ℕ) : Type 0 where
  pub whole : List (ℕ × ℕ × ℕ × ℕ)
  pub rest : List ℕ
  pub short : length rest < 4
  pub same : encode whole ++ rest ≡ buf

quads : (buf : List ℕ) → Quads buf
quads (a ∷ b ∷ c ∷ d ∷ buf) =
    let q = quads buf in
    record {
      whole = (a, b, c, d) ∷ q.whole;
      rest = q.rest;
      short = q.short;
      same = ap (λ t. a ∷ b ∷ c ∷ d ∷ t) q.same;
    }
quads [] = record { whole = []; rest = []; short = omega arith; same = refl }
quads (a ∷ []) = record { whole = []; rest = a ∷ []; short = omega arith; same = refl }
quads (a ∷ b ∷ []) = record { whole = []; rest = a ∷ b ∷ []; short = omega arith; same = refl }
quads (a ∷ b ∷ c ∷ []) = record {
  whole = [];
  rest = a ∷ b ∷ c ∷ [];
  short = omega arith;
  same = refl;
}

-- The accessors of a language return, with the three bytes of its code and the type of its fourth.
abbrev pub ReadsItem : LanguageItem → Type 0
ReadsItem (inl e) = Unit {0}
ReadsItem (inr l) =
    (code {E = Fault} (λ s. s) l ≡ ok (take 3 l.buf))
    × (audio_type {E = Fault} l ≡ ok (audio_type_of (get_or l.buf 3 0)))

whole_reads :
    (ls : List (ℕ × ℕ × ℕ × ℕ)) (rest : List ℕ)
    → All ReadsItem (map (λ l. inr (language_of l)) ls ++ cut_off rest)
unfolding code audio_type slice_range
whole_reads [] [] = tt
whole_reads [] (b ∷ bs) = (tt, tt)
whole_reads (l ∷ ls) rest = ((refl, refl), whole_reads ls rest)

-- The iteration over the languages ends, and what it gives can be read.
abbrev pub ReadsLanguages : List ℕ → Type 0
ReadsLanguages buf =
    (is : List LanguageItem) × (languages (record { buf = buf }) ≡ ok is) × All ReadsItem is

pub languages_read : (buf : List ℕ) → ReadsLanguages buf
languages_read buf =
    let q = quads buf in
    subst ReadsLanguages q.same
      ((_, languages-encode q.whole q.rest q.short, whole_reads q.whole q.rest))
