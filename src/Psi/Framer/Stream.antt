-- ===== src/Psi/Framer/Stream.antt =====
-- src/psi/mod.rs: a stream of sections as the framer should see it, and what its rounds do on one.
use mpeg2ts_reader.Base.{
  ℕ, ◌+◌, ◌-◌, ◌≤◌, ◌<◌, ◌≡◌, ◌≢◌, sym, ap, ◌∙◌, arith, min, Bool, le→leb, lt→leb, ltb→lt, ltb→le,
  drop_all, ltb, ◌==◌, ≢→==, ==_refl, Bool-cases, inl, inr, if◌then◌else◌, List, [], ◌∷◌, ◌++◌,
  take, drop, length, get_or, length-append, length-take, get_or-append, take-append_length,
  drop-append_length, take_all, take-append_ge, drop-append_ge,
}
use mpeg2ts_reader.Base.{ok, index-lt, slice_prefix, slice_from_lem, ◌>>=◌}
use mpeg2ts_reader.Base.Bits.{IsBytes}
use mpeg2ts_reader.Packet.Fields.{Pid}
use mpeg2ts_reader.Psi.Section.{Run, Fault, new_common}
use mpeg2ts_reader.Psi.Section.Facts.{
  header_of, length_field, new_common_lem, header_of-append, section_length-header_of,
}
use mpeg2ts_reader.Psi.Syntax.{SectionSyntax, SyntaxLaws}
use mpeg2ts_reader.Psi.Framer.{
  Framer, FramerState, idle, collecting, stop, again, take_section, feed_idle, promote, complete,
  feed_collecting, round_in,
}
use mpeg2ts_reader.Psi.Framer.Invariant.{target_of, framer_in, IsAccepted, IsSection}

module _ {P C : Type 0} (S : SectionSyntax P C) (pid : Pid) where
  -- The start of a section that has not all been seen.
  abbrev pub IsPartial : List ℕ → Type 0
  IsPartial [] = Unit
  IsPartial (b ∷ bs) =
      (b ≢ 255)
      × (length (b ∷ bs) < target_of (b ∷ bs))
      × (3 ≤ length (b ∷ bs) → IsAccepted S pid (b ∷ bs))

  -- The bytes are the sections, one behind the other, and then a part of the next one.
  pub data Segments : List ℕ → List (List ℕ) → List ℕ → Type 0 where
    tail : (r : List ℕ) → IsPartial r → Segments r [] r
    more :
        (s rest : List ℕ) (ss : List (List ℕ)) (t x : List ℕ)
        → IsSection S pid s
        → get_or s 0 0 ≢ 255
        → Segments rest ss t
        → x ≡ s ++ rest
        → Segments x (s ∷ ss) t

  -- The sections, handed to the parser in order.
  unfoldable pub deliver_all : P → C → List (List ℕ) → Run (P × C)
  deliver_all q c [] = ok (q, c)
  deliver_all q c (s ∷ ss) = S.deliver_section q c (header_of s) s >>= λ r. deliver_all r.0 r.1 ss

  abbrev pub state_of : List ℕ → FramerState
  state_of [] = idle
  state_of (b ∷ bs) = collecting (target_of (b ∷ bs))

  -- A framer that has seen `p` of a section.
  abbrev pub holding : Bool → P → List ℕ → Framer P
  holding synced q p = framer_in pid p (state_of p) q synced

  module _ (laws : SyntaxLaws S) (synced : Bool) (q : P) (c : C) where
    pub idle_whole :
        (s rest : List ℕ)
        → IsSection S pid s
        → get_or s 0 0 ≢ 255
        → IsBytes (s ++ rest)
        → round_in S idle (holding synced q []) c (s ++ rest) ≡ (
            S.deliver_section q c (header_of s) s >>= λ r.
            ok (again (holding synced r.0 []) r.1 rest))
    unfolding round_in feed_idle take_section
    idle_whole s rest sect plain hb =
        let size = length-append s rest in
        let enough : 3 ≤ length (s ++ rest) = omega (arith, sect.header) in
        let read = index-lt {E = Fault} (s ++ rest) 0 (omega arith) in
        let first : get_or (s ++ rest) 0 0 ≡ get_or s 0 0 =
          get_or-append 0 s rest 0 (omega (arith, sect.header)) in
        let head =
          new_common_lem (s ++ rest) enough hb ∙ ap ok (header_of-append s rest sect.header) in
        let total : 3 + (header_of s).section_length ≡ length s =
          omega (arith, section_length-header_of s, sect.whole) in
        let valid = sect.accepted c in
        rw (
          read,
          first,
          ≢→== _ _ plain,
          le→leb 3 (length (s ++ rest)) enough,
          slice_prefix {E = Fault} (s ++ rest) 3 enough,
          head,
          valid,
          (laws.accepts pid c (header_of s) valid).0,
          total,
          le→leb (length s) (length (s ++ rest)) (omega arith),
          slice_prefix {E = Fault} (s ++ rest) (length s) (omega arith),
          slice_from_lem {E = Fault} (s ++ rest) (length s) (omega arith),
          take-append_length s rest,
          drop-append_length s rest,
        )

    pub idle_partial :
        (b : ℕ) (bs : List ℕ)
        → IsPartial (b ∷ bs)
        → IsBytes (b ∷ bs)
        → round_in S idle (holding synced q []) c (b ∷ bs) ≡ ok (stop (holding synced q (b ∷ bs)) c)
    unfolding round_in feed_idle take_section
    idle_partial b bs part hb = elim (Bool-cases (ltb (length (b ∷ bs)) 3)) [
      | inl short ↦
          let few = ltb→lt (length (b ∷ bs)) 3 short in
          rw (≢→== b 255 part.0, lt→leb 3 (length (b ∷ bs)) few, short)
      | inr long ↦
          let enough : 3 ≤ length (b ∷ bs) = ltb→le _ _ long in
          let valid = part.2 enough c in
          let field = section_length-header_of (b ∷ bs) in
          let room : length (b ∷ bs) < 3 + (header_of (b ∷ bs)).section_length =
            ground (arith, part.1) in
          rw (
            ≢→== b 255 part.0,
            le→leb 3 (length (b ∷ bs)) enough,
            slice_prefix {E = Fault} (b ∷ bs) 3 enough,
            new_common_lem (b ∷ bs) enough hb,
            valid,
            (laws.accepts pid c (header_of (b ∷ bs)) valid).0,
            lt→leb (3 + (header_of (b ∷ bs)).section_length) (length (b ∷ bs)) room,
            long,
            field,
          )
    ]

    -- The buffer grows to its target.
    filled :
        (p bytes : List ℕ) (target : ℕ)
        → length p ≤ target
        → target ≤ length (p ++ bytes)
        → feed_collecting S (framer_in pid p (collecting target) q synced) c target bytes ≡ (
            if target == 3
            then promote S
                (framer_in pid (take target (p ++ bytes)) (collecting target) q synced)
                c
                (drop target (p ++ bytes))
            else complete S
                (framer_in pid (take target (p ++ bytes)) (collecting target) q synced)
                c
                target
                (drop target (p ++ bytes)))
    unfolding feed_collecting
    filled p bytes target lo hi =
        let size = length-append p bytes in
        let n : min (target - length p) (length bytes) ≡ target - length p = omega arith in
        let full : length (take target (p ++ bytes)) ≡ target =
          omega (arith, length-take target (p ++ bytes)) in
        rw (
          le→leb (length p) target lo,
          n,
          slice_prefix {E = Fault} bytes (target - length p) (omega arith),
          slice_from_lem {E = Fault} bytes (target - length p) (omega arith),
          sym (take-append_ge target p bytes lo),
          sym (drop-append_ge target p bytes lo),
          full,
          ==_refl target,
        )

    -- The buffer reaches the end of the header, and the section goes on.
    pub collecting_header :
        (p bytes : List ℕ)
        → 0 < length p
        → length p < 3
        → 3 ≤ length (p ++ bytes)
        → IsBytes (p ++ bytes)
        → IsAccepted S pid (p ++ bytes)
        → 0 < length_field (p ++ bytes)
        → round_in S (collecting 3) (framer_in pid p (collecting 3) q synced) c bytes
          ≡ ok (
              again
                (framer_in pid
                  (take 3 (p ++ bytes))
                  (collecting (3 + length_field (p ++ bytes)))
                  q
                  synced)
                c
                (drop 3 (p ++ bytes)))
    unfolding round_in promote
    collecting_header p bytes lo hi n hb acc field =
        let x : List ℕ = p ++ bytes in
        let size : length (take 3 x) ≡ 3 = omega (arith, length-take 3 x) in
        let head : new_common (take 3 (take 3 x)) ≡ ok (header_of x) =
          rw (take_all 3 (take 3 x) (omega arith)) (new_common_lem x n hb) in
        let long = section_length-header_of x in
        let more_to_come : 3 + length_field x ≢ 3 = omega arith in
        filled p bytes 3 (omega arith) n
        ∙ rw (
          slice_prefix {E = Fault} (take 3 x) 3 (omega arith),
          head,
          acc c,
          (laws.accepts pid c (header_of x) (acc c)).0,
          long,
          ≢→== (3 + length_field x) 3 more_to_come,
        )

    -- The buffer reaches the end of the header, which is all of the section.
    pub collecting_empty :
        (p bytes s rest : List ℕ)
        → 0 < length p
        → length p < 3
        → IsSection S pid s
        → length_field s ≡ 0
        → p ++ bytes ≡ s ++ rest
        → round_in S (collecting 3) (framer_in pid p (collecting 3) q synced) c bytes ≡ (
            S.deliver_section q c (header_of s) s >>= λ r.
            ok (again (holding synced r.0 []) r.1 rest))
    unfolding round_in promote
    collecting_empty p bytes s rest lo hi sect field e =
        let three : 3 ≡ length s = omega (arith, sect.whole) in
        let front : take 3 (p ++ bytes) ≡ s =
          rw e (ap (λ (k : ℕ). take k (s ++ rest)) three ∙ take-append_length s rest) in
        let back : drop 3 (p ++ bytes) ≡ rest =
          rw e (ap (λ (k : ℕ). drop k (s ++ rest)) three ∙ drop-append_length s rest) in
        let head : new_common (take 3 s) ≡ ok (header_of s) =
          new_common_lem s sect.header sect.bytes in
        let valid = sect.accepted c in
        let long = section_length-header_of s ∙ field in
        filled p bytes 3 (omega arith) (omega (arith, ap length e, length-append s rest))
        ∙ rw (
          front,
          back,
          slice_prefix {E = Fault} s 3 (omega arith),
          head,
          valid,
          (laws.accepts pid c (header_of s) valid).0,
          long,
        )

    -- The buffer reaches the end of the section.
    pub collecting_whole :
        (p bytes s rest : List ℕ)
        → 3 ≤ length p
        → length p < length s
        → IsSection S pid s
        → p ++ bytes ≡ s ++ rest
        → round_in S
            (collecting (length s))
            (framer_in pid p (collecting (length s)) q synced)
            c
            bytes
          ≡ (S.deliver_section q c (header_of s) s >>= λ r.
              ok (again (holding synced r.0 []) r.1 rest))
    unfolding round_in complete
    collecting_whole p bytes s rest lo hi sect e =
        let front : take (length s) (p ++ bytes) ≡ s = rw e (take-append_length s rest) in
        let back : drop (length s) (p ++ bytes) ≡ rest = rw e (drop-append_length s rest) in
        let head : new_common (take 3 s) ≡ ok (header_of s) =
          new_common_lem s sect.header sect.bytes in
        filled p bytes (length s) (omega arith) (omega (arith, ap length e, length-append s rest))
        ∙ rw (
          ≢→== (length s) 3 (omega arith),
          front,
          back,
          slice_prefix {E = Fault} s 3 (omega arith),
          head,
          slice_prefix {E = Fault} s (length s) (omega arith),
          take_all (length s) s (omega arith),
        )

    -- The buffer does not reach the end.
    pub collecting_partial :
        (p bytes : List ℕ) (target : ℕ)
        → length (p ++ bytes) < target
        → round_in S (collecting target) (framer_in pid p (collecting target) q synced) c bytes
          ≡ ok (again (framer_in pid (p ++ bytes) (collecting target) q synced) c [])
    unfolding round_in feed_collecting
    collecting_partial p bytes target h =
        let size = length-append p bytes in
        let n : min (target - length p) (length bytes) ≡ length bytes = omega arith in
        rw (
          le→leb (length p) target (omega arith),
          n,
          slice_prefix {E = Fault} bytes (length bytes) (omega arith),
          slice_from_lem {E = Fault} bytes (length bytes) (omega arith),
          take_all (length bytes) bytes (omega arith),
          drop_all bytes,
          ≢→== (length (p ++ bytes)) target (omega arith),
        )
