-- ===== src/Psi/Framer/Chunks.antt =====
-- src/psi/mod.rs: a stream of sections that arrives in any number of payloads.
use mpeg2ts_reader.Base.{
  ℕ, ◌+◌, ◌≤◌, ◌<◌, ◌≡◌, ◌≢◌, refl, sym, ap, ◌∙◌, subst, arith, Bool, leb, leb→le, ltb, Bool-cases,
  inl, inr, List, [], ◌∷◌, ◌++◌, append_assoc, append-nil, take, drop, length, get_or,
  length-append, take-append-drop, take-append_length, drop-append_length, take-append, drop-append,
  ltb→le,
}
use mpeg2ts_reader.Base.{ok, ◌>>=◌, bind_assoc, bind_ext}
use mpeg2ts_reader.Base.Bits.{IsBytes, IsBytes-suffix, IsBytes-prefix, IsBytes-append}
use mpeg2ts_reader.Packet.Fields.{Pid}
use mpeg2ts_reader.Psi.Section.{Run}
use mpeg2ts_reader.Psi.Section.Facts.{
  header_of, length_field, header_of-append, length_field-append,
}
use mpeg2ts_reader.Psi.Syntax.{SectionSyntax, SyntaxLaws}
use mpeg2ts_reader.Psi.Framer.{Framer, feed}
use mpeg2ts_reader.Psi.Framer.Invariant.{IsSection}
use mpeg2ts_reader.Psi.Framer.Stream.{IsPartial, Segments, tail, more, deliver_all, holding}
use mpeg2ts_reader.Psi.Framer.Reassembly.{partial_end, feed-Segments}

-- The bytes of all payloads.
abbrev pub joined : List (List ℕ) → List ℕ
joined [] = []
joined (b ∷ bs) = b ++ joined bs

-- A list that starts with `s` and with `x` lets the shorter be cut off the longer.
cut_front :
    (s rest x y : List ℕ)
    → x ++ y ≡ s ++ rest
    → length s ≤ length x
    → (x ≡ s ++ drop (length s) x) × (rest ≡ drop (length s) x ++ y)
cut_front s rest x y e h =
    let front : take (length s) x ≡ s =
      sym (take-append (length s) x y h) ∙ ap (take (length s)) e ∙ take-append_length s rest in
    let back : drop (length s) x ++ y ≡ rest =
      sym (drop-append (length s) x y h) ∙ ap (drop (length s)) e ∙ drop-append_length s rest in
    (sym (take-append-drop (length s) x) ∙ ap (λ z. z ++ drop (length s) x) front, sym back)

module _ {P C : Type 0} (S : SectionSyntax P C) (pid : Pid) where
  -- A proper start of a section is partial.
  start-IsPartial :
      (s x more_of_it : List ℕ)
      → s ≡ x ++ more_of_it
      → IsSection S pid s
      → get_or s 0 0 ≢ 255
      → length x < length s
      → IsPartial S pid x
  start-IsPartial s [] y e sect plain h = tt
  start-IsPartial s (b ∷ bs) y e sect plain h = (
    λ f. plain (rw e f),
    elim (Bool-cases (ltb (length (b ∷ bs)) 3)) [
      | inl few ↦ ground arith
      | inr many ↦
          let field : length_field s ≡ length_field (b ∷ bs) =
            ap length_field e ∙ length_field-append (b ∷ bs) y (ltb→le _ _ many) in
          ground (arith, sect.whole)
    ],
    λ n c. rw (sym (header_of-append (b ∷ bs) y n), ← e) (sect.accepted c),
  )

  prefix-IsPartial : (r x y : List ℕ) → r ≡ x ++ y → IsPartial S pid r → IsPartial S pid x
  prefix-IsPartial r [] y e part = tt
  prefix-IsPartial [] (b ∷ bs) y e part = absurd (omega (arith, ap length e))
  prefix-IsPartial (a ∷ as') (b ∷ bs) y e part =
      let size : length (a ∷ as') ≡ length (b ∷ bs) + length y =
        ap length e ∙ length-append (b ∷ bs) y in
      (
        λ f. part.0 (ap (λ z. get_or z 0 0) e ∙ f),
        elim (Bool-cases (ltb (length (b ∷ bs)) 3)) [
          | inl few ↦ ground arith
          | inr many ↦
              let field : length_field (a ∷ as') ≡ length_field (b ∷ bs) =
                ap length_field e ∙ length_field-append (b ∷ bs) y (ltb→le _ _ many) in
              ground (arith, part.1)
        ],
        λ n c. rw (sym (header_of-append (b ∷ bs) y n), ← e) (part.2 (omega arith) c),
      )

  -- Where a stream is cut, each side is a stream again.
  pub record Cut (x y : List ℕ) (ss : List (List ℕ)) (t : List ℕ) : Type 0 where
    pub before : List (List ℕ)
    pub held : List ℕ
    pub after : List (List ℕ)
    pub partial : IsPartial S pid held
    pub first : Segments S pid x before held
    pub second : Segments S pid (held ++ y) after t
    pub all : ss ≡ before ++ after

  Segments-Cut :
      (x y z : List ℕ) (ss : List (List ℕ)) (t : List ℕ)
      → Segments S pid z ss t
      → z ≡ x ++ y
      → Cut x y ss t
  Segments-Cut x y z ss t (tail r part) e =
      let p = prefix-IsPartial r x y e part in
      record {
        before = [];
        held = x;
        after = [];
        partial = p;
        first = tail x p;
        second = subst (λ w. Segments S pid w [] r) e (tail r part);
        all = refl;
      }
  Segments-Cut x y z ss t (more s rest ss' t' z' sect plain seg e') e =
      elim (Bool-cases (leb (length s) (length x))) [
        | inl fits ↦
            let (front, back) = cut_front s rest x y (sym e ∙ e') (leb→le _ _ fits) in
            let c = Segments-Cut (drop (length s) x) y rest ss' t seg back in
            record {
              before = s ∷ c.before;
              held = c.held;
              after = c.after;
              partial = c.partial;
              first = more s (drop (length s) x) c.before c.held x sect plain c.first front;
              second = c.second;
              all = ap (λ l. s ∷ l) c.all;
            }
        | inr short ↦
            let less : length x < length s = ground arith in
            let (longer, _) = cut_front x y s rest (sym e' ∙ e) (omega arith) in
            let p = start-IsPartial s x (drop (length x) s) longer sect plain less in
            record {
              before = [];
              held = x;
              after = s ∷ ss';
              partial = p;
              first = tail x p;
              second = more s rest ss' t' (x ++ y) sect plain seg (sym e ∙ e');
              all = refl;
            }
      ]

  -- `feed`, once for each payload.
  pub feed_all : Framer P → C → List (List ℕ) → Run (Framer P × C)
  feed_all f c [] = ok (f, c)
  feed_all f c (b ∷ bs) = feed S f c b >>= λ r. feed_all r.0 r.1 bs

  deliver_all-append :
      (q : P) (c : C) (ss us : List (List ℕ))
      → deliver_all S pid q c (ss ++ us)
        ≡ (deliver_all S pid q c ss >>= λ r. deliver_all S pid r.0 r.1 us)
  unfolding deliver_all
  deliver_all-append q c [] us = refl
  deliver_all-append q c (s ∷ ss) us =
      bind_ext (S.deliver_section q c (header_of s) s) (λ r. deliver_all S pid r.0 r.1 (ss ++ us))
        (λ r. deliver_all S pid r.0 r.1 ss >>= λ u. deliver_all S pid u.0 u.1 us)
        (λ r. deliver_all-append r.0 r.1 ss us)
      ∙ sym (
          bind_assoc (S.deliver_section q c (header_of s) s) (λ r. deliver_all S pid r.0 r.1 ss)
            (λ u. deliver_all S pid u.0 u.1 us))

  tail-IsBytes :
      (x : List ℕ) (ss : List (List ℕ)) (t : List ℕ) → Segments S pid x ss t → IsBytes x → IsBytes t
  tail-IsBytes x ss t (tail r part) h = h
  tail-IsBytes x ss t (more s rest ss' t' x' sect plain seg e) h =
      tail-IsBytes rest ss' t seg (IsBytes-suffix s rest (subst IsBytes e h))

  module _ (laws : SyntaxLaws S) (synced : Bool) where
    -- What the framer holds of a section and the payloads together are whole accepted sections,
    -- none of which begins with a stuffing byte, and then a part of one. However these bytes are
    -- cut into payloads, feeding the payloads in order does what handing the sections to the
    -- parser in order, each once, does, and the part at the end is held.
    pub feed_all-Segments :
        (q : P) (c : C) (p : List ℕ) (payloads ss : List (List ℕ)) (t : List ℕ)
        → IsPartial S pid p
        → IsBytes (p ++ joined payloads)
        → Segments S pid (p ++ joined payloads) ss t
        → feed_all (holding S pid synced q p) c payloads
          ≡ (deliver_all S pid q c ss >>= λ r. ok (holding S pid synced r.0 t, r.1))
    unfolding feed_all deliver_all
    feed_all-Segments q c p [] ss t hp hb seg =
        let (none_whole, same) = partial_end S pid p (p ++ []) ss t hp seg (append-nil p) in
        rw (none_whole, same)
    feed_all-Segments q c p (b ∷ bs) ss t hp hb seg =
        let regroup : p ++ (b ++ joined bs) ≡ (p ++ b) ++ joined bs =
          sym (append_assoc p b (joined bs)) in
        let cut = Segments-Cut (p ++ b) (joined bs) (p ++ (b ++ joined bs)) ss t seg regroup in
        let hb' : IsBytes ((p ++ b) ++ joined bs) = subst IsBytes regroup hb in
        let first_bytes = IsBytes-prefix (p ++ b) (joined bs) hb' in
        let held_bytes = tail-IsBytes (p ++ b) cut.before cut.held cut.first first_bytes in
        let rest_bytes =
          IsBytes-append cut.held (joined bs) held_bytes
            (IsBytes-suffix (p ++ b) (joined bs) hb') in
        let first =
          feed-Segments S pid laws synced q c p b cut.before cut.held hp first_bytes cut.first in
        let delivered = deliver_all S pid q c cut.before in
        let ends : P × C → Run (Framer P × C) = λ r. ok (holding S pid synced r.0 t, r.1) in
        rw (first, cut.all, deliver_all-append q c cut.before cut.after)
          (bind_assoc delivered (λ r. ok (holding S pid synced r.0 cut.held, r.1))
              (λ r. feed_all r.0 r.1 bs)
            ∙ bind_ext delivered (λ r. feed_all (holding S pid synced r.0 cut.held) r.1 bs)
                (λ r. deliver_all S pid r.0 r.1 cut.after >>= ends)
                (λ r.
                  feed_all-Segments r.0 r.1 cut.held bs cut.after t cut.partial rest_bytes
                    cut.second)
            ∙ sym (bind_assoc delivered (λ r. deliver_all S pid r.0 r.1 cut.after) ends))
