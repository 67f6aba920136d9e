-- ===== src/Psi/Framer/Reassembly.antt =====
-- src/psi/mod.rs: on a stream of accepted sections the framer delivers each section whole and once,
-- in order, however the stream is cut into payloads.
use mpeg2ts_reader.Base.{
  ℕ, zero, suc, ◌+◌, ◌*◌, ◌≤◌, ◌<◌, ◌≡◌, ◌≢◌, refl, sym, ap, ◌∙◌, subst, arith, Bool, ltb, ◌==◌,
  ltb→lt, ltb→le, ==→≡, Bool-cases, inl, inr, List, [], ◌∷◌, ◌++◌, append-nil, take, drop, length,
  length-append, length-take, length-drop, take-append-drop,
}
use mpeg2ts_reader.Base.{ok, err, panic, ◌>>=◌}
use mpeg2ts_reader.Base.Bits.{IsBytes, IsBytes-suffix}
use mpeg2ts_reader.Packet.Fields.{Pid}
use mpeg2ts_reader.Psi.Section.{Run}
use mpeg2ts_reader.Psi.Section.Facts.{
  header_of, length_field, header_of-append, length_field-append, header_of-take, length_field-take,
}
use mpeg2ts_reader.Psi.Syntax.{SectionSyntax, SyntaxLaws}
use mpeg2ts_reader.Psi.Framer.{Framer, idle, collecting, stop, again, round_in, feed_loop, feed}
use mpeg2ts_reader.Psi.Framer.Invariant.{target_of, framer_in, IsAccepted}
use mpeg2ts_reader.Psi.Framer.Stream.{
  IsPartial, Segments, tail, more, deliver_all, holding, idle_whole, idle_partial,
  collecting_header, collecting_empty, collecting_whole, collecting_partial,
}

module _ {P C : Type 0} (S : SectionSyntax P C) (pid : Pid) where
  -- What has no whole section in it is its own tail.
  pub partial_end :
      (p x : List ℕ) (ss : List (List ℕ)) (t : List ℕ)
      → IsPartial S pid p
      → Segments S pid x ss t
      → x ≡ p
      → (ss ≡ []) × (t ≡ p)
  partial_end p x ss t hp (tail r part) e = (refl, e)
  partial_end [] x ss t hp (more s rest ss' t' x' sect plain seg e') e =
      absurd (omega (arith, ap length (sym e ∙ e'), length-append s rest, sect.header))
  partial_end (b ∷ bs) x ss t hp (more s rest ss' t' x' sect plain seg e') e =
      let same : b ∷ bs ≡ s ++ rest = sym e ∙ e' in
      let field : length_field (b ∷ bs) ≡ length_field s =
        ap length_field same ∙ length_field-append s rest sect.header in
      let size : length (b ∷ bs) ≡ length s + length rest = ap length same ∙ length-append s rest in
      let room : length (b ∷ bs) < 3 + length_field (b ∷ bs) = ground (arith, hp.1, sect.header) in
      absurd (omega (arith, sect.whole))

  -- The header at the front of a stream of at least three bytes is accepted.
  IsAccepted-front :
      (x : List ℕ) (ss : List (List ℕ)) (t : List ℕ)
      → Segments S pid x ss t
      → 3 ≤ length x
      → IsAccepted S pid x
  IsAccepted-front [] ss t (tail r part) n = absurd (omega arith)
  IsAccepted-front (b ∷ bs) ss t (tail r part) n = part.2 n
  IsAccepted-front x ss t (more s rest ss' t' x' sect plain seg e) n =
      λ c. rw (e, header_of-append s rest sect.header) (sect.accepted c)

  module _ (laws : SyntaxLaws S) (synced : Bool) where
    abbrev held : List ℕ → P × C → Run (Framer P × C)
    held t r = ok (holding S pid synced r.0 t, r.1)

    -- The sections delivered, and a framer that holds the tail.
    abbrev reached : P → C → List (List ℕ) → List ℕ → Run (Framer P × C)
    reached q c ss t = deliver_all S pid q c ss >>= held t

    -- A round that delivers a section, and then the rest.
    section_step :
        (fuel : ℕ) (f : Framer P) (q : P) (c : C) (b : ℕ) (bs s rest : List ℕ) (ss : List (List ℕ))
        (t : List ℕ)
        → round_in S f.state f c (b ∷ bs) ≡ (
            S.deliver_section q c (header_of s) s >>= λ r.
            ok (again (holding S pid synced r.0 []) r.1 rest))
        → ((r : P × C)
            → feed_loop S fuel (holding S pid synced r.0 []) r.1 rest ≡ reached r.0 r.1 ss t)
        → feed_loop S (suc fuel) f c (b ∷ bs) ≡ reached q c (s ∷ ss) t
    unfolding feed_loop deliver_all
    section_step fuel f q c b bs s rest ss t e ih =
        rw e (go (S.deliver_section q c (header_of s) s))
      where
        go :
            (m : Run (P × C))
            → ((m >>= λ r. ok (again (holding S pid synced r.0 []) r.1 rest)) >>= λ u. elim u [
              | stop f' c' ↦ ok (f', c')
              | again f' c' bytes ↦ feed_loop S fuel f' c' bytes
            ])
              ≡ ((m >>= λ r. deliver_all S pid r.0 r.1 ss) >>= held t)
        go (ok r) = ih r
        go (err e') = refl
        go panic = refl

    -- A round that delivers nothing.
    quiet_step :
        (fuel : ℕ) (f g : Framer P) (c : C) (b : ℕ) (bs rest : List ℕ) (out : Run (Framer P × C))
        → round_in S f.state f c (b ∷ bs) ≡ ok (again g c rest)
        → feed_loop S fuel g c rest ≡ out
        → feed_loop S (suc fuel) f c (b ∷ bs) ≡ out
    unfolding feed_loop
    quiet_step fuel f g c b bs rest out e h = rw e h

    feed_nothing : (fuel : ℕ) (f : Framer P) (c : C) → feed_loop S fuel f c [] ≡ ok (f, c)
    unfolding feed_loop
    feed_nothing zero f c = refl
    feed_nothing (suc fuel) f c = refl

    -- The end of the bytes.
    at_end :
        (fuel : ℕ) (q : P) (c : C) (p x : List ℕ) (ss : List (List ℕ)) (t : List ℕ)
        → IsPartial S pid p
        → Segments S pid x ss t
        → x ≡ p
        → feed_loop S fuel (holding S pid synced q p) c [] ≡ reached q c ss t
    unfolding deliver_all
    at_end fuel q c p x ss t hp seg e =
        let (none_whole, same) = partial_end p x ss t hp seg e in
        rw (feed_nothing fuel (holding S pid synced q p) c, none_whole, same)

    -- Bytes that find the framer at the start of a section.
    from_idle :
        (fuel : ℕ) (q : P) (c : C) (b : ℕ) (bs x : List ℕ) (ss : List (List ℕ)) (t : List ℕ)
        → Segments S pid x ss t
        → x ≡ b ∷ bs
        → IsBytes x
        → length bs ≤ fuel
        → ((q' : P) (c' : C) (rest : List ℕ) (ss' : List (List ℕ))
            → Segments S pid rest ss' t
            → IsBytes rest
            → length rest ≤ fuel
            → feed_loop S fuel (holding S pid synced q' []) c' rest ≡ reached q' c' ss' t)
        → feed_loop S (suc fuel) (holding S pid synced q []) c (b ∷ bs) ≡ reached q c ss t
    unfolding feed_loop deliver_all
    from_idle fuel q c b bs x ss t (tail r part) e hb m ih = rw (
      idle_partial S pid laws synced q c b bs (subst (IsPartial S pid) e part) (subst IsBytes e hb),
      e,
    )
    from_idle fuel q c b bs x ss t (more s rest ss' t' x' sect plain seg e') e hb m ih =
        let same : s ++ rest ≡ b ∷ bs = sym e' ∙ e in
        let size : length s + length rest ≡ suc (length bs) =
          sym (length-append s rest) ∙ ap length same in
        section_step fuel (holding S pid synced q []) q c b bs s rest ss' t
          (subst
            (λ y. round_in S idle (holding S pid synced q []) c y ≡ (
              S.deliver_section q c (header_of s) s >>= λ r.
              ok (again (holding S pid synced r.0 []) r.1 rest)))
            same (idle_whole S pid laws synced q c s rest sect plain (subst IsBytes e' hb)))
          λ r.
            ih r.0 r.1 rest ss' seg (IsBytes-suffix s rest (subst IsBytes e' hb))
              (omega (arith, sect.header))

    abbrev Continues : ℕ → List ℕ → Type 0
    Continues fuel t =
        (q : P) (c : C) (p bytes x : List ℕ) (ss : List (List ℕ))
        → IsPartial S pid p
        → Segments S pid x ss t
        → x ≡ p ++ bytes
        → IsBytes x
        → length bytes ≤ fuel
        → feed_loop S fuel (holding S pid synced q p) c bytes ≡ reached q c ss t

    -- The header is complete, and the body is not.
    from_header :
        (fuel : ℕ) (q : P) (c : C) (a : ℕ) (ps : List ℕ) (b : ℕ) (bs : List ℕ) (ss : List (List ℕ))
        (t : List ℕ)
        → a ≢ 255
        → length (a ∷ ps) < 3
        → 3 ≤ length (a ∷ ps ++ b ∷ bs)
        → Segments S pid (a ∷ ps ++ b ∷ bs) ss t
        → IsBytes (a ∷ ps ++ b ∷ bs)
        → length bs ≤ fuel
        → 0 < length_field (a ∷ ps ++ b ∷ bs)
        → Continues fuel t
        → feed_loop S (suc fuel) (framer_in pid (a ∷ ps) (collecting 3) q synced) c (b ∷ bs)
          ≡ reached q c ss t
    from_header fuel q c a ps b bs ss t plain hi n seg hb m field ih =
        let x : List ℕ = a ∷ ps ++ b ∷ bs in
        let acc = IsAccepted-front x ss t seg n in
        let size : length (take 3 x) ≡ 3 = omega (arith, length-take 3 x) in
        let lf : length_field (take 3 x) ≡ length_field x = length_field-take 3 x (omega arith) in
        let target : 3 + length_field x ≡ target_of (take 3 x) = ground arith in
        let part : IsPartial S pid (take 3 x) =
          (plain, omega arith, λ _ d. rw (header_of-take 3 x (omega arith)) (acc d)) in
        let behind : length (drop 3 x) ≤ fuel =
          omega (arith, length-drop 3 x, length-append (a ∷ ps) (b ∷ bs)) in
        quiet_step fuel (framer_in pid (a ∷ ps) (collecting 3) q synced)
          (framer_in pid (take 3 x) (collecting (3 + length_field x)) q synced) c b bs (drop 3 x)
          (reached q c ss t)
          (collecting_header S pid laws synced q c (a ∷ ps) (b ∷ bs) (omega arith) hi n hb acc
            field)
          (rw target
            (ih q c (take 3 x) (drop 3 x) x ss part seg (sym (take-append-drop 3 x)) hb behind))

    -- Bytes that find one or two bytes of a header in the buffer.
    from_short :
        (fuel : ℕ) (q : P) (c : C) (a : ℕ) (ps : List ℕ) (b : ℕ) (bs x : List ℕ)
        (ss : List (List ℕ)) (t : List ℕ)
        → a ≢ 255
        → length (a ∷ ps) < 3
        → Segments S pid x ss t
        → x ≡ a ∷ ps ++ b ∷ bs
        → IsBytes x
        → length bs ≤ fuel
        → Continues fuel t
        → feed_loop S (suc fuel) (framer_in pid (a ∷ ps) (collecting 3) q synced) c (b ∷ bs)
          ≡ reached q c ss t
    unfolding deliver_all
    from_short fuel q c a ps b bs x ss t plain hi (tail r part) e hb m ih =
        let y : List ℕ = a ∷ ps ++ b ∷ bs in
        let part' : IsPartial S pid y = subst (IsPartial S pid) e part in
        elim (Bool-cases (ltb (length y) 3)) [
          | inl few ↦
              let target : target_of y ≡ 3 = rw few in
              quiet_step fuel (framer_in pid (a ∷ ps) (collecting 3) q synced)
                (framer_in pid y (collecting 3) q synced) c b bs [] (reached q c [] r)
                (collecting_partial S pid laws synced q c (a ∷ ps) (b ∷ bs) 3 (ltb→lt _ _ few))
                (rw (feed_nothing fuel (framer_in pid y (collecting 3) q synced) c, e, target))
          | inr many ↦
              from_header fuel q c a ps b bs [] r plain hi (ltb→le _ _ many)
                (subst (λ z. Segments S pid z [] r) e (tail r part)) (subst IsBytes e hb) m
                (ground (arith, part'.1)) ih
        ]
    from_short fuel q c a ps b bs x ss t plain hi (more s rest ss' t' x' sect other seg e') e hb m
          ih =
        let y : List ℕ = a ∷ ps ++ b ∷ bs in
        let same : y ≡ s ++ rest = sym e ∙ e' in
        let size : length y ≡ length s + length rest = ap length same ∙ length-append s rest in
        let parts = length-append (a ∷ ps) (b ∷ bs) in
        let field : length_field y ≡ length_field s =
          ap length_field same ∙ length_field-append s rest sect.header in
        elim (Bool-cases (length_field y == 0)) [
          | inl empty ↦
              section_step fuel (framer_in pid (a ∷ ps) (collecting 3) q synced) q c b bs s rest ss'
                t
                (collecting_empty S pid laws synced q c (a ∷ ps) (b ∷ bs) s rest (omega arith) hi
                  sect (sym field ∙ ==→≡ _ _ empty) same)
                λ r.
                  ih r.0 r.1 [] rest rest ss' tt seg refl
                    (IsBytes-suffix s rest (subst IsBytes e' hb)) (omega (arith, sect.header))
          | inr body ↦
              from_header fuel q c a ps b bs (s ∷ ss') t plain hi (omega (arith, sect.header))
                (subst (λ z. Segments S pid z (s ∷ ss') t) e
                  (more s rest ss' t' x' sect other seg e'))
                (subst IsBytes e hb) m (ground arith) ih
        ]

    -- Bytes that find a whole header in the buffer.
    from_long :
        (fuel : ℕ) (q : P) (c : C) (a : ℕ) (ps : List ℕ) (b : ℕ) (bs x : List ℕ)
        (ss : List (List ℕ)) (t : List ℕ)
        → IsPartial S pid (a ∷ ps)
        → 3 ≤ length (a ∷ ps)
        → Segments S pid x ss t
        → x ≡ a ∷ ps ++ b ∷ bs
        → IsBytes x
        → length bs ≤ fuel
        → Continues fuel t
        → feed_loop S (suc fuel) (holding S pid synced q (a ∷ ps)) c (b ∷ bs) ≡ reached q c ss t
    unfolding deliver_all
    from_long fuel q c a ps b bs x ss t hp lo (tail r part) e hb m ih =
        let y : List ℕ = a ∷ ps ++ b ∷ bs in
        let part' : IsPartial S pid y = subst (IsPartial S pid) e part in
        let parts = length-append (a ∷ ps) (b ∷ bs) in
        let field = length_field-append (a ∷ ps) (b ∷ bs) lo in
        let target : target_of y ≡ target_of (a ∷ ps) = ground arith in
        quiet_step fuel (holding S pid synced q (a ∷ ps))
          (framer_in pid y (collecting (target_of (a ∷ ps))) q synced) c b bs [] (reached q c [] r)
          (collecting_partial S pid laws synced q c (a ∷ ps) (b ∷ bs) (target_of (a ∷ ps))
            (rw (← target) part'.1))
          (rw (
            feed_nothing fuel (framer_in pid y (collecting (target_of (a ∷ ps))) q synced) c,
            e,
            target,
          ))
    from_long fuel q c a ps b bs x ss t hp lo (more s rest ss' t' x' sect other seg e') e hb m ih =
        let y : List ℕ = a ∷ ps ++ b ∷ bs in
        let same : y ≡ s ++ rest = sym e ∙ e' in
        let size : length y ≡ length s + length rest = ap length same ∙ length-append s rest in
        let parts = length-append (a ∷ ps) (b ∷ bs) in
        let field : length_field (a ∷ ps) ≡ length_field s =
          sym (length_field-append (a ∷ ps) (b ∷ bs) lo)
          ∙ ap length_field same
          ∙ length_field-append s rest sect.header in
        let whole : target_of (a ∷ ps) ≡ length s = ground (arith, sect.whole) in
        rw whole (
          section_step fuel (framer_in pid (a ∷ ps) (collecting (length s)) q synced) q c b bs s
            rest ss' t
            (collecting_whole S pid laws synced q c (a ∷ ps) (b ∷ bs) s rest lo
              (omega (arith, hp.1)) sect same)
            λ r.
              ih r.0 r.1 [] rest rest ss' tt seg refl (IsBytes-suffix s rest (subst IsBytes e' hb))
                (omega (arith, hp.1)))

    feed_loop-Segments : (fuel : ℕ) (t : List ℕ) → Continues fuel t
    feed_loop-Segments fuel t q c p [] x ss hp seg e hb m =
        at_end fuel q c p x ss t hp seg (e ∙ append-nil p)
    feed_loop-Segments zero t q c p (b ∷ bs) x ss hp seg e hb m = absurd (omega arith)
    feed_loop-Segments (suc fuel) t q c [] (b ∷ bs) x ss hp seg e hb m =
        from_idle fuel q c b bs x ss t seg e hb (omega arith) λ q' c' rest ss' seg' hb' m'.
          feed_loop-Segments fuel t q' c' [] rest rest ss' tt seg' refl hb' m'
    feed_loop-Segments (suc fuel) t q c (a ∷ ps) (b ∷ bs) x ss hp seg e hb m =
        elim (Bool-cases (ltb (length (a ∷ ps)) 3)) [
          | inl few ↦ rw few (
              from_short fuel q c a ps b bs x ss t hp.0 (ltb→lt _ _ few) seg e hb (omega arith)
                (feed_loop-Segments fuel t))
          | inr many ↦
              from_long fuel q c a ps b bs x ss t hp (ltb→le _ _ many) seg e hb (omega arith)
                (feed_loop-Segments fuel t)
        ]

    -- What the framer holds and the new bytes together are some whole
    -- accepted sections, none of which begins with a stuffing byte, and then a part of one. The
    -- sections are delivered, in order, and the part is held.
    pub feed-Segments :
        (q : P) (c : C) (p bytes : List ℕ) (ss : List (List ℕ)) (t : List ℕ)
        → IsPartial S pid p
        → IsBytes (p ++ bytes)
        → Segments S pid (p ++ bytes) ss t
        → feed S (holding S pid synced q p) c bytes
          ≡ (deliver_all S pid q c ss >>= λ r. ok (holding S pid synced r.0 t, r.1))
    unfolding feed
    feed-Segments q c p bytes ss t hp hb seg =
        feed_loop-Segments (2 * length bytes + 1) t q c p bytes (p ++ bytes) ss hp seg refl hb
          (omega arith)
