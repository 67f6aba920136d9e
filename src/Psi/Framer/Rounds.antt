-- ===== src/Psi/Framer/Rounds.antt =====
-- src/psi/mod.rs: every round of the loop in `feed` returns, keeps the invariant, and comes nearer to
-- the end of the bytes; so `feed` returns too.
use mpeg2ts_reader.Base.{
  ℕ, ◌+◌, ◌-◌, ◌*◌, ◌≤◌, ◌<◌, ◌≡◌, ◌≢◌, refl, sym, ap, ◌∙◌, arith, min, Bool, leb, ltb, ◌==◌, ==→≡,
  ltb→le, leb→le, le→leb, ==→≢, Bool-cases, inl, inr, List, [], ◌++◌, take, drop, length, get_or,
  take_all, length-append, length-take, length-drop,
}
use mpeg2ts_reader.Base.{slice_from_lem, slice_prefix, index-lt}
use mpeg2ts_reader.Base.Bits.{IsBytes, IsBytes-take, IsBytes-drop, IsBytes-append}
use mpeg2ts_reader.Packet.Fields.{Pid}
use mpeg2ts_reader.Psi.Section.{Fault}
use mpeg2ts_reader.Psi.Section.Facts.{
  header_of, length_field, new_common_lem, length_field-le, header_of-append, length_field-append,
  section_length-header_of,
}
use mpeg2ts_reader.Psi.Syntax.{SectionSyntax, SyntaxLaws}
use mpeg2ts_reader.Psi.Framer.{
  Framer, FramerState, idle, collecting, ignoring, stop, again, feed_idle, promote, complete,
  feed_collecting, round_in,
}
use mpeg2ts_reader.Psi.Framer.Invariant.{
  target_of, framer_in, IsAccepted, IsSection, Delivers, IsValid, Goes, measure, IsAccepted-from,
  feed_ignoring-Goes, skip_body-Goes, take_section-Goes,
}

module _ {P C : Type 0} (S : SectionSyntax P C) (laws : SyntaxLaws S) (pid : Pid)
    (delivers : Delivers S pid) where
  module _ (buf : List ℕ) (q : P) (synced : Bool) where
    abbrev inside : FramerState → Framer P
    inside st = framer_in pid buf st q synced

    feed_idle-Goes :
        (c : C) (bytes : List ℕ)
        → IsValid S (inside idle)
        → IsBytes bytes
        → 0 < length bytes
        → Goes S (inside idle) bytes (feed_idle S (inside idle) c bytes)
    unfolding feed_idle
    feed_idle-Goes c bytes v hb n =
        let read = index-lt {E = Fault} bytes 0 (omega arith) in
        elim (Bool-cases (get_or bytes 0 0 == 255)) [
          | inl e ↦ record { out = stop (inside idle) c; returns = rw (read, e); keeps = (v, refl) }
          | inr e ↦ elim (Bool-cases (leb 3 (length bytes))) [
            | inr short ↦ record {
              out = stop (framer_in pid bytes (collecting 3) q synced) c;
              returns = rw (read, e, short);
              keeps = (
                record {
                  bytes = hb;
                  fits = (ground arith, ground arith, λ h. absurd (ground arith));
                },
                refl,
              );
            }
            | inl enough ↦
                let size : 3 ≤ length bytes = leb→le _ _ enough in
                let pre = slice_prefix {E = Fault} bytes 3 size in
                let head = new_common_lem bytes size hb in
                let bound = length_field-le bytes hb in
                let long = section_length-header_of bytes in
                elim (Bool-cases (S.validate_header pid c (header_of bytes)).1) [
                  | inl yes_valid ↦
                      let same = (laws.accepts pid c (header_of bytes) yes_valid).0 in
                      rw (read, e, enough, pre, head, yes_valid, same)
                        (take_section-Goes S laws pid buf q synced delivers c bytes
                          (3 + (header_of bytes).section_length) v hb size
                          (IsAccepted-from S laws pid c bytes yes_valid)
                          (ap (λ (k : ℕ). 3 + k) long))
                  | inr no_valid ↦
                      rw (read, e, enough, pre, head, no_valid)
                        (skip_body-Goes S laws pid buf q synced
                          (S.validate_header pid c (header_of bytes)).0 bytes
                          (3 + (header_of bytes).section_length) v hb size (omega arith)
                          (omega arith))
                ]
          ]
        ]

    -- The rounds that a full buffer leads to: `buf` has been filled up to its target.
    promote-Goes :
        (c : C) (target : ℕ) (bytes : List ℕ) (g : Framer P) (was : List ℕ)
        → IsBytes buf
        → length buf ≡ 3
        → IsBytes bytes
        → (g.pid ≡ pid)
        → 2 * length bytes + 1 < measure S g was
        → Goes S g was (promote S (inside (collecting target)) c bytes)
    unfolding promote
    promote-Goes c target bytes g was hbuf full hb same_pid less =
        let pre = slice_prefix {E = Fault} buf 3 (omega arith) in
        let head = new_common_lem buf (omega arith) hbuf in
        let long = section_length-header_of buf in
        elim (Bool-cases (S.validate_header pid c (header_of buf)).1) [
          | inr no_valid ↦ record {
            out =
                again (framer_in pid [] (ignoring (length_field buf)) q synced)
                  (S.validate_header pid c (header_of buf)).0 bytes;
            returns = rw (pre, head, no_valid, long);
            keeps = (
              record { bytes = tt; fits = (refl, length_field-le buf hbuf) },
              sym same_pid,
              hb,
              ground arith,
            );
          }
          | inl yes_valid ↦
              let same = (laws.accepts pid c (header_of buf) yes_valid).0 in
              let acc = IsAccepted-from S laws pid c buf yes_valid in
              elim (Bool-cases (3 + length_field buf == 3)) [
                | inl empty ↦
                    let sect : IsSection S pid buf = record {
                      bytes = hbuf;
                      header = omega arith;
                      whole = ground arith;
                      accepted = acc;
                    } in
                    let (r, done) = delivers q c buf sect in
                    record {
                      out = again (framer_in pid [] idle r.0 synced) r.1 bytes;
                      returns = rw (pre, head, yes_valid, same, done, long, empty);
                      keeps = (record { bytes = tt; fits = refl }, sym same_pid, hb, omega arith);
                    }
                | inr more ↦ record {
                  out = again (inside (collecting (3 + length_field buf))) c bytes;
                  returns = rw (pre, head, yes_valid, same, long, more);
                  keeps = (
                    record { bytes = hbuf; fits = (ground arith, ground arith, λ _. acc) },
                    sym same_pid,
                    hb,
                    omega arith,
                  );
                }
              ]
        ]

    complete-Goes :
        (c : C) (target : ℕ) (bytes : List ℕ) (g : Framer P) (was : List ℕ)
        → IsSection S pid buf
        → length buf ≡ target
        → IsBytes bytes
        → (g.pid ≡ pid)
        → 2 * length bytes + 1 < measure S g was
        → Goes S g was (complete S (inside (collecting target)) c target bytes)
    unfolding complete
    complete-Goes c target bytes g was sect full hb same_pid less =
        let pre = slice_prefix {E = Fault} buf 3 sect.header in
        let head = new_common_lem buf sect.header sect.bytes in
        let all = slice_prefix {E = Fault} buf target (omega arith) in
        let whole = take_all target buf (omega arith) in
        let (r, done) = delivers q c buf sect in
        record {
          out = again (framer_in pid [] idle r.0 synced) r.1 bytes;
          returns = rw (pre, head, all, whole, done);
          keeps = (record { bytes = tt; fits = refl }, sym same_pid, hb, omega arith);
        }

  -- Bytes are added to a buffer that begins a section and does not reach its end.
  target_of-append :
      (buf more : List ℕ)
      → length (buf ++ more) < target_of buf
      → target_of (buf ++ more) ≡ target_of buf
  target_of-append buf more h = elim (Bool-cases (ltb (length buf) 3)) [
    | inl e ↦ ground arith
    | inr e ↦
        let field = length_field-append buf more (ltb→le _ _ e) in
        ground (arith, length-append buf more)
  ]

  IsAccepted-append :
      (buf more : List ℕ)
      → length (buf ++ more) < target_of buf
      → (3 ≤ length buf → IsAccepted S pid buf)
      → 3 ≤ length (buf ++ more)
      → IsAccepted S pid (buf ++ more)
  IsAccepted-append buf more h acc n d =
      let long : 3 ≤ length buf = ground arith in rw (header_of-append buf more long) (acc long d)

  IsSection-append :
      (buf more : List ℕ) (target : ℕ)
      → target ≡ target_of buf
      → target ≢ 3
      → IsBytes (buf ++ more)
      → length (buf ++ more) ≡ target
      → (3 ≤ length buf → IsAccepted S pid buf)
      → IsSection S pid (buf ++ more)
  IsSection-append buf more target ht ne hb full acc =
      let long : 3 ≤ length buf = ground arith in
      record {
        bytes = hb;
        header = omega (arith, length-append buf more);
        whole = rw (length_field-append buf more long) (ground arith);
        accepted = λ d. rw (header_of-append buf more long) (acc long d);
      }

  feed_collecting-Goes :
      (buf : List ℕ) (q : P) (synced : Bool) (c : C) (target : ℕ) (bytes : List ℕ)
      → IsValid S (framer_in pid buf (collecting target) q synced)
      → IsBytes bytes
      → 0 < length bytes
      → Goes S
          (framer_in pid buf (collecting target) q synced)
          bytes
          (feed_collecting S (framer_in pid buf (collecting target) q synced) c target bytes)
  unfolding feed_collecting
  feed_collecting-Goes buf q synced c target bytes v hb n =
      let (ht, room, acc) = v.fits in
      let k = min (target - length buf) (length bytes) in
      let full : List ℕ = buf ++ take k bytes in
      let enter = le→leb (length buf) target (omega arith) in
      let pre = slice_prefix {E = Fault} bytes k (omega arith) in
      let cut = slice_from_lem {E = Fault} bytes k (omega arith) in
      let size : length full ≡ length buf + k =
        omega (arith, length-append buf (take k bytes), length-take k bytes) in
      let rest_size = length-drop k bytes in
      let full_bytes = IsBytes-append buf (take k bytes) v.bytes (IsBytes-take k bytes hb) in
      let rest_bytes = IsBytes-drop k bytes hb in
      elim (Bool-cases (length full == target)) [
        | inl e ↦
            let reached : length full ≡ target = ==→≡ _ _ e in
            elim (Bool-cases (target == 3)) [
              | inl three ↦
                  rw (enter, pre, cut, e, three)
                    (promote-Goes full q synced c target (drop k bytes)
                      (framer_in pid buf (collecting target) q synced) bytes full_bytes
                      (ground arith) rest_bytes refl (omega arith))
              | inr other ↦
                  rw (enter, pre, cut, e, other)
                    (complete-Goes full q synced c target (drop k bytes)
                      (framer_in pid buf (collecting target) q synced) bytes
                      (IsSection-append buf (take k bytes) target ht (==→≢ _ _ other) full_bytes
                        reached acc)
                      reached rest_bytes refl (omega arith))
            ]
        | inr e ↦
            let short : length full < target = ground arith in
            record {
              out = again (framer_in pid full (collecting target) q synced) c (drop k bytes);
              returns = rw (enter, pre, cut, e);
              keeps = (
                record {
                  bytes = full_bytes;
                  fits = (
                    ht ∙ sym (target_of-append buf (take k bytes) (rw (← ht) short)),
                    short,
                    IsAccepted-append buf (take k bytes) (rw (← ht) short) acc,
                  );
                },
                refl,
                rest_bytes,
                omega arith,
              );
            }
      ]

  pub round-Goes :
      (st : FramerState) (buf : List ℕ) (q : P) (synced : Bool) (c : C) (bytes : List ℕ)
      → IsValid S (framer_in pid buf st q synced)
      → IsBytes bytes
      → 0 < length bytes
      → Goes S
          (framer_in pid buf st q synced)
          bytes
          (round_in S st (framer_in pid buf st q synced) c bytes)
  unfolding round_in
  round-Goes idle buf q synced c bytes v hb n = feed_idle-Goes buf q synced c bytes v hb n
  round-Goes (collecting target) buf q synced c bytes v hb n =
      feed_collecting-Goes buf q synced c target bytes v hb n
  round-Goes (ignoring remaining) buf q synced c bytes v hb n =
      feed_ignoring-Goes S laws pid buf q synced c remaining bytes v hb n
