-- ===== src/Psi/Framer/Invariant.antt =====
-- src/psi/mod.rs: what holds of a framer between two calls, and that one round of its loop keeps it.
use mpeg2ts_reader.Base.{
  ℕ, ◌+◌, ◌-◌, ◌*◌, ◌≤◌, ◌<◌, ◌≡◌, refl, sym, ◌∙◌, arith, min, Bool, true, leb, ltb, ◌==◌, leb→le,
  Bool-cases, inl, inr, if◌then◌else◌, List, [], take, drop, length, length-take, length-drop,
}
use mpeg2ts_reader.Base.{ok, slice_from_lem, slice_prefix}
use mpeg2ts_reader.Base.Bits.{IsBytes, IsBytes-take, IsBytes-drop}
use mpeg2ts_reader.Packet.Fields.{Pid}
use mpeg2ts_reader.Psi.Section.{Run, Fault}
use mpeg2ts_reader.Psi.Section.Facts.{header_of, length_field, header_of-take, length_field-take}
use mpeg2ts_reader.Psi.Syntax.{SectionSyntax, SyntaxLaws}
use mpeg2ts_reader.Psi.Framer.{
  Framer, FramerState, idle, collecting, ignoring, Round, stop, again, skip_body, take_section,
  feed_ignoring,
}

-- How many bytes a buffer that begins a section has to grow to.
abbrev pub target_of : List ℕ → ℕ
target_of buf = if ltb (length buf) 3 then 3 else 3 + length_field buf

-- A framer, field by field.
abbrev pub framer_in : {P : Type 0} → Pid → List ℕ → FramerState → P → Bool → Framer P
framer_in pid buf st q synced = record {
  pid = pid;
  buf = buf;
  state = st;
  parser = q;
  synced = synced;
}

module _ {P C : Type 0} (S : SectionSyntax P C) where
  -- The header at the start of the buffer is accepted.
  abbrev pub IsAccepted : Pid → List ℕ → Type 0
  IsAccepted pid buf = (c : C) → (S.validate_header pid c (header_of buf)).1 ≡ true

  -- A whole section with an accepted header, and nothing more.
  pub record IsSection (pid : Pid) (sect : List ℕ) : Type 0 where
    pub bytes : IsBytes sect
    pub header : 3 ≤ length sect
    pub whole : length sect ≡ 3 + length_field sect
    pub accepted : IsAccepted pid sect

  -- The parser returns for every section that the framer may hand to it.
  abbrev pub Delivers : Pid → Type 0
  Delivers pid =
      (q : P) (c : C) (sect : List ℕ)
      → IsSection pid sect
      → (r : P × C) × (S.deliver_section q c (header_of sect) sect ≡ ok r)

  abbrev pub Fits : Pid → FramerState → List ℕ → Type 0
  Fits pid idle buf = buf ≡ []
  Fits pid (collecting target) buf =
      (target ≡ target_of buf) × (length buf < target) × (3 ≤ length buf → IsAccepted pid buf)
  Fits pid (ignoring remaining) buf = (buf ≡ []) × (remaining ≤ 4095)

  pub record IsValid (f : Framer P) : Type 0 where
    pub bytes : IsBytes f.buf
    pub fits : Fits f.pid f.state f.buf

  abbrev pub waits : FramerState → ℕ
  waits idle = 0
  waits (collecting target) = 0
  waits (ignoring remaining) = if remaining == 0 then 1 else 0

  -- It falls with every round.
  abbrev pub measure : Framer P → List ℕ → ℕ
  measure f bytes = 2 * length bytes + waits f.state

  abbrev pub Keeps : Framer P → List ℕ → Round P C → Type 0
  Keeps f bytes (stop f' c') = IsValid f' × (f'.pid ≡ f.pid)
  Keeps f bytes (again f' c' rest) =
      IsValid f' × (f'.pid ≡ f.pid) × IsBytes rest × (measure f' rest < measure f bytes)

  -- The round returns, and keeps the invariant.
  pub record Goes (f : Framer P) (bytes : List ℕ) (r : Run (Round P C)) : Type 0 where
    pub out : Round P C
    pub returns : r ≡ ok out
    pub keeps : Keeps f bytes out

  module _ (laws : SyntaxLaws S) where
    pub IsAccepted-from :
        (pid : Pid) (c : C) (buf : List ℕ)
        → (S.validate_header pid c (header_of buf)).1 ≡ true
        → IsAccepted pid buf
    IsAccepted-from pid c buf h d = laws.steady pid d c (header_of buf) ∙ h

    module _ (pid : Pid) (buf : List ℕ) (q : P) (synced : Bool) where
      abbrev inside : FramerState → Framer P
      inside st = framer_in pid buf st q synced

      pub feed_ignoring-Goes :
          (c : C) (remaining : ℕ) (bytes : List ℕ)
          → IsValid (inside (ignoring remaining))
          → IsBytes bytes
          → 0 < length bytes
          → Goes
              (inside (ignoring remaining))
              bytes
              (feed_ignoring S (inside (ignoring remaining)) c remaining bytes)
      unfolding feed_ignoring
      feed_ignoring-Goes c remaining bytes v hb n =
          let k = min remaining (length bytes) in
          let rest : List ℕ = drop k bytes in
          let cut = slice_from_lem {E = Fault} bytes k (omega arith) in
          let size = length-drop k bytes in
          elim (Bool-cases (k == remaining)) [
            | inl e ↦ record {
              out = again (inside idle) c rest;
              returns = rw (cut, e);
              keeps = (
                record { bytes = v.bytes; fits = v.fits.0 },
                refl,
                IsBytes-drop k bytes hb,
                ground arith,
              );
            }
            | inr e ↦ record {
              out = again (inside (ignoring (remaining - k))) c rest;
              returns = rw (cut, e);
              keeps = (
                record { bytes = v.bytes; fits = (v.fits.0, ground arith) },
                refl,
                IsBytes-drop k bytes hb,
                ground arith,
              );
            }
          ]

      pub skip_body-Goes :
          (c : C) (bytes : List ℕ) (total : ℕ)
          → IsValid (inside idle)
          → IsBytes bytes
          → 3 ≤ length bytes
          → 3 ≤ total
          → total ≤ 4098
          → Goes (inside idle) bytes (skip_body S (inside idle) c bytes total)
      unfolding skip_body
      skip_body-Goes c bytes total v hb n lo hi =
          let k = min total (length bytes) in
          let cut = slice_from_lem {E = Fault} bytes k (omega arith) in
          let size = length-drop k bytes in
          elim (Bool-cases (ltb k total)) [
            | inl e ↦ record {
              out = again (inside (ignoring (total - k))) c (drop k bytes);
              returns = rw (cut, e);
              keeps = (
                record { bytes = v.bytes; fits = (v.fits, ground arith) },
                refl,
                IsBytes-drop k bytes hb,
                ground arith,
              );
            }
            | inr e ↦ record {
              out = again (inside idle) c (drop k bytes);
              returns = rw (cut, e);
              keeps = (v, refl, IsBytes-drop k bytes hb, ground arith);
            }
          ]

      pub take_section-Goes :
          (delivers : Delivers pid) (c : C) (bytes : List ℕ) (total : ℕ)
          → IsValid (inside idle)
          → IsBytes bytes
          → 3 ≤ length bytes
          → IsAccepted pid bytes
          → total ≡ 3 + length_field bytes
          → Goes (inside idle) bytes (take_section S (inside idle) c bytes (header_of bytes) total)
      unfolding take_section
      take_section-Goes delivers c bytes total v hb n acc ht =
          let head = header_of-take total bytes (omega arith) in
          let field = length_field-take total bytes (omega arith) in
          elim (Bool-cases (leb total (length bytes))) [
            | inl e ↦
                let fits : total ≤ length bytes = leb→le _ _ e in
                let size : length (take total bytes) ≡ total =
                  omega (arith, length-take total bytes) in
                let sect : IsSection pid (take total bytes) = record {
                  bytes = IsBytes-take total bytes hb;
                  header = omega arith;
                  whole = omega arith;
                  accepted = λ d. rw head (acc d);
                } in
                let (r, done) = delivers q c (take total bytes) sect in
                record {
                  out =
                      again
                        (record {
                          pid = pid;
                          buf = buf;
                          state = idle;
                          parser = r.0;
                          synced = synced;
                        })
                        r.1 (drop total bytes);
                  returns = rw (
                    e,
                    slice_prefix {E = Fault} bytes total fits,
                    slice_from_lem {E = Fault} bytes total fits,
                    sym head,
                    done,
                  );
                  keeps = (
                    record { bytes = v.bytes; fits = v.fits },
                    refl,
                    IsBytes-drop total bytes hb,
                    omega (arith, length-drop total bytes),
                  );
                }
            | inr e ↦ record {
              out =
                  stop
                    (record {
                      pid = pid;
                      buf = bytes;
                      state = collecting total;
                      parser = q;
                      synced = synced;
                    })
                    c;
              returns = rw e;
              keeps = (record { bytes = hb; fits = (ground arith, ground arith, λ _. acc) }, refl);
            }
          ]
