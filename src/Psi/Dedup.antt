-- ===== src/Psi/Dedup.antt =====
-- src/psi/mod.rs: `DedupSectionSyntaxPayloadParser`, which passes on a section unless its version
-- is that of the last one passed on.
use mpeg2ts_reader.Base.{
  ℕ, ◌/◌, ◌%◌, ◌≤◌, ◌≡◌, refl, Bool, false, ◌==◌, Bool-cases, inl, inr, if◌then◌else◌, List, [],
  ◌∷◌, length, get_or, All, Option, some, none,
}
use mpeg2ts_reader.Base.{ok, err, panic, ◌>>=◌}
use mpeg2ts_reader.Base.Bits.{IsBytes}
use mpeg2ts_reader.Psi.Section.Facts.{table_syntax_header_lem}
use mpeg2ts_reader.Psi.Section.{Fault, SectionCommonHeader, TableSyntaxHeader, Run, version}
use mpeg2ts_reader.Psi.Syntax.{WholeSectionParser}

pub record Deduplicated (P : Type 0) : Type 0 where
  pub inner : P
  pub last_version : Option ℕ

unfoldable pub new : {P : Type 0} → P → Deduplicated P
new inner = record { inner = inner; last_version = none }

-- `self.last_version == Some(version)`.
abbrev pub is_last : Option ℕ → ℕ → Bool
is_last none v = false
is_last (some u) v = u == v

module _ {P C : Type 0} (w : WholeSectionParser P C) where
  unfoldable pub section :
      Deduplicated P
      → C
      → SectionCommonHeader
      → TableSyntaxHeader
      → List ℕ
      → Run (Deduplicated P × C)
  section p c header table_syntax_header data' = do
    v ← version table_syntax_header
    if is_last p.last_version v
        then ok (p, c)
        else w.section p.inner c header table_syntax_header data' >>= λ r.
            ok (record { inner = r.0; last_version = some v }, r.1)

  unfoldable pub reset : Deduplicated P → Deduplicated P
  reset p = record { inner = w.reset p.inner; last_version = none }

  abbrev pub parser : WholeSectionParser (Deduplicated P) C
  parser = record { section = section; reset = reset }

-- A section as it reaches a parser.
pub record Delivered : Type 0 where
  pub header : SectionCommonHeader
  pub table_syntax_header : TableSyntaxHeader
  pub data' : List ℕ

-- The version field of a section.
abbrev pub version_of : Delivered → ℕ
version_of s = get_or s.table_syntax_header.buf 2 0 / 2 % 32

-- Sections whose second header is there.
abbrev pub AreSections : List Delivered → Type 0
AreSections ss =
    All (λ s. (5 ≤ length s.table_syntax_header.buf) × IsBytes s.table_syntax_header.buf) ss

-- One section after the other.
unfoldable pub section_all :
    {P C : Type 0} → WholeSectionParser P C → P → C → List Delivered → Run (P × C)
section_all w p c [] = ok (p, c)
section_all w p c (s ∷ ss) =
    w.section p c s.header s.table_syntax_header s.data' >>= λ r. section_all w r.0 r.1 ss

-- The sections that have not the version of the one before them.
unfoldable pub changes : Option ℕ → List Delivered → List Delivered
changes last [] = []
changes last (s ∷ ss) =
    let rest = changes (some (version_of s)) ss in
    let unchanged = changes last ss in if is_last last (version_of s) then unchanged else s ∷ rest

-- The wrapper's result, its memory of the version dropped.
abbrev pub inner_of : {P C : Type 0} → Run (Deduplicated P × C) → Run (P × C)
inner_of m = m >>= λ r. ok ((r.0).inner, r.1)

-- What the wrapper does after the wrapped parser.
abbrev remember : {P C : Type 0} → ℕ → P × C → Deduplicated P × C
remember v r = (record { inner = r.0; last_version = some v }, r.1)

inner_of-remember :
    {P C : Type 0} (v : ℕ) (m : Run (P × C)) → inner_of (m >>= λ r. ok (remember v r)) ≡ m
inner_of-remember v (ok r) = refl
inner_of-remember v (err e) = refl
inner_of-remember v panic = refl

inner_of-bind :
    {P C : Type 0} (v : ℕ) (m : Run (P × C)) (f : Deduplicated P × C → Run (Deduplicated P × C))
    (g : P × C → Run (P × C))
    → ((r : P × C) → inner_of (f (remember v r)) ≡ g r)
    → inner_of ((m >>= λ r. ok (remember v r)) >>= f) ≡ (m >>= g)
inner_of-bind v (ok r) f g h = h r
inner_of-bind v (err e) f g h = refl
inner_of-bind v panic f g h = refl

-- Of a run of sections whose second headers have five bytes the wrapped parser is given, in order,
-- those whose version is not that of the last one it was given or remembered, and nothing else.
pub section_all-changes :
    {P C : Type 0} (w : WholeSectionParser P C) (p : Deduplicated P) (c : C) (ss : List Delivered)
    → AreSections ss
    → inner_of (section_all (parser w) p c ss) ≡ section_all w p.inner c (changes p.last_version ss)
unfolding section_all changes section
section_all-changes w p c [] h = refl
section_all-changes w p c (s ∷ ss) h =
    let e = (table_syntax_header_lem {E = Fault} s.table_syntax_header h.0.0 h.0.1).1 in
    elim (Bool-cases (is_last p.last_version (version_of s))) [
      | inl t ↦ rw (e, t) (section_all-changes w p c ss h.1)
      | inr t ↦
          rw (e, t)
            (inner_of-bind (version_of s)
              (w.section p.inner c s.header s.table_syntax_header s.data')
              (λ r. section_all (parser w) r.0 r.1 ss) _
              (λ r. section_all-changes w (remember (version_of s) r).0 r.1 ss h.1))
    ]

-- After a reset the next section, whose second header has five bytes, is passed on whatever its
-- version.
pub section-reset :
    {P C : Type 0} (w : WholeSectionParser P C) (p : Deduplicated P) (c : C) (s : Delivered)
    → AreSections (s ∷ [])
    → inner_of (section w (reset w p) c s.header s.table_syntax_header s.data')
      ≡ w.section (w.reset p.inner) c s.header s.table_syntax_header s.data'
unfolding section reset
section-reset w p c s h =
    let e = (table_syntax_header_lem {E = Fault} s.table_syntax_header h.0.0 h.0.1).1 in
    rw e (inner_of-remember (version_of s) _)
