-- ===== src/Tests/Streams.antt =====
-- Tests of the modules that are about src/demultiplex.rs.
use mpeg2ts_reader.Base.{
  ℕ, suc, ◌≤◌, ◌<◌, subst, Bool, ltb, ltb→lt, ◌||◌, All, ◌≡◌, refl, ap, ◌∙◌, arith, true, false,
  not, ◌&&◌, ◌==◌, ==→≡, Bool-cases, inl, inr, if◌then◌else◌, some, none, List, [], ◌∷◌, ◌++◌,
}
use mathlib.Core.Bool.{and-false}
use mpeg2ts_reader.Base.{ok, panic, ◌>>=◌}
use mpeg2ts_reader.Base.Bits.{IsBytes}
use mpeg2ts_reader.Packet.Fields.{Pid}
use mpeg2ts_reader.Packet.Header.{try_new}
use mpeg2ts_reader.Psi.Section.{Run, SectionCommonHeader}
use mpeg2ts_reader.Psi.Pat
use mpeg2ts_reader.Psi.Pat.Codec.{encode_all, programs-encode_all}
use mpeg2ts_reader.Demultiplex.Filters.{
  Filters, FilterChange, insertion, removal, get, apply_all, last_change, get-apply_all,
}
use mpeg2ts_reader.Demultiplex.Context.{DemuxContext, ContextLaws}
use mpeg2ts_reader.Demultiplex.Push.{push, chunks_exact}
use mpeg2ts_reader.Demultiplex.Push.Handling.{handle_all}
use mpeg2ts_reader.Demultiplex.Push.Reference.{push-handle_all}
use mpeg2ts_reader.Demultiplex.Push.Chunks.{joined, push-append}
use mpeg2ts_reader.Demultiplex.Tables.{FixedBitSet, PatProcessor, pat_new_table}
use mpeg2ts_reader.Demultiplex.Tables.Places.{SetLaws, IsSteady, occurs, Places}
use mpeg2ts_reader.Demultiplex.Tables.Entries.{found}
use mpeg2ts_reader.Demultiplex.Tables.Effects.{announced, pat_new_table-Places}
use mpeg2ts_reader.Tests.Packets.{buffer}

-- A context that is the queue of changes and a count of requests; a filter counts its packets.
abbrev pub Ctx : Type 0
Ctx = List (FilterChange ℕ) × ℕ

abbrev pub counting : DemuxContext Ctx ℕ
counting = record {
  error = λ c e. c;
  filter_changeset = λ c. c.0;
  set_changeset = λ c us. (us, c.1);
  construct = λ c r. (0, (c.0, suc c.1));
  consume = λ f c pk. ok (suc f, c);
}

pub counting-laws : ContextLaws counting
counting-laws = record { get-set = λ c us. refl; set-get = λ c. refl }

pub counting-IsSteady : IsSteady counting
counting-IsSteady = record { steady-construct = λ c r. refl; steady-error = λ c e. refl }

abbrev pub quiet : Ctx
quiet = ([], 0)

push-handle_all_example :
    push counting [] quiet (buffer ++ buffer)
    ≡ handle_all counting [] quiet (chunks_exact (buffer ++ buffer))
push-handle_all_example = push-handle_all counting counting-laws [] quiet (buffer ++ buffer)

buffer-try_new : try_new buffer ≡ ok (record { buf = buffer })
unfolding try_new
buffer-try_new = refl

push-append_example :
    push counting [] quiet (joined (buffer ∷ []) ++ buffer)
    ≡ (push counting [] quiet (joined (buffer ∷ [])) >>= λ r. push counting r.0 r.1 buffer)
push-append_example =
    push-append counting counting-laws [] quiet (buffer ∷ []) buffer ((refl, buffer-try_new), tt)

abbrev pid_of : ℕ → Pid
pid_of n = record { val = n }

get-apply_all_example :
    get {F = ℕ}
      (apply_all (insertion (pid_of 2) 5 ∷ removal (pid_of 1) ∷ []) (none ∷ some 7 ∷ []))
      (pid_of 2)
    ≡ some 5
unfolding last_change
get-apply_all_example =
    get-apply_all (insertion (pid_of 2) 5 ∷ removal (pid_of 1) ∷ []) (none ∷ some 7 ∷ []) (pid_of 2)

abbrev without : List ℕ → List ℕ → List ℕ
without [] b = []
without (p ∷ a) b = let rest = without a b in if occurs p b then rest else p ∷ rest

-- A set of at most the given number of bits.
pub record Bits (n : ℕ) : Type 0 where
  pub bits : List ℕ
  pub small : All (λ p. p < n) bits

abbrev insert_if : {n : ℕ} (b : Bits n) (p : ℕ) (t : Bool) → ltb p n ≡ t → Run (Bits n)
insert_if {n} b p true e = ok (record { bits = p ∷ b.bits; small = (ltb→lt p n e, b.small) })
insert_if b p false e = panic

abbrev pub bits : FixedBitSet Bits
bits = record {
  with_capacity = λ n. record { bits = []; small = tt };
  insert = λ {n} b p. insert_if b p (ltb p n) refl;
  difference = λ a b. without a.bits b.bits;
}

pub occurs-lt : (n : ℕ) (ps : List ℕ) (q : ℕ) → All (λ p. p < n) ps → occurs q ps ≡ true → q < n
occurs-lt n [] q h o = cc
occurs-lt n (p ∷ ps) q (h, hs) o = elim (Bool-cases (p == q)) [
  | inl e ↦ subst (λ (x : ℕ). x < n) (==→≡ p q e) h
  | inr e ↦ occurs-lt n ps q hs (ground arith)
]

pub insert_if-member :
    {n : ℕ} (b : Bits n) (p : ℕ) (t : Bool) (e : ltb p n ≡ t)
    → p < n
    → (b' : Bits n) × (insert_if b p t e ≡ ok b')
      × ((q : ℕ) → occurs q b'.bits ≡ (p == q || occurs q b.bits))
insert_if-member b p true e h = (_, refl, λ q. refl)
insert_if-member b p false e h = absurd (ground arith)

pub insert_if-panic :
    {n : ℕ} (b : Bits n) (p : ℕ) (t : Bool) (e : ltb p n ≡ t) → n ≤ p → insert_if b p t e ≡ panic
insert_if-panic b p true e h = absurd (ground arith)
insert_if-panic b p false e h = refl

pub occurs-without :
    (a b : List ℕ) (q : ℕ) → occurs q (without a b) ≡ (occurs q a && not (occurs q b))
occurs-without [] b q = refl
occurs-without (p ∷ a) b q = elim (Bool-cases (p == q)) [
  | inl e ↦
      (let same : occurs p b ≡ occurs q b = ap (λ (x : ℕ). occurs x b) (==→≡ p q e) in
        elim (Bool-cases (occurs q b)) [
          | inl o ↦ rw (same ∙ o, e, o) (occurs-without a b q ∙ rw o (and-false (occurs q a)))
          | inr o ↦ rw (same ∙ o, e, o) refl
        ])
  | inr e ↦ elim (Bool-cases (occurs p b)) [
    | inl o ↦ rw (o, e) (occurs-without a b q)
    | inr o ↦ rw (o, e) (occurs-without a b q)
  ]
]

abbrev pub bits-laws : SetLaws bits
bits-laws = record {
  member = λ b q. occurs q b.bits;
  member-lt = λ {n} b q o. occurs-lt n b.bits q b.small o;
  member-with_capacity = λ n q. refl;
  insert-member = λ {n} b p h. insert_if-member b p (ltb p n) refl h;
  insert-panic = λ {n} b p h. insert_if-panic b p (ltb p n) refl h;
  occurs-difference = λ a b q. occurs-without a.bits b.bits q;
}

abbrev pub two_pids : Bits 8192
two_pids = record { bits = 0x100 ∷ 0x101 ∷ []; small = (omega arith, (omega arith, tt)) }

abbrev registered : PatProcessor Bits
registered = record { filters_registered = two_pids }

abbrev pat_header : SectionCommonHeader
pat_header = record {
  table_id = 0;
  section_syntax_indicator = true;
  private_indicator = false;
  section_length = 13;
}

abbrev entries : List Pat.Item
entries = inr (Pat.program 1 (pid_of 0x101)) ∷ inr (Pat.program 2 (pid_of 0x102)) ∷ []

abbrev pub table : Filters ℕ
table = some 9 ∷ []

programs-IsBytes :
    IsBytes (encode_all 7 (Pat.program 1 (pid_of 0x101) ∷ Pat.program 2 (pid_of 0x102) ∷ []) ++ [])
unfolding encode_all
programs-IsBytes = (
  omega arith,
  (
    omega arith,
    (omega arith, (omega arith, (omega arith, (omega arith, (omega arith, (omega arith, tt)))))),
  ),
)

-- The program on PID 0x100 is gone, the one on 0x102 is new.
pat_new_table-Places_example :
    (p' : PatProcessor Bits) × (c' : Ctx) × (pat_new_table bits counting registered quiet pat_header
        (encode_all 7 (Pat.program 1 (pid_of 0x101) ∷ Pat.program 2 (pid_of 0x102) ∷ []) ++ [])
      ≡ ok (p', c'))
    × ((q : ℕ) → occurs q p'.filters_registered.bits ≡ announced q entries)
    × ((q : ℕ)
        → Places (announced q entries) (found counting counting-laws table c' q) (
            if occurs q (0x100 ∷ 0x101 ∷ [])
            then none
            else found counting counting-laws table quiet q))
pat_new_table-Places_example =
    pat_new_table-Places bits bits-laws counting counting-laws counting-IsSteady table registered
      quiet pat_header
      (encode_all 7 (Pat.program 1 (pid_of 0x101) ∷ Pat.program 2 (pid_of 0x102) ∷ []) ++ [])
      entries refl programs-IsBytes
      (programs-encode_all 7 (Pat.program 1 (pid_of 0x101) ∷ Pat.program 2 (pid_of 0x102) ∷ []) []
        ((omega arith, omega arith, omega arith), ((omega arith, omega arith, omega arith), tt))
        (omega arith))
