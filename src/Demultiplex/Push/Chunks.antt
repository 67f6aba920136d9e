-- ===== src/Demultiplex/Push/Chunks.antt =====
-- src/demultiplex.rs: the packets of a buffer, and a stream that comes in several buffers.
use mpeg2ts_reader.Base.{
  ℕ, zero, suc, ◌≤◌, ◌≡◌, refl, sym, ap, ap₂, ◌∙◌, arith, Bool, true, leb, Bool-cases, inl, inr,
  le→leb, if◌then◌else◌, List, [], ◌∷◌, ◌++◌, length, take, drop, All, append_assoc, length-append,
  length-drop, take-append_length, drop-append_length, append-nil,
}
use mpeg2ts_reader.Base.{ok, ◌>>=◌, bind_assoc, bind_ext}
use mpeg2ts_reader.Packet.Header.{try_new}
use mpeg2ts_reader.Demultiplex.Filters.{Filters}
use mpeg2ts_reader.Demultiplex.Context.{DemuxContext, ContextLaws}
use mpeg2ts_reader.Demultiplex.Push.{chunks, chunks_exact, push}
use mpeg2ts_reader.Demultiplex.Push.Handling.{handle, handle_all}
use mpeg2ts_reader.Demultiplex.Push.Reference.{push-handle_all}

chunks_fuel :
    (n m : ℕ) (buf : List ℕ) → length buf ≤ n → length buf ≤ m → chunks n buf ≡ chunks m buf
unfolding chunks
chunks_fuel zero zero buf h k = refl
chunks_fuel zero (suc m) [] h k = refl
chunks_fuel zero (suc m) (b ∷ bs) h k = absurd (omega arith)
chunks_fuel (suc n) zero [] h k = refl
chunks_fuel (suc n) zero (b ∷ bs) h k = absurd (omega arith)
chunks_fuel (suc n) (suc m) buf h k = elim (Bool-cases (leb 188 (length buf))) [
  | inl e ↦ rw e (
      ap (λ rest. take 188 buf ∷ rest)
        (chunks_fuel n m (drop 188 buf) (ground (arith, length-drop 188 buf))
          (ground (arith, length-drop 188 buf))))
  | inr e ↦ rw e refl
]

-- A whole packet in front is the first chunk.
chunks_exact-packet : (p b : List ℕ) → length p ≡ 188 → chunks_exact (p ++ b) ≡ p ∷ chunks_exact b
unfolding chunks_exact chunks
chunks_exact-packet p b h =
    let n = length (p ++ b) in
    let long : leb 188 n ≡ true = le→leb 188 n (omega (arith, length-append p b)) in
    let first : take 188 (p ++ b) ≡ p =
      ap (λ (k : ℕ). take k (p ++ b)) (sym h) ∙ take-append_length p b in
    let rest : drop 188 (p ++ b) ≡ b =
      ap (λ (k : ℕ). drop k (p ++ b)) (sym h) ∙ drop-append_length p b in
    chunks_fuel n (suc n) (p ++ b) (omega arith) (omega arith)
    ∙ ap (λ (t : Bool). if t then take 188 (p ++ b) ∷ chunks n (drop 188 (p ++ b)) else []) long
    ∙ ap₂ (λ (x : List ℕ) (y : List ℕ). x ∷ chunks n y) first rest
    ∙ ap (λ cs. p ∷ cs)
        (chunks_fuel n (length b) b (omega (arith, length-append p b)) (omega arith))

pub joined : List (List ℕ) → List ℕ
joined [] = []
joined (p ∷ ps) = p ++ joined ps

-- Whole packets with their sync byte.
abbrev pub AreSynced : List (List ℕ) → Type 0
AreSynced ps = All (λ p. (length p ≡ 188) × (try_new p ≡ ok (record { buf = p }))) ps

chunks_exact-joined :
    (ps : List (List ℕ)) (b : List ℕ)
    → AreSynced ps
    → chunks_exact (joined ps ++ b) ≡ ps ++ chunks_exact b
unfolding joined
chunks_exact-joined [] b h = refl
chunks_exact-joined (p ∷ ps) b h =
    ap chunks_exact (append_assoc p (joined ps) b)
    ∙ chunks_exact-packet p (joined ps ++ b) h.0.0
    ∙ ap (λ cs. p ∷ cs) (chunks_exact-joined ps b h.1)

chunks_exact_whole : (ps : List (List ℕ)) → AreSynced ps → chunks_exact (joined ps) ≡ ps
unfolding chunks_exact chunks
chunks_exact_whole ps h =
    ap chunks_exact (sym (append-nil (joined ps))) ∙ chunks_exact-joined ps [] h ∙ append-nil ps

module _ {C F : Type 0} (D : DemuxContext C F) where
  handle_all-append :
      (fs : Filters F) (c : C) (ps qs : List (List ℕ))
      → AreSynced ps
      → handle_all D fs c (ps ++ qs) ≡ (handle_all D fs c ps >>= λ r. handle_all D r.0 r.1 qs)
  unfolding handle_all
  handle_all-append fs c [] qs h = refl
  handle_all-append fs c (p ∷ ps) qs h =
      rw (handle_all, h.0.1)
        (bind_ext (handle D fs c (record { buf = p })) _ _
            (λ r. handle_all-append r.0 r.1 ps qs h.1)
          ∙ sym (bind_assoc (handle D fs c (record { buf = p })) _ _))

-- For every context whose queue of changes reads back what was written to it, a stream may be
-- pushed in several buffers: the packets of the first, whole and synced, then the rest, leave the
-- filters and the context that one buffer with all of it leaves.
pub push-append :
    {C F : Type 0} (D : DemuxContext C F)
    → ContextLaws D
    → (fs : Filters F) (c : C) (ps : List (List ℕ)) (rest : List ℕ) → AreSynced ps
    → push D fs c (joined ps ++ rest) ≡ (push D fs c (joined ps) >>= λ r. push D r.0 r.1 rest)
push-append D laws fs c ps rest h =
    rw
      (
        push-handle_all D laws fs c (joined ps ++ rest),
        push-handle_all D laws fs c (joined ps),
        chunks_exact-joined ps rest h,
        chunks_exact_whole ps h,
      )
      (handle_all-append D fs c ps (chunks_exact rest) h
        ∙ bind_ext (handle_all D fs c ps) _ _ (λ r. sym (push-handle_all D laws r.0 r.1 rest)))
