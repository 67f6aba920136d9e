-- ===== src/Descriptor/Iter/Codec.antt =====
-- src/descriptor/mod.rs: `DescriptorIter` ends, and gives back the descriptors that were written
-- one after the other.
use mpeg2ts_reader.Base.{
  ℕ, zero, suc, ◌+◌, ◌-◌, ◌≤◌, ◌<◌, ◌≡◌, refl, arith, ltb, leb, ltb→le, ltb→lt, lt→ltb, le→ltb,
  true, false, ◌==◌, Bool-cases, inl, inr, some, List, [], ◌∷◌, ◌++◌, map, length, take, drop, All,
  length-append, length-drop, take-append_length, drop-append_length,
}
use mpeg2ts_reader.Base.{
  Outcome, ok, err, panic, Ends, NoPanic, slice_prefix, slice_from_lem, ◌>>=◌,
}
use mpeg2ts_reader.Base.Bits.{IsBytes, IsBytes-take, IsBytes-drop}
use mpeg2ts_reader.Psi.Section.{Fault}
use mpeg2ts_reader.Descriptor.{DescriptorError, not_enough_data, buffer_too_short}
use mpeg2ts_reader.Descriptor.Iter.{Item, item, next, items, descriptors}

-- A descriptor: its tag, the length of its payload, and the payload.
abbrev pub encode : ℕ × List ℕ → List ℕ
encode d = d.0 ∷ length d.1 ∷ d.1

abbrev pub encode_all : List (ℕ × List ℕ) → List ℕ
encode_all [] = []
encode_all (d ∷ ds) = encode d ++ encode_all ds

module _ {D : Type 0} (from_bytes : List ℕ → Outcome DescriptorError D) where
  module _ (tag len : ℕ) (rest : List ℕ) where
    size_lem :
        ((suc (suc (length rest)) == 0) ≡ false)
        × (ltb (suc (suc (length rest))) 2 ≡ false)
        × (leb 2 (suc (suc (length rest))) ≡ true)
        × (suc (suc (length rest)) - 2 ≡ length rest)
        × (len + 2 ≡ suc (suc len))
    size_lem = (ground arith, ground arith, ground arith, omega arith, omega arith)

    -- One step on a descriptor that is all there.
    next_lem :
        len ≤ length rest
        → next from_bytes (tag ∷ len ∷ rest)
          ≡ (item from_bytes (tag ∷ len ∷ take len rest) >>= λ i. ok (some (i, drop len rest)))
    unfolding next
    next_lem n =
        let (e1, e2, e3, e4, e5) = size_lem in
        rw
          (
            e1,
            e2,
            e3,
            e4,
            le→ltb (length rest) len n,
            e5,
            slice_prefix {E = Fault} (tag ∷ len ∷ rest) (suc (suc len)) (omega arith),
            slice_from_lem {E = Fault} (tag ∷ len ∷ rest) (suc (suc len)) (omega arith),
          )
          refl

    -- One step on a descriptor that is cut off: the iteration ends with an error.
    next_short :
        length rest < len
        → next from_bytes (tag ∷ len ∷ rest)
          ≡ ok (some (inl (not_enough_data tag (length rest) len), []))
    unfolding next
    next_short n =
        let (e1, e2, e3, e4, e5) = size_lem in
        rw
          (
            e1,
            e2,
            e3,
            e4,
            lt→ltb (length rest) len n,
            slice_prefix {E = Fault} (tag ∷ len ∷ rest) 0 (omega arith),
          )
          refl

  next_single : (b : ℕ) → next from_bytes (b ∷ []) ≡ ok (some (inl (buffer_too_short 1), []))
  unfolding next
  next_single b = rw (slice_prefix {E = Fault} (b ∷ []) 0 (omega arith)) refl

  -- Each outcome that is not a panic is an item.
  kept :
      (m : Outcome DescriptorError D)
      → NoPanic m
      → Ends {E = Fault} {A = Item from_bytes}
          (elim m [ ok d ↦ ok (inr d) | err e ↦ ok (inl e) | panic ↦ panic ])
  kept (ok d) h = (_, refl)
  kept (err e) h = (_, refl)
  kept panic h = absurd h

  item-Ends : (desc : List ℕ) → NoPanic (from_bytes desc) → Ends (item from_bytes desc)
  unfolding item
  item-Ends desc h = kept (from_bytes desc) h

  item_lem : (desc : List ℕ) (d : D) → from_bytes desc ≡ ok d → item from_bytes desc ≡ ok (inr d)
  unfolding item
  item_lem desc d e = rw (item, e) refl

  -- One step on any bytes but none: an item, and fewer bytes.
  next-Ends :
      ((desc : List ℕ) → IsBytes desc → NoPanic (from_bytes desc))
      → (b : ℕ) (bs : List ℕ) → IsBytes (b ∷ bs)
      → (i : Item from_bytes) × (rest : List ℕ) × (next from_bytes (b ∷ bs) ≡ ok (some (i, rest)))
        × IsBytes rest
        × (length rest ≤ length bs)
  next-Ends calm b [] h = (_, [], next_single b, tt, omega arith)
  next-Ends calm b (len ∷ rest) (hb, (hl, h)) = elim (Bool-cases (ltb (length rest) len)) [
    | inl short ↦ (_, [], next_short b len rest (ltb→lt _ _ short), tt, omega arith)
    | inr whole ↦
        let n = ltb→le _ _ whole in
        let desc = b ∷ len ∷ take len rest in
        let (i, e) = item-Ends desc (calm desc (hb, (hl, IsBytes-take len rest h))) in
        (
          i,
          drop len rest,
          rw (next_lem b len rest n, e) refl,
          IsBytes-drop len rest h,
          omega (arith, length-drop len rest),
        )
  ]

  items-Ends :
      ((desc : List ℕ) → IsBytes desc → NoPanic (from_bytes desc))
      → (fuel : ℕ) (buf : List ℕ) → IsBytes buf
      → length buf ≤ fuel
      → Ends (items from_bytes fuel buf)
  unfolding items next
  items-Ends calm zero [] h k = ([], refl)
  items-Ends calm (suc fuel) [] h k = ([], refl)
  items-Ends calm zero (b ∷ bs) h k = absurd (omega arith)
  items-Ends calm (suc fuel) (b ∷ bs) h k =
      let (i, rest, e, bytes, fewer) = next-Ends calm b bs h in
      let (is, m) = items-Ends calm fuel rest bytes (omega (arith, fewer)) in
      (i ∷ is, rw (e, m) refl)

  -- For any implementation of the trait whose `from_bytes` does not panic on bytes, the iteration
  -- over any bytes ends and does not panic.
  pub descriptors-Ends :
      ((desc : List ℕ) → IsBytes desc → NoPanic (from_bytes desc))
      → (buf : List ℕ) → IsBytes buf
      → Ends (descriptors from_bytes buf)
  unfolding descriptors
  descriptors-Ends calm buf h = items-Ends calm (length buf) buf h (omega arith)

  module _ (g : ℕ × List ℕ → D) where
    -- `from_bytes` reads the descriptor as `g` says.
    abbrev pub Reads : ℕ × List ℕ → Type 0
    Reads d = from_bytes (encode d) ≡ ok (g d)

    items-encode_all :
        (fuel : ℕ) (ds : List (ℕ × List ℕ))
        → All Reads ds
        → length (encode_all ds) ≤ fuel
        → items from_bytes fuel (encode_all ds) ≡ ok (map (λ d. inr (g d)) ds)
    unfolding items next
    items-encode_all zero [] h k = refl
    items-encode_all (suc fuel) [] h k = refl
    items-encode_all zero (d ∷ ds) h k = absurd (omega arith)
    items-encode_all (suc fuel) (d ∷ ds) (r, h) k =
        let rest = d.1 ++ encode_all ds in
        let n : length d.1 ≤ length rest = omega (arith, length-append d.1 (encode_all ds)) in
        let ih = items-encode_all fuel ds h (omega (arith, length-append d.1 (encode_all ds))) in
        rw
          (
            next_lem d.0 (length d.1) rest n,
            take-append_length d.1 (encode_all ds),
            item_lem (encode d) (g d) r,
            drop-append_length d.1 (encode_all ds),
            ih,
          )
          refl

    -- For any implementation of the trait, descriptors written one after the other are read back in
    -- their order, each as `from_bytes` reads it alone.
    pub descriptors-encode_all :
        (ds : List (ℕ × List ℕ))
        → All Reads ds
        → descriptors from_bytes (encode_all ds) ≡ ok (map (λ d. inr (g d)) ds)
    unfolding descriptors
    descriptors-encode_all ds h = items-encode_all (length (encode_all ds)) ds h (omega arith)
