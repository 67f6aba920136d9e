-- ===== src/Descriptor/Iter.antt =====
-- src/descriptor/mod.rs: `DescriptorIter`, over any implementation of the trait `Descriptor`, which
-- is a parameter.
pub mod Codec
use mpeg2ts_reader.Base.{
  ℕ, zero, suc, ◌+◌, ◌-◌, ltb, ◌==◌, if◌then◌else◌, ◌⊎◌, inl, inr, Option, some, none, List, [],
  ◌∷◌, length,
}
use mpeg2ts_reader.Base.{Outcome, ok, err, panic, index, slice_range, slice_from, ◌>>=◌}
use mpeg2ts_reader.Psi.Section.{Run, out_of_fuel}
use mpeg2ts_reader.Psi.Framer.{sub}
use mpeg2ts_reader.Descriptor.{DescriptorError, not_enough_data, buffer_too_short}

module _ {D : Type 0} (from_bytes : List ℕ → Outcome DescriptorError D) where
  -- What the iterator gives: `Err` on the left, `Ok` on the right.
  abbrev pub Item : Type 0
  Item = DescriptorError ⊎ D

  -- `Descriptor::from_bytes`, as the item that it is returned as.
  unfoldable pub item : List ℕ → Run Item
  item desc = elim (from_bytes desc) [ ok d ↦ ok (inr d) | err e ↦ ok (inl e) | panic ↦ panic ]

  -- `DescriptorIter::next`: the item, and the buffer that is left.
  unfoldable pub next : List ℕ → Run (Option (Item × List ℕ))
  next buf =
      if length buf == 0
      then ok none
      else if ltb (length buf) 2
      then (slice_range buf 0 0 >>= λ rest. ok (some (inl (buffer_too_short (length buf)), rest)))
      else (do
        tag ← index buf 0
        len ← index buf 1
        remaining_size ← sub (length buf) 2
        if ltb remaining_size len
            then (slice_range buf 0 0 >>= λ rest.
                ok (some (inl (not_enough_data tag remaining_size len), rest)))
            else (do
              desc ← slice_range buf 0 (len + 2)
              rest ← slice_from buf (len + 2)
              i ← item desc
              ok (some (i, rest))))

  -- All the items of the iterator, on fuel: each takes a byte or ends it.
  unfoldable pub items : ℕ → List ℕ → Run (List Item)
  items zero buf = elim buf [ [] ↦ ok [] | b ∷ bs ↦ err out_of_fuel ]
  items (suc fuel) buf = next buf >>= λ r. elim r [
    | none ↦ ok []
    | some p ↦ items fuel p.1 >>= λ rest. ok (p.0 ∷ rest)
  ]

  -- `DescriptorIter::new`, and the whole of its iteration.
  unfoldable pub descriptors : List ℕ → Run (List Item)
  descriptors buf = items (length buf) buf
