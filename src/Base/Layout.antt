-- ===== src/Base/Layout.antt =====
-- Buffers that are laid out one part behind the other, some of them optional: where a part lies, and
-- the flags that tell which parts are there.
use mpeg2ts_reader.Base.{
  ℕ, ◌+◌, ◌-◌, ◌≤◌, ◌≡◌, refl, sym, ap, ◌∙◌, arith, Bool, true, false, ◌==◌, if◌then◌else◌, Option,
  some, none, List, [], ◌∷◌, ◌++◌, length, take, drop, length-append, length-drop, length-take,
  drop-drop, take-append_length, drop-append_length,
}
use mpeg2ts_reader.Base.{ok, slice_range, slice_range_lem}
use mpeg2ts_reader.Base.Bits.{IsBytes, IsBytes-take, IsBytes-drop}

-- Bytes that are enough for a field of `n`.
pub record Spans (n : ℕ) (s : List ℕ) : Type 0 where
  pub bytes : IsBytes s
  pub enough : n ≤ length s

pub take-drop-Spans :
    (buf : List ℕ) (from n : ℕ)
    → IsBytes buf
    → from + n ≤ length buf
    → Spans n (take n (drop from buf))
take-drop-Spans buf from n h k = record {
  bytes = IsBytes-take n (drop from buf) (IsBytes-drop from buf h);
  enough = omega (arith, length-take n (drop from buf), length-drop from buf);
}

-- The buffer goes on with `rest` at `off`.
pub record At (buf : List ℕ) (off : ℕ) (rest : List ℕ) : Type 0 where
  pub inside : off ≤ length buf
  pub same : drop off buf ≡ rest

module _ {buf : List ℕ} {off : ℕ} (chunk rest : List ℕ) (a : At buf off (chunk ++ rest)) where
  pub At-fits : off + length chunk ≤ length buf
  At-fits =
      let inside = a.inside in
      let len : length buf - off ≡ length (chunk ++ rest) =
        sym (length-drop off buf) ∙ ap (λ t. length t) a.same in
      omega (arith, len, length-append chunk rest)

  pub At-next : At buf (off + length chunk) rest
  At-next = record {
    inside = At-fits;
    same =
        sym (drop-drop off (length chunk) buf)
        ∙ ap (λ t. drop (length chunk) t) a.same
        ∙ drop-append_length chunk rest;
  }

  pub At-slice : {E : Type 0} → slice_range {E = E} buf off (off + length chunk) ≡ ok chunk
  At-slice {E} =
      let n : off + length chunk - off ≡ length chunk = omega arith in
      slice_range_lem {E = E} buf off (off + length chunk) (omega arith) At-fits
      ∙ ap (λ (k : ℕ). ok (take k (drop off buf))) n
      ∙ ap (λ t. ok (take (length chunk) t)) a.same
      ∙ ap (λ t. ok t) (take-append_length chunk rest)

module _ {A : Type 0} where
  abbrev pub is_some : Option A → Bool
  is_some none = false
  is_some (some a) = true

  -- The flag of an optional part, and its bytes.
  abbrev pub bit : Option A → ℕ
  bit none = 0
  bit (some a) = 1

  abbrev pub chunk : (A → List ℕ) → Option A → List ℕ
  chunk enc none = []
  chunk enc (some a) = enc a

  pub bit-le : (x : Option A) → bit x ≤ 1
  bit-le none = omega arith
  bit-le (some a) = omega arith

  pub bit_test : (x : Option A) → (bit x == 1) ≡ is_some x
  bit_test none = refl
  bit_test (some a) = refl

  pub chunk_size :
      (enc : A → List ℕ) (n : ℕ) (x : Option A)
      → ((a : A) → length (enc a) ≡ n)
      → (if is_some x then n else 0) ≡ length (chunk enc x)
  chunk_size enc n none h = refl
  chunk_size enc n (some a) h = sym (h a)

  -- The property of a part that is there.
  abbrev pub IfSome : (A → Type 0) → Option A → Type 0
  IfSome P none = Unit {0}
  IfSome P (some a) = P a

-- A part behind the byte of its length.
abbrev pub prefixed : List ℕ → List ℕ
prefixed d = length d ∷ d
