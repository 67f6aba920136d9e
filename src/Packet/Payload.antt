-- ===== src/Packet/Payload.antt =====
-- src/packet.rs: how the bytes of a packet divide into the header, the adaptation field and the
-- payload.
use mpeg2ts_reader.Base.{
  ℕ, Bool, true, false, ◌+◌, ◌-◌, ◌/◌, ◌%◌, ◌≤◌, ◌<◌, ◌≡◌, refl, sym, ◌∙◌, ap, ap₂, ◌⊎◌, inl, inr,
  arith, ◌==◌, ltb, ◌||◌, ==→≡, ltb→lt, Bool-cases, if◌then◌else◌, Option, none, some, List, ◌∷◌,
  ◌++◌, length, get_or, take, drop, length-drop, length-take, drop-drop, drop_step,
  take-append-drop,
}
use mpeg2ts_reader.Base.{Outcome, ok, err, index, index-lt, slice_range, slice_from}
use mpeg2ts_reader.Base.Bits.{IsBytes, byte-lt, has_bit, IsBytes-drop}
use mpeg2ts_reader.Packet.Fields.{
  PacketError, invalid_adaptation_field_length, payload_out_of_bounds,
}
use mpeg2ts_reader.Packet.Header.{
  Packet, AdaptationField, content_offset, adaptation_field, mk_af, field_before_payload,
  field_alone, payload,
}

-- What `try_new` establishes: 188 bytes, of which the first is the sync byte.
pub record IsPacket (p : Packet) : Type 0 where
  pub whole : length p.buf ≡ 188
  pub bytes : IsBytes p.buf
  pub sync : get_or p.buf 0 0 ≡ 0x47

-- Byte `i` of a packet.
abbrev pub byte_at : Packet → ℕ → ℕ
byte_at p i = get_or p.buf i 0

-- The first byte behind the headers, from the two bits of adaptation_field_control and the length.
abbrev pub content_start : Packet → ℕ
content_start p = if byte_at p 3 / 32 % 2 == 1 then 5 + byte_at p 4 else 4

-- What an adaptation field that is found says of its length and its bytes.
field_inv :
    (present beside : Bool) (n : ℕ) (buf : List ℕ) (af : AdaptationField)
    → (if present
        then (if beside
            then (if n == 0 || ltb 182 n
                then err (invalid_adaptation_field_length n)
                else ok (some (record { buf = take n buf })))
            else if n == 183
            then ok (some (record { buf = take 183 buf }))
            else err (invalid_adaptation_field_length n))
        else ok none)
      ≡ ok (some af)
    → (n ≤ 183) × (0 < n) × (present ≡ true) × (af.buf ≡ take n buf)
field_inv true true n buf af h = ground arith
field_inv true false n buf af h = elim (Bool-cases (n == 183)) [
  | inl e ↦ let n_is = ==→≡ n 183 e in (omega arith, omega arith, refl, rw n_is (ground arith))
  | inr e ↦ ground arith
]
field_inv false beside n buf af h = ground arith

module _ {p : Packet} (valid : IsPacket p) where
  open valid use {whole, bytes}

  pub byte : {E : Type 0} (i : ℕ) → i < 188 → index {E = E} p.buf i ≡ ok (byte_at p i)
  byte i h = index-lt p.buf i (omega arith)

  pub byte_at-lt : (i : ℕ) → byte_at p i < 256
  byte_at-lt i = byte-lt p.buf i bytes

  mk_af_lem :
      (len : ℕ)
      → 0 < len
      → len ≤ 183
      → mk_af {E = PacketError} p len ≡ ok (record { buf = take len (drop 5 p.buf) })
  unfolding mk_af slice_range
  mk_af_lem len lo hi =
      let e : 5 + len - 5 ≡ len = omega arith in
      ground (arith, whole, e, length-take len (drop 5 p.buf), length-drop 5 p.buf)

  pub content_offset_lem : {E : Type 0} → content_offset {E = E} p ≡ ok (content_start p)
  unfolding content_offset
  content_offset_lem {E} = ground (
    arith,
    byte {E = E} 3 (omega arith),
    byte {E = E} 4 (omega arith),
    has_bit 5 (byte_at p 3) (omega arith) (byte_at-lt 3),
  )

  -- For a whole packet with its sync byte, what `payload` gives on every branch: nothing without a
  -- payload or where the adaptation field fills the packet, an error where it reaches past the
  -- packet, and else the bytes behind it.
  pub payload_lem : payload p ≡ (
      if byte_at p 3 / 16 % 2 == 1
      then (if ltb (content_start p) 188
          then ok (some (drop (content_start p) p.buf))
          else if content_start p == 188
          then ok none
          else err (payload_out_of_bounds (content_start p)))
      else ok none)
  unfolding payload slice_from
  payload_lem = ground (
    arith,
    whole,
    byte {E = PacketError} 3 (omega arith),
    content_offset_lem {E = PacketError},
    has_bit 4 (byte_at p 3) (omega arith) (byte_at-lt 3),
  )

  beside :
      (len : ℕ)
      → field_before_payload p len ≡ (
          if len == 0 || ltb 182 len
          then err (invalid_adaptation_field_length len)
          else ok (some (record { buf = take len (drop 5 p.buf) })))
  unfolding field_before_payload
  beside len = elim (Bool-cases (len == 0 || ltb 182 len)) [
    | inl e ↦ rw e (ground arith)
    | inr e ↦ rw e (ground (arith, mk_af_lem len))
  ]

  alone :
      (len : ℕ)
      → field_alone p len ≡ (
          if len == 183
          then ok (some (record { buf = take 183 (drop 5 p.buf) }))
          else err (invalid_adaptation_field_length len))
  unfolding field_alone
  alone len = elim (Bool-cases (len == 183)) [
    | inl e ↦ rw (==→≡ len 183 e, mk_af_lem 183 (omega arith) (omega arith))
    | inr e ↦ rw e
  ]

  -- For a whole packet with its sync byte, what `adaptation_field` gives on every branch: none,
  -- the bytes that its length says, or an error for a length that is not from 1 to 182 beside a
  -- payload, or not 183 alone.
  pub adaptation_field_lem : adaptation_field p ≡ (
      if byte_at p 3 / 32 % 2 == 1
      then (if byte_at p 3 / 16 % 2 == 1
          then (if byte_at p 4 == 0 || ltb 182 (byte_at p 4)
              then err (invalid_adaptation_field_length (byte_at p 4))
              else ok (some (record { buf = take (byte_at p 4) (drop 5 p.buf) })))
          else if byte_at p 4 == 183
          then ok (some (record { buf = take 183 (drop 5 p.buf) }))
          else err (invalid_adaptation_field_length (byte_at p 4)))
      else ok none)
  unfolding adaptation_field
  adaptation_field_lem = ground (
    arith,
    byte {E = PacketError} 3 (omega arith),
    byte {E = PacketError} 4 (omega arith),
    has_bit 4 (byte_at p 3) (omega arith) (byte_at-lt 3),
    has_bit 5 (byte_at p 3) (omega arith) (byte_at-lt 3),
    beside (byte_at p 4),
    alone (byte_at p 4),
  )

  payload_inv :
      (rest : List ℕ)
      → payload p ≡ ok (some rest)
      → (byte_at p 3 / 32 % 2 == 1) ≡ true
      → rest ≡ drop (5 + byte_at p 4) p.buf
  payload_inv rest h far = ground (arith, payload_lem)

  -- Where a whole packet with its sync byte has both an adaptation field and a payload, the
  -- header, the length, the field and the payload make up the packet, with nothing between them
  -- and nothing left over.
  pub adaptation_field-payload :
      (af : AdaptationField) (rest : List ℕ)
      → adaptation_field p ≡ ok (some af)
      → payload p ≡ ok (some rest)
      → take 4 p.buf ++ length af.buf ∷ (af.buf ++ rest) ≡ p.buf
  adaptation_field-payload af rest ha hr =
      let n = byte_at p 4 in
      let field = field_inv _ _ n (drop 5 p.buf) af (sym adaptation_field_lem ∙ ha) in
      let behind : rest ≡ drop (5 + n) p.buf = payload_inv rest hr field.2 in
      let size : length af.buf ≡ n =
        omega
          (arith, whole, ap length field.3, length-take n (drop 5 p.buf), length-drop 5 p.buf) in
      let content : af.buf ++ rest ≡ drop 5 p.buf =
        ap₂ ◌++◌ field.3 (behind ∙ sym (drop-drop 5 n p.buf)) ∙ take-append-drop n (drop 5 p.buf) in
      rw (size, content, sym (drop_step 4 p.buf 0 (omega arith))) (take-append-drop 4 p.buf)

-- What a caller has of the payload of a packet: it is not empty, and it is not a panic.
pub data PayloadOf (p : Packet) : Outcome PacketError (Option (List ℕ)) → Type 0 where
  found : (rest : List ℕ) → IsBytes rest → 0 < length rest → PayloadOf p (ok (some rest))
  absent : PayloadOf p (ok none)
  refused : (e : PacketError) → PayloadOf p (err e)

pub payload-PayloadOf : {p : Packet} → IsPacket p → PayloadOf p (payload p)
payload-PayloadOf {p} valid =
    rw (payload_lem valid)
      (cases (byte_at p 3 / 16 % 2 == 1) (Bool-cases (ltb (content_start p) 188)))
  where
    cases :
        (b : Bool)
        → (ltb (content_start p) 188 ≡ true) ⊎ (ltb (content_start p) 188 ≡ false)
        → PayloadOf p (
            if b
            then (if ltb (content_start p) 188
                then ok (some (drop (content_start p) p.buf))
                else if content_start p == 188
                then ok none
                else err (payload_out_of_bounds (content_start p)))
            else ok none)
    cases false s = absent
    cases true (inl e) = rw e (
        found (drop (content_start p) p.buf) (IsBytes-drop _ p.buf valid.bytes) (
          omega (
            arith,
            valid.whole,
            length-drop (content_start p) p.buf,
            ltb→lt (content_start p) 188 e,
          )))
    cases true (inr e) = elim (Bool-cases (content_start p == 188)) [
      | inl f ↦ rw (e, f) absent
      | inr f ↦ rw (e, f) (refused _)
    ]
