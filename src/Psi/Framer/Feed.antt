-- ===== src/Psi/Framer/Feed.antt =====
-- src/psi/mod.rs: `feed` and `consume` as a whole.
use mpeg2ts_reader.Base.{
  ℕ, zero, suc, ◌+◌, ◌*◌, ◌≤◌, ◌<◌, ◌≡◌, refl, sym, subst, ◌∙◌, arith, Bool, true, false, not, ltb,
  ltb→le, Bool-cases, ◌&&◌, inl, inr, if◌then◌else◌, Option, List, [], ◌∷◌, take, drop, length,
}
use mpeg2ts_reader.Base.{Outcome, ok, slice_prefix, slice_from, slice_from_lem, ◌>>=◌}
use mpeg2ts_reader.Base.Bits.{has_bits, IsBytes, IsBytes-take, IsBytes-drop}
use mpeg2ts_reader.Packet.Fields.{PacketError}
use mpeg2ts_reader.Packet.Header.{Packet, payload, payload_unit_start_indicator}
use mpeg2ts_reader.Packet.Payload.{
  IsPacket, PayloadOf, found, absent, refused, payload-PayloadOf, byte, byte_at,
}
use mpeg2ts_reader.Psi.Section.{Run, Fault}
use mpeg2ts_reader.Psi.Syntax.{SectionSyntax, SyntaxLaws}
use mpeg2ts_reader.Psi.Framer.{
  Framer, FramerState, idle, collecting, ignoring, Round, stop, again, round_in, feed_loop, feed,
  reset, settle, consume_start, consume_payload, is_idle, on_payload, consume,
}
use mpeg2ts_reader.Psi.Framer.Invariant.{Delivers, IsValid, Goes, Keeps, measure}
use mpeg2ts_reader.Psi.Framer.Rounds.{round-Goes}

idle_of : (st : FramerState) → is_idle st ≡ true → st ≡ idle
idle_of idle h = refl
idle_of (collecting target) h = cc
idle_of (ignoring remaining) h = cc

module _ {P C : Type 0} (S : SectionSyntax P C) where
  -- The call returns a framer that keeps the invariant, for the same PID.
  pub record Feeds (f : Framer P) (r : Run (Framer P × C)) : Type 0 where
    pub out : Framer P × C
    pub returns : r ≡ ok out
    pub valid : IsValid S out.0
    pub same_pid : out.0.pid ≡ f.pid

  module _ (laws : SyntaxLaws S) where
    after :
        (fuel : ℕ) (f : Framer P) (bytes : List ℕ) (r : Run (Round P C))
        → Goes S f bytes r
        → ((f' : Framer P) (c' : C) (rest : List ℕ)
            → IsValid S f'
            → f'.pid ≡ f.pid
            → IsBytes rest
            → measure S f' rest < measure S f bytes
            → Feeds f' (feed_loop S fuel f' c' rest))
        → Feeds f (
            r >>= λ t. elim t [
              | stop f' c' ↦ ok (f', c')
              | again f' c' rest ↦ feed_loop S fuel f' c' rest
            ])
    after fuel f bytes r g ih = rw g.returns (go g.out g.keeps)
      where
        go :
            (t : Round P C)
            → Keeps S f bytes t
            → Feeds f (elim t [
              | stop f' c' ↦ ok (f', c')
              | again f' c' rest ↦ feed_loop S fuel f' c' rest
            ])
        go (stop f' c') k = record { out = (f', c'); returns = refl; valid = k.0; same_pid = k.1 }
        go (again f' c' rest) k =
            let l = ih f' c' rest k.0 k.1 k.2 k.3 in
            record {
              out = l.out;
              returns = l.returns;
              valid = l.valid;
              same_pid = l.same_pid ∙ k.1;
            }

    feed_loop-Feeds :
        (fuel : ℕ) (f : Framer P) (c : C) (bytes : List ℕ)
        → Delivers S f.pid
        → IsValid S f
        → IsBytes bytes
        → measure S f bytes ≤ fuel
        → Feeds f (feed_loop S fuel f c bytes)
    unfolding feed_loop
    feed_loop-Feeds zero f c [] d v hb m = record {
      out = (f, c);
      returns = refl;
      valid = v;
      same_pid = refl;
    }
    feed_loop-Feeds (suc fuel) f c [] d v hb m = record {
      out = (f, c);
      returns = refl;
      valid = v;
      same_pid = refl;
    }
    feed_loop-Feeds zero f c (b ∷ bs) d v hb m = absurd (omega arith)
    feed_loop-Feeds (suc fuel) f c (b ∷ bs) d v hb m =
        after fuel f (b ∷ bs) (round_in S f.state f c (b ∷ bs))
          (round-Goes S laws f.pid d f.state f.buf f.parser f.synced c (b ∷ bs) v hb (omega arith))
          λ f' c' rest v' same hr less.
            feed_loop-Feeds fuel f' c' rest (subst (λ p. Delivers S p) (sym same) d) v' hr
              (omega arith)

    waits-le : (f : Framer P) (bytes : List ℕ) → measure S f bytes ≤ 2 * length bytes + 1
    waits-le f bytes = ground arith

    -- Whatever the state and the bytes, `feed` neither panics nor loops, and keeps the invariant.
    pub feed-Feeds :
        (f : Framer P) (c : C) (bytes : List ℕ)
        → Delivers S f.pid
        → IsValid S f
        → IsBytes bytes
        → Feeds f (feed S f c bytes)
    unfolding feed
    feed-Feeds f c bytes d v hb =
        feed_loop-Feeds (2 * length bytes + 1) f c bytes d v hb (waits-le f bytes)

    reset-IsValid : (f : Framer P) → IsValid S (reset S f)
    unfolding reset
    reset-IsValid f = record { bytes = tt; fits = refl }

    -- Setting `synced` changes nothing that the invariant speaks of.
    set_synced : (f : Framer P) → IsValid S f → IsValid S (record f { synced = true })
    set_synced f v = record { bytes = v.bytes; fits = v.fits }

    settle_lem :
        (f : Framer P) (c : C)
        → IsValid S f
        → IsValid S (settle S f c).0
          × ((settle S f c).0.pid ≡ f.pid)
          × ((settle S f c).0.state ≡ idle)
    unfolding settle reset
    settle_lem f c v = elim (Bool-cases (is_idle f.state)) [
      | inl e ↦ rw e (v, refl, idle_of f.state e)
      | inr e ↦ rw e (reset-IsValid f, refl, refl)
    ]

    consume_start-Feeds :
        (f : Framer P) (c : C) (pointer : ℕ) (section_data : List ℕ)
        → Delivers S f.pid
        → IsValid S f
        → IsBytes section_data
        → pointer ≤ length section_data
        → Feeds f (consume_start S f c pointer section_data)
    unfolding consume_start
    consume_start-Feeds f c pointer section_data d v hb fits =
        rw (slice_prefix {E = Fault} section_data pointer fits)
          (go (f.synced && ltb 0 pointer && not (is_idle f.state)))
      where
        rest : List ℕ
        rest = drop pointer section_data

        onward :
            (g : Framer P × C)
            → IsValid S g.0
            → g.0.pid ≡ f.pid
            → Feeds f (
                slice_from section_data pointer >>= λ bytes.
                feed S (record ((settle S g.0 g.1).0) { synced = true }) (settle S g.0 g.1).1 bytes)
        onward g vg same =
            let s = settle_lem g.0 g.1 vg in
            let same' : (settle S g.0 g.1).0.pid ≡ f.pid = s.1 ∙ same in
            let last =
              feed-Feeds (record ((settle S g.0 g.1).0) { synced = true }) (settle S g.0 g.1).1 rest
                (subst (λ p. Delivers S p) (sym same') d) (set_synced (settle S g.0 g.1).0 s.0)
                (IsBytes-drop pointer section_data hb) in
            rw (slice_from_lem {E = Fault} section_data pointer fits) (record {
              out = last.out;
              returns = last.returns;
              valid = last.valid;
              same_pid = last.same_pid ∙ same';
            })

        go :
            (b : Bool)
            → Feeds f (
                (if b then feed S f c (take pointer section_data) else ok (f, c)) >>= λ g.
                slice_from section_data pointer >>= λ bytes.
                feed S (record ((settle S g.0 g.1).0) { synced = true }) (settle S g.0 g.1).1 bytes)
        go true =
            let first =
              feed-Feeds f c (take pointer section_data) d v
                (IsBytes-take pointer section_data hb) in
            rw first.returns (onward first.out first.valid first.same_pid)
        go false = onward (f, c) v refl

    -- A report leaves the framer alone.
    reports : (f : Framer P) (c : C) → IsValid S f → Feeds f (ok (f, c))
    reports f c v = record { out = (f, c); returns = refl; valid = v; same_pid = refl }

    resets : (f : Framer P) (c : C) → Feeds f (ok (reset S f, c))
    resets f c = record {
      out = (reset S f, c);
      returns = refl;
      valid = reset-IsValid f;
      same_pid = unfold reset in refl;
    }

    pub consume_payload-Feeds :
        (f : Framer P) (c : C) (pusi : Bool) (pk_buf : List ℕ)
        → Delivers S f.pid
        → IsValid S f
        → IsBytes pk_buf
        → Feeds f (consume_payload S f c pusi pk_buf)
    unfolding consume_payload
    consume_payload-Feeds f c true [] d v hb = resets f _
    consume_payload-Feeds f c true (pointer ∷ section_data) d v hb =
        elim (Bool-cases (ltb (length section_data) pointer)) [
          | inl e ↦ rw e (resets f _)
          | inr e ↦ rw e (consume_start-Feeds f c pointer section_data d v hb.1 (ltb→le _ _ e))
        ]
    consume_payload-Feeds f c false pk_buf d v hb = elim (Bool-cases f.synced) [
      | inr e ↦ simp e (reports f c v)
      | inl e ↦ elim (Bool-cases (is_idle f.state)) [
        | inl st ↦ simp (e, st) (reports f _ v)
        | inr st ↦ simp (e, st) (feed-Feeds f c pk_buf d v hb)
      ]
    ]

    on_payload-Feeds :
        (f : Framer P) (c : C) (pk : Packet) (r : Outcome PacketError (Option (List ℕ)))
        → IsPacket pk
        → Delivers S f.pid
        → IsValid S f
        → PayloadOf pk r
        → Feeds f (on_payload S f c pk r)
    unfolding on_payload payload_unit_start_indicator
    on_payload-Feeds f c pk r valid d v (found rest hr n) =
        rw (byte valid {E = Fault} 1 (omega arith))
          (consume_payload-Feeds f c (has_bits (byte_at pk 1) 0b0100_0000) rest d v hr)
    on_payload-Feeds f c pk r valid d v absent = reports f _ v
    on_payload-Feeds f c pk r valid d v (refused e) = reports f _ v

    -- For a whole packet with its sync byte, a valid framer, and a parser that returns for every
    -- accepted section: `consume` returns on every branch, without a panic and within its fuel,
    -- and the framer stays valid and keeps its PID.
    pub consume-Feeds :
        (f : Framer P) (c : C) (pk : Packet)
        → IsPacket pk
        → Delivers S f.pid
        → IsValid S f
        → Feeds f (consume S f c pk)
    unfolding consume
    consume-Feeds f c pk valid d v =
        on_payload-Feeds f c pk (payload pk) valid d v (payload-PayloadOf valid)
