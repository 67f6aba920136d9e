-- ===== src/Packet/Counters.antt =====
-- src/packet.rs: the number fields of the header, and the order of continuity counters.
use mpeg2ts_reader.Base.{
  ℕ, suc, ◌+◌, ◌*◌, ◌%◌, ◌≤◌, ◌<◌, ◌≡◌, ◌↔◌, ◌⊎◌, true, arith, bit_and, bit_or,
}
use mpeg2ts_reader.Base.{ok, err}
use mpeg2ts_reader.Base.Bits.{shl16, and_mask, or_bytes}
use mpeg2ts_reader.Packet.Fields.{ContinuityCounter, follows, try_from}
use mpeg2ts_reader.Packet.Header.{Packet, pid, continuity_counter}
use mpeg2ts_reader.Packet.Payload.{IsPacket, byte, byte_at, byte_at-lt}

-- A packet's PID and counter as arithmetic on its bytes.
abbrev pub pid_of : Packet → ℕ
pid_of p = byte_at p 1 % 32 * 256 + byte_at p 2

module _ {p : Packet} (valid : IsPacket p) where
  pid-val : bit_or (shl16 (bit_and (byte_at p 1) 0x1f) 8) (byte_at p 2) ≡ pid_of p
  pid-val =
      rw (and_mask 5 (byte_at p 1))
        (or_bytes (byte_at p 1 % 32) (byte_at p 2) (omega arith) (byte_at-lt valid 2))

  -- Reading the PID of a whole packet gives its 13 bits, below 8192, and never panics.
  pub pid_lem : {E : Type 0} → (pid {E = E} p ≡ ok (record { val = pid_of p })) × (pid_of p < 8192)
  unfolding pid
  pid_lem {E} = (
    ground (arith, byte valid {E = E} 1 (omega arith), byte valid {E = E} 2 (omega arith), pid-val),
    omega (arith, byte_at-lt valid 2),
  )

  -- Reading the counter of a packet never fails the assertion of `ContinuityCounter::new`.
  pub continuity_counter_lem :
      {E : Type 0} → continuity_counter {E = E} p ≡ ok (record { val = byte_at p 3 % 16 })
  unfolding continuity_counter
  continuity_counter_lem {E} =
      ground (arith, byte valid {E = E} 3 (omega arith), and_mask 4 (byte_at p 3))

-- `follows` is the successor modulo 16.
pub follows_iff :
    (a b : ContinuityCounter) → b.val < 16 → (follows a b ≡ true) ↔ (a.val ≡ (b.val + 1) % 16)
follows_iff a b h = ground (arith, and_mask 4 ((b.val + 1) % 256))

-- `cs` is a run of counters, each of which follows the one before.
pub data Run : ContinuityCounter → ℕ → ContinuityCounter → Type 0 where
  here : (c : ContinuityCounter) → Run c 0 c
  next : (a b c : ContinuityCounter) (n : ℕ) → Run a n b → follows c b ≡ true → Run a (suc n) c

-- In a run of `n` packets, each of whose counters follows the one before, the counter advances by
-- `n` modulo 16 from a first one below 16.
pub Run-val : {a b : ContinuityCounter} {n : ℕ} → a.val < 16 → Run a n b → b.val ≡ (a.val + n) % 16
Run-val h (here c) = omega arith
Run-val h (next a b c n r f) =
    let ih = Run-val h r in let step = (follows_iff c b (omega arith)).0 f in omega arith

pub try_from_lem :
    (value : ℕ)
    → (value ≤ 8191) × (try_from value ≡ ok (record { val = value }))
      ⊎ (8191 < value) × (try_from value ≡ err tt)
unfolding try_from
try_from_lem value = ground arith
