-- ===== src/Ring/Invariant.antt =====
-- `Push` and `Initialize` of kernel/usb/xhci/ring.cpp keep the ring's invariant.
use mikanos_aarch.Prelude.{
  ℕ, ◌+◌, ◌-◌, ◌*◌, ◌%◌, ◌^◌, ◌≤◌, ◌<◌, ◌≡◌, ◌≢◌, inl, inr, refl, sym, ◌∙◌, Bool, true, false, not,
  to_bit, arith, replicate, length-replicate, get_or-replicate, ℕ_discrete, ◌==◌,
}
use mikanos_aarch.Error.{success}
use mikanos_aarch.Memory.{Allocator, nullptr, alloc_mem}
use mikanos_aarch.Memory.Alloc
use mikanos_aarch.Trb.{Trb, zero_trb, cycle_bit, trb_type}
use mikanos_aarch.Trb.LinkTrb
use mikanos_aarch.Ring.{Ring, closing_link, fresh, push, initialize}
use mikanos_aarch.Ring.Consumer.{slot}
use mikanos_aarch.Ring.Slots.{
  IsValid, Turns, push_cases, cycle_bit-stamp, trb_type-stamp, slot-push_self, slot-push_ne,
  slot-push_link, slot-push_last, push_fixed, push_inside_state, push_turn_state,
}

-- The cycle bits of the slots after a push.
lap_inside :
    (r : Ring) (t : Trb) (i : ℕ)
    → IsValid r
    → i ≤ r.write_index
    → cycle_bit (slot (push r t).0 i) ≡ to_bit r.cycle_bit
lap_inside r t i v h = elim (ℕ_discrete r.write_index i) [
  | yes e ↦ rw (← e, slot-push_self r t v) (cycle_bit-stamp r.cycle_bit t)
  | no ne ↦ rw (slot-push_ne r t i v ne (omega (arith, v.inside))) (v.lap i (omega arith))
]

stale_inside :
    (r : Ring) (t : Trb) (i : ℕ)
    → IsValid r
    → r.write_index + 2 < r.buf_size
    → r.write_index < i
    → i < r.buf_size
    → cycle_bit (slot (push r t).0 i) ≡ to_bit (not r.cycle_bit)
stale_inside r t i v h lo hi = elim (ℕ_discrete i (r.buf_size - 1)) [
  | yes e ↦ rw (e, slot-push_last r t v h) (v.stale (r.buf_size - 1) (omega arith) (omega arith))
  | no ne ↦ rw (slot-push_ne r t i v (omega arith) (omega arith)) (v.stale i (omega arith) hi)
]

plain_push :
    (r : Ring) (t : Trb) (i : ℕ)
    → IsValid r
    → trb_type t ≢ LinkTrb.type
    → i + 1 < r.buf_size
    → trb_type (slot (push r t).0 i) ≢ LinkTrb.type
plain_push r t i v p h = elim (ℕ_discrete r.write_index i) [
  | yes e ↦ rw (← e, slot-push_self r t v, trb_type-stamp r.cycle_bit t) p
  | no ne ↦ rw (slot-push_ne r t i v ne h) (v.plain i h)
]

-- The cycle bits after a push that closes the lap: all slots carry the state that was left.
turned :
    (r : Ring) (t : Trb) (i : ℕ)
    → IsValid r
    → Turns r
    → i < r.buf_size
    → cycle_bit (slot (push r t).0 i) ≡ to_bit r.cycle_bit
turned r t i v e h = elim (ℕ_discrete i (r.write_index + 1)) [
  | yes last ↦ rw (last, slot-push_link r t v e) (cycle_bit-stamp r.cycle_bit (closing_link r))
  | no ne ↦ lap_inside r t i v (omega arith)
]

not-not : (b : Bool) → not (not b) ≡ b
not-not true = refl
not-not false = refl

push_inside-IsValid :
    (r : Ring) (t : Trb)
    → IsValid r
    → trb_type t ≢ LinkTrb.type
    → r.write_index + 2 < r.buf_size
    → IsValid (push r t).0
push_inside-IsValid r t v p h =
    let (fb, fs, fl) = push_fixed r t v in
    let (wi, cb) = push_inside_state r t v h in
    record {
      mapped = ground (arith, v.mapped, fb, fs);
      long = omega (arith, v.long, fs);
      allocated = fl ∙ v.allocated ∙ sym fs;
      inside = omega (arith, wi, fs);
      lap = λ i hi. rw cb (lap_inside r t i v (omega (arith, wi)));
      stale = λ i lo hi. rw cb (stale_inside r t i v h (omega (arith, wi)) (omega (arith, fs)));
      plain = λ i hi. plain_push r t i v p (omega (arith, fs));
    }

push_turn-IsValid :
    (r : Ring) (t : Trb) → IsValid r → trb_type t ≢ LinkTrb.type → Turns r → IsValid (push r t).0
push_turn-IsValid r t v p h =
    let (fb, fs, fl) = push_fixed r t v in
    let (wi, cb) = push_turn_state r t v h in
    record {
      mapped = ground (arith, v.mapped, fb, fs);
      long = omega (arith, v.long, fs);
      allocated = fl ∙ v.allocated ∙ sym fs;
      inside = omega (arith, wi, fs, v.long);
      lap = λ i hi. absurd (omega (arith, wi));
      stale = λ i lo hi. rw (cb, not-not r.cycle_bit) (turned r t i v h (omega (arith, fs)));
      plain = λ i hi. plain_push r t i v p (omega (arith, fs));
    }

-- `Push` of a TRB that is no link keeps the ring valid: the write index stays before the last slot,
-- and the cycle bits go on telling the written slots of this lap from the others.
pub push-IsValid :
    (r : Ring) (t : Trb) → IsValid r → trb_type t ≢ LinkTrb.type → IsValid (push r t).0
push-IsValid r t v p = elim (push_cases r v) [
  | inl h ↦ push_inside-IsValid r t v p h
  | inr h ↦ push_turn-IsValid r t v p h
]

-- The address that `Push` returns, inside the buffer and on a TRB's boundary.
pub push-address :
    (r : Ring) (t : Trb)
    → IsValid r
    → ((push r t).1 ≡ r.buf_ + 16 * r.write_index)
      × ((push r t).1 + 16 < r.buf_ + 16 * r.buf_size)
      × ((push r t).1 % 16 ≡ 0)
unfolding push
push-address r t v = ground (arith, v.mapped, v.inside)

zero_slot : (p n i : ℕ) → slot (fresh p n (replicate n zero_trb)) i ≡ zero_trb
zero_slot p n i = get_or-replicate n i zero_trb

pub fresh-IsValid :
    (p n : ℕ)
    → 0 < p
    → p % 64 ≡ 0
    → p + 16 * n ≤ 2 ^ 64
    → 2 ≤ n
    → IsValid (fresh p n (replicate n zero_trb))
fresh-IsValid p n hp ha hb hn = record {
  mapped = (hp, ha, hb);
  long = hn;
  allocated = length-replicate n zero_trb;
  inside = omega arith;
  lap = λ i hi. absurd (omega arith);
  stale = λ i lo hi. rw (zero_slot p n i);
  plain = λ i hi. rw (zero_slot p n i) (omega arith);
}

-- The block that `Initialize` asks for.
abbrev block : ℕ → Allocator → Allocator × ℕ
block n a = alloc_mem a (16 * n % 2 ^ 64) 64 (64 * 1024)

module _ (n : ℕ) (a : Allocator) (v : Alloc.IsValid a) (hi : n ≤ 4096)
    (room : a.alloc_ptr + 64 + 64 * 1024 + 16 * n ≤ Alloc.pool_end a) where
  block_size : 16 * n % 2 ^ 64 ≡ 16 * n
  block_size = omega arith

  block-ne-null : (block n a).1 ≢ nullptr
  block-ne-null =
      Alloc.alloc_mem-enough a (16 * n % 2 ^ 64) 64 (64 * 1024) v (inr (6, omega arith, refl))
        (inr (16, omega arith, refl)) (omega arith)

  block_placed :
      ((block n a).1 % 64 ≡ 0) × ((block n a).1 + 16 * n ≤ 2 ^ 64) × Alloc.IsValid (block n a).0
  block_placed = ground (
    arith,
    block-ne-null,
    Alloc.alloc_mem-placed a (16 * n % 2 ^ 64) 6 16 v,
    Alloc.alloc_mem-Returned a (16 * n % 2 ^ 64) 64 (64 * 1024) v (omega arith)
        (inr (6, omega arith, refl)) (inr (16, omega arith, refl)),
    v.below,
  )

  -- `Initialize` of a ring of 2 to 4096 slots, over a valid allocator whose pool has room for the
  -- buffer and 64 bytes and 64 KiB more, which the roundings may take: it succeeds, gives a valid ring
  -- of `n` zero slots, and keeps the allocator valid.
  pub initialize-IsValid :
      (r : Ring)
      → 2 ≤ n
      → ((initialize r n a).2 ≡ success)
        × ((initialize r n a).0 ≡ fresh (block n a).1 n (replicate n zero_trb))
        × IsValid (initialize r n a).0
        × Alloc.IsValid (initialize r n a).1
  unfolding initialize
  initialize-IsValid r lo = rw no_null (
    refl,
    refl,
    fresh-IsValid (block n a).1 n (omega (arith, block-ne-null)) block_placed.0 block_placed.1 lo,
    block_placed.2,
  )
    where
      no_null : ((block n a).1 == nullptr) ≡ false
      no_null = ground (arith, block-ne-null)
