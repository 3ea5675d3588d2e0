-- ===== src/Ring/Slots.antt =====
-- What `CopyToLast` and `Push` of kernel/usb/xhci/ring.cpp write, slot by slot, and the invariant of
-- the ring: every slot before the write index carries the producer's cycle state, every slot from it
-- on the other one.
use mikanos_aarch.Prelude.{
  ℕ, ◌+◌, ◌-◌, ◌*◌, ◌/◌, ◌%◌, ◌^◌, ◌≤◌, ◌<◌, ◌≡◌, ◌≢◌, ◌⊎◌, inl, inr, refl, ap, ◌∙◌, Bool, true,
  false, not, to_bit, arith, List, length, set, get_or, length-set, get_or-set_self, get_or-set_ne,
  bit_and-shifted, bit_and-ones, bit_or-shifted, bit_or, bit_and,
}
use mikanos_aarch.Trb.{Trb, zero_trb, cycle_bit, trb_type}
use mikanos_aarch.Trb.LinkTrb
use mikanos_aarch.Ring.{Ring, first_words, last_word, copy_to_last, closing_link, advance, push}
use mikanos_aarch.Ring.Consumer.{slot}

-- What `CopyToLast` puts into a slot.
abbrev pub stamp : Bool → Trb → Trb
stamp c t = record t { data3 = last_word c t }

-- The mask and the cycle state, as arithmetic.
pub last_word_lem : (c : Bool) (t : Trb) → last_word c t ≡ t.data3 / 2 % 2 ^ 31 * 2 + to_bit c
last_word_lem c t =
    ap (λ (x : ℕ). bit_or x (to_bit c)) masked
    ∙ bit_or-shifted 1 (t.data3 / 2 % 2 ^ 31) (to_bit c) (bound c)
  where
    masked : bit_and t.data3 0xfffffffe ≡ t.data3 / 2 % 2 ^ 31 * 2 ^ 1
    masked =
        bit_and-shifted 1 t.data3 0x7fffffff
        ∙ ap (λ (x : ℕ). x * 2 ^ 1) (bit_and-ones 31 (t.data3 / 2))

    bound : (b : Bool) → to_bit b < 2
    bound true = omega arith
    bound false = omega arith

to_bit-lt : (b : Bool) → to_bit b < 2
to_bit-lt true = omega arith
to_bit-lt false = omega arith

pub cycle_bit-stamp : (c : Bool) (t : Trb) → cycle_bit (stamp c t) ≡ to_bit c
cycle_bit-stamp c t = omega (arith, last_word_lem c t, to_bit-lt c)

pub trb_type-stamp : (c : Bool) (t : Trb) → trb_type (stamp c t) ≡ trb_type t
trb_type-stamp c t = omega (arith, last_word_lem c t, to_bit-lt c)

-- A TRB without its cycle bit, which belongs to the ring.
abbrev pub payload : Trb → Trb
payload t = record t { data3 = t.data3 / 2 * 2 }

pub payload-stamp : (c : Bool) (t : Trb) → t.data3 < 2 ^ 32 → payload (stamp c t) ≡ payload t
payload-stamp c t h =
    ap (λ (w : ℕ). record t { data3 = w }) (omega (arith, last_word_lem c t, to_bit-lt c))

-- `CopyToLast` stamps the slot at the write index and leaves the others.
pub slot-copy_to_last :
    (r : Ring) (t : Trb)
    → r.write_index < length r.trbs
    → slot (copy_to_last r t) r.write_index ≡ stamp r.cycle_bit t
unfolding copy_to_last
slot-copy_to_last r t h =
    get_or-set_self once i _ zero_trb (rw (length-set r.trbs i) h)
    ∙ ap (λ (old : Trb). record old { data3 = last_word r.cycle_bit t })
        (get_or-set_self r.trbs i _ zero_trb h)
  where
    i : ℕ
    i = r.write_index

    once : List Trb
    once = set r.trbs i (first_words 3 (get_or r.trbs i zero_trb) t)

pub slot-copy_to_last_ne :
    (r : Ring) (t : Trb) (i : ℕ) → r.write_index ≢ i → slot (copy_to_last r t) i ≡ slot r i
unfolding copy_to_last
slot-copy_to_last_ne r t i h =
    get_or-set_ne _ r.write_index i _ zero_trb h ∙ get_or-set_ne r.trbs r.write_index i _ zero_trb h

pub length-copy_to_last : (r : Ring) (t : Trb) → length (copy_to_last r t).trbs ≡ length r.trbs
unfolding copy_to_last
length-copy_to_last r t = length-set _ r.write_index _ ∙ length-set r.trbs r.write_index _

pub record IsValid (r : Ring) : Type 0 where
  pub mapped : (0 < r.buf_) × (r.buf_ % 64 ≡ 0) × (r.buf_ + 16 * r.buf_size ≤ 2 ^ 64)
  pub long : 2 ≤ r.buf_size
  pub allocated : length r.trbs ≡ r.buf_size
  pub inside : r.write_index + 1 < r.buf_size
  pub lap : (i : ℕ) → i < r.write_index → cycle_bit (slot r i) ≡ to_bit r.cycle_bit
  pub stale :
      (i : ℕ) → r.write_index ≤ i → i < r.buf_size → cycle_bit (slot r i) ≡ to_bit (not r.cycle_bit)
  pub plain : (i : ℕ) → i + 1 < r.buf_size → trb_type (slot r i) ≢ LinkTrb.type

-- `Push` without the turn of the lap.
pub push_inside :
    (r : Ring) (t : Trb)
    → IsValid r
    → r.write_index + 2 < r.buf_size
    → (push r t).0 ≡ record (copy_to_last r t) { write_index = r.write_index + 1 }
unfolding push advance copy_to_last
push_inside r t v h = ground arith

-- `Push` into the last slot before the link.
pub push_turn :
    (r : Ring) (t : Trb)
    → IsValid r
    → r.write_index + 2 ≡ r.buf_size
    → (push r t).0
      ≡ record (copy_to_last
          (record (copy_to_last r t) { write_index = r.write_index + 1 })
          (closing_link r)) { write_index = 0; cycle_bit = not r.cycle_bit }
unfolding push advance copy_to_last
push_turn r t v h = ground arith

-- A push is one of the two.
abbrev pub Turns : Ring → Type 0
Turns r = r.write_index + 2 ≡ r.buf_size

pub push_cases : (r : Ring) → IsValid r → (r.write_index + 2 < r.buf_size) ⊎ Turns r
push_cases r v = ground (arith, v.inside)

written :
    (r : Ring) (t : Trb) → IsValid r → slot (copy_to_last r t) r.write_index ≡ stamp r.cycle_bit t
written r t v = slot-copy_to_last r t (omega (arith, v.allocated, v.inside))

pub slot-push_self :
    (r : Ring) (t : Trb) → IsValid r → slot (push r t).0 r.write_index ≡ stamp r.cycle_bit t
slot-push_self r t v = elim (push_cases r v) [
  | inl h ↦ rw (push_inside r t v h) (written r t v)
  | inr h ↦ rw (push_turn r t v h) (
      slot-copy_to_last_ne (record (copy_to_last r t) { write_index = r.write_index + 1 })
        (closing_link r) r.write_index (omega arith)
      ∙ written r t v)
]

pub slot-push_ne :
    (r : Ring) (t : Trb) (i : ℕ)
    → IsValid r
    → r.write_index ≢ i
    → i + 1 < r.buf_size
    → slot (push r t).0 i ≡ slot r i
slot-push_ne r t i v ne h = elim (push_cases r v) [
  | inl e ↦ rw (push_inside r t v e) (slot-copy_to_last_ne r t i ne)
  | inr e ↦ rw (push_turn r t v e) (
      slot-copy_to_last_ne (record (copy_to_last r t) { write_index = r.write_index + 1 })
        (closing_link r) i (omega arith)
      ∙ slot-copy_to_last_ne r t i ne)
]

-- A turn closes the lap with a link to the start of the ring; any other push keeps the last slot.
pub slot-push_link :
    (r : Ring) (t : Trb)
    → IsValid r
    → Turns r
    → slot (push r t).0 (r.write_index + 1) ≡ stamp r.cycle_bit (closing_link r)
unfolding copy_to_last
slot-push_link r t v e = rw (push_turn r t v e) (
    slot-copy_to_last (record (copy_to_last r t) { write_index = r.write_index + 1 })
      (closing_link r) fits)
  where
    fits : r.write_index + 1 < length (copy_to_last r t).trbs
    fits = omega (arith, length-copy_to_last r t, v.allocated)

pub slot-push_last :
    (r : Ring) (t : Trb)
    → IsValid r
    → r.write_index + 2 < r.buf_size
    → slot (push r t).0 (r.buf_size - 1) ≡ slot r (r.buf_size - 1)
slot-push_last r t v h =
    rw (push_inside r t v h) (slot-copy_to_last_ne r t (r.buf_size - 1) (omega arith))

pub push_fixed :
    (r : Ring) (t : Trb)
    → IsValid r
    → ((push r t).0.buf_ ≡ r.buf_)
      × ((push r t).0.buf_size ≡ r.buf_size)
      × (length (push r t).0.trbs ≡ length r.trbs)
unfolding copy_to_last
push_fixed r t v = elim (push_cases r v) [
  | inl h ↦ rw (push_inside r t v h) (kept r t)
  | inr h ↦
      rw (push_turn r t v h)
        (twice (record (copy_to_last r t) { write_index = r.write_index + 1 }) (kept r t))
]
  where
    kept :
        (s : Ring) (u : Trb)
        → ((copy_to_last s u).buf_ ≡ s.buf_)
          × ((copy_to_last s u).buf_size ≡ s.buf_size)
          × (length (copy_to_last s u).trbs ≡ length s.trbs)
    kept s u = (refl, refl, length-copy_to_last s u)

    twice :
        (s : Ring)
        → (s.buf_ ≡ r.buf_) × (s.buf_size ≡ r.buf_size) × (length s.trbs ≡ length r.trbs)
        → ((copy_to_last s (closing_link r)).buf_ ≡ r.buf_)
          × ((copy_to_last s (closing_link r)).buf_size ≡ r.buf_size)
          × (length (copy_to_last s (closing_link r)).trbs ≡ length r.trbs)
    twice s (a, b, c) = (a, b, length-copy_to_last s (closing_link r) ∙ c)

pub push_inside_state :
    (r : Ring) (t : Trb)
    → IsValid r
    → r.write_index + 2 < r.buf_size
    → ((push r t).0.write_index ≡ r.write_index + 1) × ((push r t).0.cycle_bit ≡ r.cycle_bit)
unfolding copy_to_last
push_inside_state r t v h = rw (push_inside r t v h) (refl, refl)

pub push_turn_state :
    (r : Ring) (t : Trb)
    → IsValid r
    → Turns r
    → ((push r t).0.write_index ≡ 0) × ((push r t).0.cycle_bit ≡ not r.cycle_bit)
unfolding copy_to_last
push_turn_state r t v h = rw (push_turn r t v h) (refl, refl)
