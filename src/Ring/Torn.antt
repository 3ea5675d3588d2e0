-- ===== src/Ring/Torn.antt =====
-- `CopyToLast` (kernel/usb/xhci/ring.cpp) writes the word with the cycle bit last: whatever the
-- controller reads between the word writes, it does not see the half-written TRB.
use mikanos_aarch.Prelude.{
  ℕ, ◌+◌, ◌-◌, ◌<◌, ◌≡◌, ◌≢◌, inl, inr, refl, sym, ap, ◌∙◌, arith, length, List, ◌++◌, length-set,
  get_or-set_self, get_or-set_ne, ℕ_discrete,
}
use mathlib.Core.Path.{ap₂}
use mikanos_aarch.Trb.{Trb, zero_trb}
use mikanos_aarch.Ring.{Ring, first_words, copy_words}
use mikanos_aarch.Ring.Consumer.{Consumer, slot}
use mikanos_aarch.Ring.Slots.{IsValid}
use mikanos_aarch.Ring.Refine.{SameLap, LapBehind, Represents, slots_agree, room_behind}

module _ (n : ℕ) (r : Ring) (t : Trb) where
  slot-copy_words_ne : (i : ℕ) → r.write_index ≢ i → slot (copy_words n r t) i ≡ slot r i
  unfolding copy_words
  slot-copy_words_ne i ne = get_or-set_ne r.trbs r.write_index i _ zero_trb ne

  -- The word that holds the cycle bit and the type is untouched in every slot.
  last_word_kept : (i : ℕ) → IsValid r → (slot (copy_words n r t) i).data3 ≡ (slot r i).data3
  unfolding copy_words
  last_word_kept i v = elim (ℕ_discrete r.write_index i) [
    | yes e ↦
        ap (λ (k : ℕ). (slot (copy_words n r t) k).data3) (sym e)
        ∙ ap (λ (u : Trb). u.data3)
            (get_or-set_self r.trbs r.write_index (first_words n (slot r r.write_index) t) zero_trb
              (omega (arith, v.allocated, v.inside)))
        ∙ ap (λ (k : ℕ). (slot r k).data3) e
    | no ne ↦ ap (λ (u : Trb). u.data3) (slot-copy_words_ne i ne)
  ]

  fixed :
      ((copy_words n r t).buf_ ≡ r.buf_)
      × ((copy_words n r t).buf_size ≡ r.buf_size)
      × (length (copy_words n r t).trbs ≡ length r.trbs)
      × ((copy_words n r t).write_index ≡ r.write_index)
      × ((copy_words n r t).cycle_bit ≡ r.cycle_bit)
  unfolding copy_words
  fixed = (refl, refl, length-set r.trbs r.write_index _, refl, refl)

  copy_words-IsValid : IsValid r → IsValid (copy_words n r t)
  unfolding copy_words
  copy_words-IsValid v = record {
    mapped = v.mapped;
    long = v.long;
    allocated = length-set r.trbs r.write_index _ ∙ v.allocated;
    inside = v.inside;
    lap = λ i h. omega (arith, last_word_kept i v, v.lap i h);
    stale = λ i lo hi. omega (arith, last_word_kept i v, v.stale i lo hi);
    plain = λ i h. omega (arith, last_word_kept i v, v.plain i h);
  }

  SameLap-torn : (c : Consumer) (xs : List Trb) → SameLap r c xs → SameLap (copy_words n r t) c xs
  unfolding copy_words
  SameLap-torn c xs q = record {
    state = q.state;
    order = q.order;
    queue =
        q.queue
        ∙ sym (
            slots_agree r (copy_words n r t) c.dequeue (r.write_index - c.dequeue)
              (λ k lo hi. slot-copy_words_ne k (omega (arith, q.order))));
  }

  LapBehind-torn :
      (c : Consumer) (xs : List Trb)
      → r.write_index < c.dequeue
      → LapBehind r c xs
      → LapBehind (copy_words n r t) c xs
  unfolding copy_words
  LapBehind-torn c xs ahead q = record {
    state = q.state;
    order = q.order;
    within = q.within;
    link = slot-copy_words_ne (r.buf_size - 1) (omega (arith, q.within)) ∙ q.link;
    queue =
        q.queue
        ∙ ap₂ ◌++◌
            (sym (
              slots_agree r (copy_words n r t) c.dequeue (r.buf_size - 1 - c.dequeue)
                (λ k lo hi. slot-copy_words_ne k (omega arith))))
            (sym (
              slots_agree r (copy_words n r t) 0 r.write_index
                (λ k lo hi. slot-copy_words_ne k (omega arith))));
  }

  -- After any number of rounds of the loop of `CopyToLast` the ring is valid and represents what it
  -- did before the push, as long as the push itself was allowed.
  pub copy_words-Represents :
      (c : Consumer) (xs : List Trb)
      → IsValid r
      → length xs + 2 < r.buf_size
      → Represents r c xs
      → IsValid (copy_words n r t) × Represents (copy_words n r t) c xs
  copy_words-Represents c xs v room (inl q) = (copy_words-IsValid v, inl (SameLap-torn c xs q))
  copy_words-Represents c xs v room (inr q) =
      (copy_words-IsValid v, inr (LapBehind-torn c xs (room_behind r c xs q room).0 q))
