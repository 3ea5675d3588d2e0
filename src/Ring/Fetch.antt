-- ===== src/Ring/Fetch.antt =====
-- What the consumer of a ring (kernel/usb/xhci/ring.cpp) fetches: the oldest TRB that it has not
-- taken, past the link at the end of a lap, and nothing when it has caught up.
use mathlib.Core.Path.{ap₂}
use mikanos_aarch.Prelude.{
  ℕ, zero, suc, ◌+◌, ◌-◌, ◌%◌, ◌^◌, ◌<◌, ◌≡◌, inl, inr, refl, sym, ap, ◌∙◌, Bool, true, false, not,
  to_bit, arith, length, length-append, List, [], ◌∷◌, ◌++◌, some, none, dec_lt, ◌==◌,
}
use mikanos_aarch.Trb.{Trb, cycle_bit, trb_type}
use mikanos_aarch.Trb.LinkTrb
use mikanos_aarch.Ring.{Ring}
use mikanos_aarch.Ring.Consumer.{Consumer, slot, follow, take_slot, fetch_at, fetch}
use mikanos_aarch.Ring.Slots.{IsValid, payload}
use mikanos_aarch.Ring.Refine.{
  SameLap, LapBehind, Represents, slots, link_at, recount, not-not, length-slots,
}

to_bit-not : (b : Bool) → (to_bit (not b) == to_bit b) ≡ false
to_bit-not true = refl
to_bit-not false = refl

to_bit_self : (b : Bool) → (to_bit b == to_bit b) ≡ true
to_bit_self true = refl
to_bit_self false = refl

-- What stands in the link slot, as the consumer reads it.
link_fields :
    (b : Bool) (p : ℕ)
    → p % 64 ≡ 0
    → p < 2 ^ 64
    → (LinkTrb.pointer (link_at b p) ≡ p)
      × (LinkTrb.toggle_cycle (link_at b p) ≡ 1)
      × (trb_type (link_at b p) ≡ LinkTrb.type)
      × (cycle_bit (link_at b p) ≡ to_bit b)
link_fields true p h k = (omega arith, refl, refl, refl)
link_fields false p h k = (omega arith, refl, refl, refl)

advanced : Consumer → Consumer
advanced c = record c { dequeue = c.dequeue + 1 }

-- A run that is not empty, taken apart.
slots_head :
    (r : Ring) (i n : ℕ) → 0 < n → slots r i n ≡ payload (slot r i) ∷ slots r (i + 1) (n - 1)
slots_head r i zero h = absurd (omega arith)
slots_head r i (suc n) h = ap (λ (k : ℕ). payload (slot r i) ∷ slots r (i + 1) k) (omega arith)

cons-injective : (x y : Trb) (xs ys : List Trb) → x ∷ xs ≡ y ∷ ys → (y ≡ x) × (xs ≡ ys)
cons-injective x y xs ys e = (cc, cc)

module _ (r : Ring) (v : IsValid r) where
  -- In the producer's lap.
  take-SameLap :
      (c : Consumer) (xs : List Trb)
      → SameLap r c xs
      → c.dequeue < r.write_index
      → take_slot r c ≡ some (slot r c.dequeue, advanced c)
  unfolding take_slot advanced
  take-SameLap c xs q h = rw (v.lap c.dequeue h, q.state, to_bit_self r.cycle_bit)

  take_caught_up :
      (c : Consumer) (xs : List Trb)
      → SameLap r c xs
      → c.dequeue ≡ r.write_index
      → take_slot r c ≡ none
  unfolding take_slot
  take_caught_up c xs q h =
      rw
        (v.stale c.dequeue (omega arith) (omega (arith, v.inside)), q.state, to_bit-not r.cycle_bit)

  -- At a slot before the link, `fetch` takes that slot or nothing.
  fetch_plain : (c : Consumer) → c.dequeue + 1 < r.buf_size → fetch r c ≡ take_slot r c
  unfolding fetch take_slot
  fetch_plain c h = ground (arith, v.plain c.dequeue h)

  -- One lap behind, before the link.
  take_behind :
      (c : Consumer) (xs : List Trb)
      → LapBehind r c xs
      → c.dequeue + 1 < r.buf_size
      → take_slot r c ≡ some (slot r c.dequeue, advanced c)
  unfolding take_slot advanced
  take_behind c xs q h =
      rw (v.stale c.dequeue q.order (omega arith), q.state, to_bit_self (not r.cycle_bit))

  -- At the link.
  abbrev wrapped : Consumer
  wrapped = record { dequeue = 0; cycle_state = r.cycle_bit }

  fetch_at_link :
      (c : Consumer) (t : Trb)
      → cycle_bit t ≡ to_bit c.cycle_state
      → trb_type t ≡ LinkTrb.type
      → LinkTrb.pointer t ≡ r.buf_
      → LinkTrb.toggle_cycle t ≡ 1
      → fetch_at r c t ≡ take_slot r (record { dequeue = 0; cycle_state = not c.cycle_state })
  unfolding fetch_at
  fetch_at_link c t e1 e2 e3 e4 = rw (e1, to_bit_self c.cycle_state, e2) (ap (take_slot r) followed)
    where
      followed : follow r c t ≡ record { dequeue = 0; cycle_state = not c.cycle_state }
      followed = ground (arith, e3, e4)

  fetch_link :
      (c : Consumer) (xs : List Trb)
      → LapBehind r c xs
      → c.dequeue + 1 ≡ r.buf_size
      → fetch r c ≡ take_slot r wrapped
  unfolding fetch
  fetch_link c xs q h =
      let (e3, e4, e2, e1) =
        link_fields (not r.cycle_bit) r.buf_ (v.mapped.1) (omega (arith, v.mapped, v.long)) in
      ap (fetch_at r c) (at_last ∙ q.link)
      ∙ fetch_at_link c (link_at (not r.cycle_bit) r.buf_) (e1 ∙ ap to_bit (sym q.state)) e2 e3 e4
      ∙ ap (take_slot r) (
          ap (λ (b : Bool). record { dequeue = 0; cycle_state = b })
            (ap not q.state ∙ not-not r.cycle_bit))
    where
      at_last : slot r c.dequeue ≡ slot r (r.buf_size - 1)
      at_last = ap (slot r) (omega arith)

  -- Past the link the consumer is in the producer's lap.
  behind_to_same :
      (c : Consumer) (xs : List Trb)
      → LapBehind r c xs
      → c.dequeue + 1 ≡ r.buf_size
      → SameLap r wrapped xs
  behind_to_same c xs q h = record {
    state = refl;
    order = omega arith;
    queue =
        q.queue
        ∙ ap (λ (l : List Trb). l ++ slots r 0 r.write_index)
            (recount r c.dequeue (r.buf_size - 1 - c.dequeue) 0 (omega arith))
        ∙ recount r 0 r.write_index (r.write_index - 0) (omega arith);
  }

  -- Taking the head, in the producer's lap and before the link one lap behind.
  SameLap-next :
      (c : Consumer) (x : Trb) (xs : List Trb)
      → SameLap r c (x ∷ xs)
      → c.dequeue < r.write_index
      → (payload (slot r c.dequeue) ≡ x) × SameLap r (advanced c) xs
  unfolding advanced
  SameLap-next c x xs q h =
      let n = r.write_index - c.dequeue in
      let (e, rest) =
        cons-injective x (payload (slot r c.dequeue)) xs (slots r (c.dequeue + 1) (n - 1))
          (q.queue ∙ slots_head r c.dequeue n (omega arith)) in
      (
        e,
        record {
          state = q.state;
          order = omega arith;
          queue = rest ∙ recount r (c.dequeue + 1) (n - 1) _ (omega arith);
        },
      )

  LapBehind-next :
      (c : Consumer) (x : Trb) (xs : List Trb)
      → LapBehind r c (x ∷ xs)
      → c.dequeue + 1 < r.buf_size
      → (payload (slot r c.dequeue) ≡ x) × LapBehind r (advanced c) xs
  unfolding advanced
  LapBehind-next c x xs q h =
      let n = r.buf_size - 1 - c.dequeue in
      let tail = slots r 0 r.write_index in
      let (e, rest) =
        cons-injective x (payload (slot r c.dequeue)) xs (slots r (c.dequeue + 1) (n - 1) ++ tail)
          (q.queue ∙ ap (λ (l : List Trb). l ++ tail) (slots_head r c.dequeue n (omega arith))) in
      (
        e,
        record {
          state = q.state;
          order = omega (arith, q.order);
          within = omega arith;
          link = q.link;
          queue =
              rest
              ∙ ap (λ (l : List Trb). l ++ tail)
                  (recount r (c.dequeue + 1) (n - 1) _ (omega arith));
        },
      )

  -- What `fetch` yields in the producer's lap.
  abbrev Yields : Consumer → Trb → List Trb → Type 0
  Yields c x xs =
      (t : Trb) × (c' : Consumer) × (fetch r c ≡ some (t, c'))
      × (payload t ≡ x)
      × Represents r c' xs

  take_head :
      (c : Consumer) (x : Trb) (xs : List Trb)
      → SameLap r c (x ∷ xs)
      → (take_slot r c ≡ some (slot r c.dequeue, advanced c))
        × (payload (slot r c.dequeue) ≡ x)
        × SameLap r (advanced c) xs
  take_head c x xs q =
      let (e, q') = SameLap-next c x xs q ahead in (take-SameLap c (x ∷ xs) q ahead, e, q')
    where
      ahead : c.dequeue < r.write_index
      ahead = elim (dec_lt c.dequeue r.write_index) [
        | yes h ↦ h
        | no h ↦
            absurd (cc (q.queue ∙ recount r c.dequeue (r.write_index - c.dequeue) 0 (omega arith)))
      ]

  -- `fetch` yields the oldest outstanding TRB, as it was pushed but for the cycle bit, and the rest
  -- stays outstanding in order; the link at the end of a lap is passed on the way.
  pub fetch-Represents :
      (c : Consumer) (x : Trb) (xs : List Trb)
      → Represents r c (x ∷ xs)
      → (t : Trb) × (c' : Consumer) × (fetch r c ≡ some (t, c'))
        × (payload t ≡ x)
        × Represents r c' xs
  fetch-Represents c x xs (inl q) =
      let (e, px, q') = take_head c x xs q in
      (
        slot r c.dequeue,
        advanced c,
        fetch_plain c (omega (arith, q.order, v.inside)) ∙ e,
        px,
        inl q',
      )
  fetch-Represents c x xs (inr q) = elim (dec_lt (c.dequeue + 1) r.buf_size) [
    | yes h ↦
        let (px, q') = LapBehind-next c x xs q h in
        (slot r c.dequeue, advanced c, fetch_plain c h ∙ take_behind c (x ∷ xs) q h, px, inr q')
    | no h ↦
        let at_link : c.dequeue + 1 ≡ r.buf_size = omega (arith, q.within) in
        let (e, px, q') = take_head wrapped x xs (behind_to_same c (x ∷ xs) q at_link) in
        (slot r 0, advanced wrapped, fetch_link c (x ∷ xs) q at_link ∙ e, px, inl q')
  ]

  none_caught_up : (c : Consumer) → SameLap r c [] → take_slot r c ≡ none
  none_caught_up c q = take_caught_up c [] q (omega (arith, q.order, count))
    where
      count : 0 ≡ r.write_index - c.dequeue
      count = ap length q.queue ∙ length-slots r c.dequeue (r.write_index - c.dequeue)

  -- With nothing outstanding `fetch` finds nothing.
  pub fetch-Represents_nil : (c : Consumer) → Represents r c [] → fetch r c ≡ none
  fetch-Represents_nil c (inl q) =
      fetch_plain c (omega (arith, q.order, v.inside)) ∙ none_caught_up c q
  fetch-Represents_nil c (inr q) =
      fetch_link c [] q (omega (arith, q.within, count))
      ∙ none_caught_up wrapped (behind_to_same c [] q (omega (arith, q.within, count)))
    where
      count : 0 ≡ r.buf_size - 1 - c.dequeue + r.write_index
      count =
          ap length q.queue
          ∙ length-append (slots r c.dequeue (r.buf_size - 1 - c.dequeue)) (slots r 0 r.write_index)
          ∙ ap₂ ◌+◌ (length-slots r c.dequeue (r.buf_size - 1 - c.dequeue))
              (length-slots r 0 r.write_index)
