-- ===== src/Ring/Refine.antt =====
-- `class Ring` of kernel/usb/xhci/ring.cpp is a queue to a consumer that follows the cycle bits: what
-- is pushed is fetched in that order, once each, across any number of laps.
use mikanos_aarch.Prelude.{
  ℕ, zero, suc, ◌+◌, ◌-◌, ◌^◌, ◌≤◌, ◌<◌, ◌≡◌, ◌≢◌, ◌⊎◌, inl, inr, refl, sym, ap, ◌∙◌, Bool, true,
  false, not, arith, length, List, [], ◌∷◌, ◌++◌, length-append,
}
use mathlib.Core.List.{append-nil, append_assoc}
use mathlib.Core.Path.{ap₂}
use mikanos_aarch.Trb.{Trb}
use mikanos_aarch.Trb.LinkTrb
use mikanos_aarch.Ring.{Ring, closing_link, push}
use mikanos_aarch.Ring.Consumer.{Consumer, slot}
use mikanos_aarch.Ring.Slots.{
  IsValid, Turns, push_cases, stamp, payload, payload-stamp, slot-push_self, slot-push_ne,
  slot-push_link, slot-push_last, push_fixed, push_inside_state, push_turn_state,
}

-- The payloads of `n` slots from slot `i` on.
abbrev pub slots : Ring → ℕ → ℕ → List Trb
slots r i zero = []
slots r i (suc n) = payload (slot r i) ∷ slots r (i + 1) n

-- The consumer is in the producer's lap.
pub record SameLap (r : Ring) (c : Consumer) (xs : List Trb) : Type 0 where
  pub state : c.cycle_state ≡ r.cycle_bit
  pub order : c.dequeue ≤ r.write_index
  pub queue : xs ≡ slots r c.dequeue (r.write_index - c.dequeue)

-- The consumer has yet to pass the link to the lap of the producer.
pub record LapBehind (r : Ring) (c : Consumer) (xs : List Trb) : Type 0 where
  pub state : c.cycle_state ≡ not r.cycle_bit
  pub order : r.write_index ≤ c.dequeue
  pub within : c.dequeue < r.buf_size
  pub link : slot r (r.buf_size - 1) ≡ stamp (not r.cycle_bit) (closing_link r)
  pub queue : xs ≡ slots r c.dequeue (r.buf_size - 1 - c.dequeue) ++ slots r 0 r.write_index

-- The TRBs that the consumer is still to take, without their cycle bits.
abbrev pub Represents : Ring → Consumer → List Trb → Type 0
Represents r c xs = SameLap r c xs ⊎ LapBehind r c xs

pub recount : (r : Ring) (i m n : ℕ) → m ≡ n → slots r i m ≡ slots r i n
recount r i m n e = ap (slots r i) e

pub not-not : (b : Bool) → not (not b) ≡ b
not-not true = refl
not-not false = refl

-- The stamped link of a ring at address `p`.
abbrev pub link_at : Bool → ℕ → Trb
link_at b p = stamp b (LinkTrb.set_toggle_cycle (LinkTrb.new p) true)

pub length-slots : (r : Ring) (i n : ℕ) → length (slots r i n) ≡ n
length-slots r i zero = refl
length-slots r i (suc n) = ap suc (length-slots r (i + 1) n)

slots_snoc :
    (r : Ring) (i n : ℕ) → slots r i (suc n) ≡ slots r i n ++ (payload (slot r (i + n)) ∷ [])
slots_snoc r i zero = ap (λ (k : ℕ). payload (slot r k) ∷ []) (omega arith)
slots_snoc r i (suc n) =
    ap (λ (l : List Trb). payload (slot r i) ∷ l)
      (slots_snoc r (i + 1) n
        ∙ ap (λ (k : ℕ). slots r (i + 1) n ++ (payload (slot r k) ∷ [])) (omega arith))

-- Two rings that agree on the slots of a run.
pub slots_agree :
    (r s : Ring) (i n : ℕ)
    → ((k : ℕ) → i ≤ k → k < i + n → slot s k ≡ slot r k)
    → slots s i n ≡ slots r i n
slots_agree r s i zero h = refl
slots_agree r s i (suc n) h =
    ap₂ (λ (t : Trb) (l : List Trb). payload t ∷ l) (h i (omega arith) (omega arith))
      (slots_agree r s (i + 1) n (λ k lo hi. h k (omega arith) (omega arith)))

module _ (r : Ring) (t : Trb) (v : IsValid r) (word : t.data3 < 2 ^ 32) where
  -- The run of written slots grows by the pushed TRB.
  slots-push :
      (d : ℕ)
      → d ≤ r.write_index
      → slots (push r t).0 d (suc (r.write_index - d))
        ≡ slots r d (r.write_index - d) ++ (payload t ∷ [])
  slots-push d h =
      slots_snoc (push r t).0 d (r.write_index - d)
      ∙ ap₂ (λ (l : List Trb) (u : Trb). l ++ (u ∷ [])) before last
    where
      before : slots (push r t).0 d (r.write_index - d) ≡ slots r d (r.write_index - d)
      before =
          slots_agree r (push r t).0 d (r.write_index - d)
            (λ k lo hi. slot-push_ne r t k v (omega arith) (omega (arith, v.inside)))

      index : d + (r.write_index - d) ≡ r.write_index
      index = omega arith

      last : payload (slot (push r t).0 (d + (r.write_index - d))) ≡ payload t
      last = rw (index, slot-push_self r t v) (payload-stamp r.cycle_bit t word)

  SameLap-inside :
      (c : Consumer) (xs : List Trb)
      → r.write_index + 2 < r.buf_size
      → SameLap r c xs
      → SameLap (push r t).0 c (xs ++ (payload t ∷ []))
  SameLap-inside c xs h q =
      let (wi, cb) = push_inside_state r t v h in
      record {
        state = q.state ∙ sym cb;
        order = omega (arith, wi, q.order);
        queue =
            ap (λ (l : List Trb). l ++ (payload t ∷ [])) q.queue
            ∙ sym (slots-push c.dequeue q.order)
            ∙ recount (push r t).0 c.dequeue (suc (r.write_index - c.dequeue)) _
                (omega (arith, wi, q.order));
      }

  SameLap-turn :
      (c : Consumer) (xs : List Trb)
      → Turns r
      → SameLap r c xs
      → LapBehind (push r t).0 c (xs ++ (payload t ∷ []))
  SameLap-turn c xs h q =
      let (wi, cb) = push_turn_state r t v h in
      let (fb, fs, fl) = push_fixed r t v in
      record {
        state = q.state ∙ sym (ap not cb ∙ not-not r.cycle_bit);
        order = omega (arith, wi);
        within = omega (arith, fs, q.order, v.inside);
        link =
            ap (slot (push r t).0) (
              let e : (push r t).0.buf_size - 1 ≡ r.write_index + 1 = omega (arith, fs, v.inside) in
              e)
            ∙ slot-push_link r t v h
            ∙ ap₂ link_at (sym (ap not cb ∙ not-not r.cycle_bit)) (sym fb);
        queue =
            ap (λ (l : List Trb). l ++ (payload t ∷ [])) q.queue
            ∙ sym (slots-push c.dequeue q.order)
            ∙ sym (append-nil (slots (push r t).0 c.dequeue (suc (r.write_index - c.dequeue))))
            ∙ ap₂ ◌++◌
                (recount (push r t).0 c.dequeue (suc (r.write_index - c.dequeue)) _
                  (omega (arith, fs, q.order)))
                (recount (push r t).0 0 0 _ (sym wi));
      }

  LapBehind-inside :
      (c : Consumer) (xs : List Trb)
      → r.write_index + 2 < r.buf_size
      → r.write_index < c.dequeue
      → LapBehind r c xs
      → LapBehind (push r t).0 c (xs ++ (payload t ∷ []))
  LapBehind-inside c xs h room q =
      let (wi, cb) = push_inside_state r t v h in
      let (fb, fs, fl) = push_fixed r t v in
      record {
        state = q.state ∙ ap not (sym cb);
        order = omega (arith, wi);
        within = omega (arith, fs, q.within);
        link =
            ap (slot (push r t).0)
              (let e : (push r t).0.buf_size - 1 ≡ r.buf_size - 1 = omega (arith, fs) in e)
            ∙ slot-push_last r t v h
            ∙ q.link
            ∙ ap₂ link_at (ap not (sym cb)) (sym fb);
        queue =
            ap (λ (l : List Trb). l ++ (payload t ∷ []))
              (q.queue
                ∙ ap (◌++◌ (slots r c.dequeue (r.buf_size - 1 - c.dequeue)))
                    (recount r 0 r.write_index (r.write_index - 0) (omega arith)))
            ∙ append_assoc (slots r c.dequeue (r.buf_size - 1 - c.dequeue))
                (slots r 0 (r.write_index - 0)) (payload t ∷ [])
            ∙ ap₂ ◌++◌
                (kept
                  ∙ recount (push r t).0 c.dequeue (r.buf_size - 1 - c.dequeue) _
                      (omega (arith, fs)))
                (sym (slots-push 0 (omega arith))
                  ∙ recount (push r t).0 0 (suc (r.write_index - 0)) _ (omega (arith, wi)));
      }
    where
      kept :
          slots r c.dequeue (r.buf_size - 1 - c.dequeue)
          ≡ slots (push r t).0 c.dequeue (r.buf_size - 1 - c.dequeue)
      kept = sym (
          slots_agree r (push r t).0 c.dequeue (r.buf_size - 1 - c.dequeue)
            (λ k lo hi. slot-push_ne r t k v (omega arith) (omega (arith, q.within))))

-- The consumer is never so far behind that a push can overtake it, while two slots are free.
pub room_behind :
    (r : Ring) (c : Consumer) (xs : List Trb)
    → LapBehind r c xs
    → length xs + 2 < r.buf_size
    → r.write_index < c.dequeue × (r.write_index + 2 ≢ r.buf_size)
room_behind r c xs q h = omega (arith, q.within, count)
  where
    count : length xs ≡ r.buf_size - 1 - c.dequeue + r.write_index
    count =
        ap length q.queue
        ∙ length-append (slots r c.dequeue (r.buf_size - 1 - c.dequeue)) (slots r 0 r.write_index)
        ∙ ap₂ ◌+◌ (length-slots r c.dequeue (r.buf_size - 1 - c.dequeue))
            (length-slots r 0 r.write_index)

-- `Push` of a TRB that is no link appends it to what the consumer is still to take, as long as at
-- most `buf_size - 3` TRBs are outstanding.
pub push-Represents :
    (r : Ring) (c : Consumer) (xs : List Trb) (t : Trb)
    → IsValid r
    → t.data3 < 2 ^ 32
    → length xs + 2 < r.buf_size
    → Represents r c xs
    → Represents (push r t).0 c (xs ++ (payload t ∷ []))
push-Represents r c xs t v word room (inl q) = elim (push_cases r v) [
  | inl h ↦ inl (SameLap-inside r t v word c xs h q)
  | inr h ↦ inr (SameLap-turn r t v word c xs h q)
]
push-Represents r c xs t v word room (inr q) =
    let (ahead, no_turn) = room_behind r c xs q room in
    inr (LapBehind-inside r t v word c xs (omega (arith, v.inside)) ahead q)
