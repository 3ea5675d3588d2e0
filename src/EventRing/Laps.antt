-- ===== src/EventRing/Laps.antt =====
-- The walk of `EventRing::Pop` (kernel/usb/xhci/ring.cpp) round the segment.
use native.Mathlib.Nat.{
  add-mul-mod_self_right, add-mul-div_right, div-add-mod', mod-eq_of_lt, div-eq_of_lt, mod-lt,
  mul-mod_left, mul-div_left,
}
use mikanos_aarch.Prelude.{
  ℕ, zero, suc, ◌+◌, ◌*◌, ◌/◌, ◌%◌, ◌^◌, ◌<◌, ◌≡◌, ◌≢◌, ◌⊎◌, inl, inr, refl, sym, ap, ◌∙◌, Bool,
  true, not, arith, dec_lt, ℕ_discrete, ==_iff, ==_ne, false, ◌==◌,
}
use mikanos_aarch.EventRing.{
  EventRing, read_dequeue_pointer, write_dequeue_pointer, segment_end, pop,
}
use mikanos_aarch.Memory.{add64}

-- The segment that `Initialize` registers: the whole buffer, aligned and within the address space.
pub record IsValid (e : EventRing) : Type 0 where
  pub aligned : e.buf_ % 16 ≡ 0
  pub mapped : e.buf_ + 16 * e.buf_size < 2 ^ 64
  pub long : 0 < e.buf_size
  pub base : e.erst.ring_segment_base_address ≡ e.buf_
  pub size : e.erst.ring_segment_size ≡ e.buf_size

-- The dequeue pointer stands at slot `i`.
abbrev pub StandsAt : EventRing → ℕ → Type 0
StandsAt e i = (i < e.buf_size) × (read_dequeue_pointer e ≡ e.buf_ + 16 * i)

pointer_written :
    (e : EventRing) (p : ℕ)
    → p % 16 ≡ 0
    → p < 2 ^ 64
    → read_dequeue_pointer (write_dequeue_pointer e p) ≡ p
unfolding write_dequeue_pointer
pointer_written e p h k = omega arith

-- Before the last slot `Pop` goes on to the next one, at the last slot to the first, and there it
-- toggles the cycle state.
pop_step :
    (e : EventRing) (i : ℕ)
    → IsValid e
    → StandsAt e i
    → ((i + 1 < e.buf_size) × (pop e ≡ write_dequeue_pointer e (e.buf_ + 16 * (i + 1))))
      ⊎ ((i + 1 ≡ e.buf_size)
          × (pop e ≡ write_dequeue_pointer (record e { state = not e.state }) e.buf_))
unfolding pop
pop_step e i v (h, at) = elim (ℕ_discrete (i + 1) e.buf_size) [
  | yes last ↦ inr (
    last,
    rw (at_end last) (ap (write_dequeue_pointer (record e { state = not e.state })) v.base),
  )
  | no more ↦ inl (omega arith, rw (before_end more) (ap (write_dequeue_pointer e) here))
]
  where
    here : add64 (read_dequeue_pointer e) 16 ≡ e.buf_ + 16 * (i + 1)
    here = omega (arith, at, v.mapped)

    there : segment_end e ≡ e.buf_ + 16 * e.buf_size
    there = omega (arith, v.base, v.size, v.mapped)

    at_end : i + 1 ≡ e.buf_size → (add64 (read_dequeue_pointer e) 16 == segment_end e) ≡ true
    at_end last = (==_iff _ (segment_end e)).1 (omega (arith, here, there, last))

    before_end : i + 1 ≢ e.buf_size → (add64 (read_dequeue_pointer e) 16 == segment_end e) ≡ false
    before_end more = ==_ne _ (segment_end e) (omega (arith, here, there, more))

-- What a write of the dequeue pointer leaves alone.
written-IsValid : (e : EventRing) (p : ℕ) → IsValid e → IsValid (write_dequeue_pointer e p)
unfolding write_dequeue_pointer
written-IsValid e p v = record {
  aligned = v.aligned;
  mapped = v.mapped;
  long = v.long;
  base = v.base;
  size = v.size;
}

written_state :
    (e : EventRing) (p : ℕ)
    → ((write_dequeue_pointer e p).state ≡ e.state)
      × ((write_dequeue_pointer e p).buf_size ≡ e.buf_size)
      × ((write_dequeue_pointer e p).buf_ ≡ e.buf_)
unfolding write_dequeue_pointer
written_state e p = (refl, refl, refl)

-- What a write of an address on a slot gives.
written_at :
    (e : EventRing) (i : ℕ)
    → IsValid e
    → i < e.buf_size
    → read_dequeue_pointer (write_dequeue_pointer e (e.buf_ + 16 * i)) ≡ e.buf_ + 16 * i
written_at e i v h = pointer_written e (e.buf_ + 16 * i) (omega arith) (omega arith)

-- `n` pops in a row.
pub pops : ℕ → EventRing → EventRing
pops zero e = e
pops (suc n) e = pop (pops n e)

-- The cycle state after `k` laps, from the 1 of `Initialize`.
abbrev pub lap_state : ℕ → Bool
lap_state zero = true
lap_state (suc k) = not (lap_state k)

-- The ring after `n` pops: slot `n` modulo the size, in lap `n` divided by it.
pub record Walked (e : EventRing) (n : ℕ) (e' : EventRing) : Type 0 where
  pub valid : IsValid e'
  pub same : (e'.buf_ ≡ e.buf_) × (e'.buf_size ≡ e.buf_size)
  pub place : read_dequeue_pointer e' ≡ e.buf_ + 16 * (n % e.buf_size)
  pub lap : e'.state ≡ lap_state (n / e.buf_size)

-- Counting on within a lap and into the next one.
count_on :
    (m n : ℕ)
    → 0 < m
    → ((n % m + 1 < m) × (suc n % m ≡ n % m + 1) × (suc n / m ≡ n / m))
      ⊎ ((n % m + 1 ≡ m) × (suc n % m ≡ 0) × (suc n / m ≡ suc (n / m)))
count_on m n h = elim (dec_lt (n % m + 1) m) [
  | yes more ↦ inl (
    more,
    ap (λ (k : ℕ). k % m) split ∙ add-mul-mod_self_right (n % m + 1) (n / m) m ∙ mod-eq_of_lt more,
    ap (λ (k : ℕ). k / m) split
        ∙ add-mul-div_right (n % m + 1) (n / m) h
        ∙ omega (arith, div-eq_of_lt more),
  )
  | no last ↦ inr (
    omega (arith, mod-lt n h),
    ap (λ (k : ℕ). k % m) (next last) ∙ mul-mod_left (suc (n / m)) m,
    ap (λ (k : ℕ). k / m) (next last) ∙ mul-div_left (suc (n / m)) h,
  )
]
  where
    split : suc n ≡ n % m + 1 + n / m * m
    split = omega (arith, div-add-mod' n m)

    next : ¬ (n % m + 1 < m) → suc n ≡ suc (n / m) * m
    next last = omega (arith, div-add-mod' n m, mod-lt n h)

abbrev turned : EventRing → EventRing
turned e = record e { state = not e.state }

turned-IsValid : (e : EventRing) → IsValid e → IsValid (turned e)
turned-IsValid e v = record {
  aligned = v.aligned;
  mapped = v.mapped;
  long = v.long;
  base = v.base;
  size = v.size;
}

pop-Walked :
    (e : EventRing) (n : ℕ) (e' : EventRing)
    → 0 < e.buf_size
    → Walked e n e'
    → Walked e (suc n) (pop e')
pop-Walked e n e' h w = elim (pop_step e' (n % e.buf_size) w.valid stands) [
  | inl (more, step) ↦ rw step (elim (count_on e.buf_size n h) [
    | inl (_, place, lap) ↦ record {
      valid = written-IsValid e' (e'.buf_ + 16 * (n % e.buf_size + 1)) w.valid;
      same =
          (let (_, a, b) = written_state e' (e'.buf_ + 16 * (n % e.buf_size + 1)) in
            (b ∙ w.same.0, a ∙ w.same.1));
      place = written_at e' (n % e.buf_size + 1) w.valid more ∙ omega (arith, w.same, place);
      lap =
          (written_state e' (e'.buf_ + 16 * (n % e.buf_size + 1))).0
          ∙ w.lap
          ∙ ap lap_state (sym lap);
    }
    | inr (last, _, _) ↦ absurd (omega (arith, w.same))
  ])
  | inr (last, step) ↦ rw step (elim (count_on e.buf_size n h) [
    | inl (more, _, _) ↦ absurd (omega (arith, w.same))
    | inr (_, place, lap) ↦ record {
      valid = written-IsValid (turned e') e'.buf_ (turned-IsValid e' w.valid);
      same = (let (_, a, b) = written_state (turned e') e'.buf_ in (b ∙ w.same.0, a ∙ w.same.1));
      place =
          pointer_written (turned e') e'.buf_ w.valid.aligned (omega (arith, w.valid.mapped))
          ∙ omega (arith, w.same, place);
      lap = (written_state (turned e') e'.buf_).0 ∙ ap not w.lap ∙ ap lap_state (sym lap);
    }
  ])
]
  where
    stands : StandsAt e' (n % e.buf_size)
    stands = omega (arith, w.place, w.same, mod-lt n h)

pops-Walked : (e : EventRing) (n : ℕ) → 0 < e.buf_size → Walked e 0 e → Walked e n (pops n e)
unfolding pops
pops-Walked e zero h w = w
pops-Walked e (suc n) h w = pop-Walked e n (pops n e) h (pops-Walked e n h w)

-- From a ring just initialised, `n` pops leave the dequeue pointer at slot `n % buf_size` and toggle
-- the cycle state once a lap, at any number of laps.
pub pops_lem :
    (e : EventRing) (n : ℕ)
    → IsValid e
    → read_dequeue_pointer e ≡ e.buf_
    → e.state ≡ true
    → (read_dequeue_pointer (pops n e) ≡ e.buf_ + 16 * (n % e.buf_size))
      × ((pops n e).state ≡ lap_state (n / e.buf_size))
pops_lem e n v at s = (walked.place, walked.lap)
  where
    start : Walked e 0 e
    start = record {
      valid = v;
      same = (refl, refl);
      place = omega (arith, at, v.long, mod-eq_of_lt v.long);
      lap = s ∙ ap lap_state (sym (div-eq_of_lt v.long));
    }

    walk : (k : ℕ) → Walked e k (pops k e)
    walk k = pops-Walked e k v.long start

    walked : Walked e n (pops n e)
    walked = walk n
