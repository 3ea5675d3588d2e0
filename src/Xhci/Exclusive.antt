-- ===== src/Xhci/Exclusive.antt =====
-- At most one root hub port is between its reset and its address (kernel/usb/xhci/xhci.cpp): the
-- invariant of their handling, over sequences of events.
use mikanos_aarch.Prelude.{
  ℕ, ◌≤◌, ◌<◌, ◌≡◌, ◌≢◌, ◌⊎◌, inl, inr, refl, sym, ap, subst, ◌∙◌, List, set, length, length-set,
  get_or-set_self, get_or-set_ne, get_or-past, arith, dec_lt, ℕ_discrete,
}
use mikanos_aarch.Xhci.{ConfigPhase, not_connected, phase_number}
use mikanos_aarch.Xhci.Phases.{at, IsPort}

-- The phases from the reset to the address.
abbrev pub IsBusy : ConfigPhase → Type 0
IsBusy phase = (2 ≤ phase_number phase) × (phase_number phase ≤ 4)

pub record IsExclusive (phases : List ConfigPhase) (port : ℕ) : Type 0 where
  -- A port in one of them is the addressed port, and a port that is addressed is in one of them.
  pub owner : (p : ℕ) → IsBusy (at phases p) → p ≡ port
  pub owned : port ≢ 0 → IsBusy (at phases port)
  -- 0 is no port's number, and a port's number is a byte.
  pub zeroth : at phases 0 ≡ not_connected
  pub size : length phases ≡ 256

-- The phase of a port after a write.
pub at-set :
    (phases : List ConfigPhase) (k : ℕ) (phase : ConfigPhase) (p : ℕ)
    → ((k ≡ p) × (k < length phases) × (at (set phases k phase) p ≡ phase))
      ⊎ ((k ≡ p)
          × (length phases ≤ k)
          × (at (set phases k phase) p ≡ not_connected)
          × (at phases k ≡ not_connected))
      ⊎ ((k ≢ p) × (at (set phases k phase) p ≡ at phases p))
at-set phases k phase p = elim (ℕ_discrete k p) [
  | no ne ↦ inr (inr (ne, get_or-set_ne phases k p phase not_connected ne))
  | yes e ↦ elim (dec_lt k (length phases)) [
    | yes h ↦ inl (e, h, rw (← e) (get_or-set_self phases k phase not_connected h))
    | no h ↦ inr (
        inl (
          e,
          omega arith,
          get_or-past (set phases k phase) p not_connected
              (omega (arith, length-set phases k phase)),
          get_or-past phases k not_connected (omega arith),
        ))
  ]
]

-- A port outside the array is not connected.
pub inside : (phases : List ConfigPhase) (p : ℕ) → at phases p ≢ not_connected → p < length phases
inside phases p ne = elim (dec_lt p (length phases)) [
  | yes h ↦ h
  | no h ↦ absurd (ne (get_or-past phases p not_connected (omega arith)))
]

pub not-IsBusy : (phase : ConfigPhase) → phase ≡ not_connected → ¬ IsBusy phase
not-IsBusy phase e b = absurd (omega (arith, ap phase_number e))

pub busy_nonzero :
    {phases : List ConfigPhase} {port k : ℕ}
    → IsExclusive phases port
    → at phases k ≢ not_connected
    → k ≢ 0
busy_nonzero v ne e = ne (ap (at _) e ∙ v.zeroth)

module _ (phases : List ConfigPhase) (port : ℕ) (v : IsExclusive phases port) where
  -- A write from outside the exclusive phases to outside of them.
  pub quiet-IsExclusive :
      (k : ℕ) (q : ConfigPhase)
      → k ≢ 0
      → ¬ IsBusy (at phases k)
      → ¬ IsBusy q
      → IsExclusive (set phases k q) port
  quiet-IsExclusive k q nz old new = record {
    owner = λ p b. elim (at-set phases k q p) [
      | inl (_, _, e) ↦ absurd (new (subst IsBusy e b))
      | inr (inl (_, _, e, _)) ↦ absurd (not-IsBusy (at (set phases k q) p) e b)
      | inr (inr (_, e)) ↦ v.owner p (subst IsBusy e b)
    ];
    owned = λ nz'. elim (ℕ_discrete k port) [
      | yes e ↦ absurd (old (rw e (v.owned nz')))
      | no ne ↦ rw (get_or-set_ne phases k port q not_connected ne) (v.owned nz')
    ];
    zeroth = get_or-set_ne phases k 0 q not_connected nz ∙ v.zeroth;
    size = length-set phases k q ∙ v.size;
  }

  -- A write from one of them to another.
  pub busy-IsExclusive :
      (k : ℕ) (q : ConfigPhase)
      → IsBusy (at phases k)
      → IsBusy q
      → IsExclusive (set phases k q) port
  busy-IsExclusive k q old new = record {
    owner = λ p b. elim (at-set phases k q p) [
      | inl (e, _, _) ↦ sym e ∙ v.owner k old
      | inr (inl (_, _, e, _)) ↦ absurd (not-IsBusy (at (set phases k q) p) e b)
      | inr (inr (_, e)) ↦ v.owner p (subst IsBusy e b)
    ];
    owned = λ nz'.
        rw (← v.owner k old, get_or-set_self phases k q not_connected (inside phases k filled)) new;
    zeroth = get_or-set_ne phases k 0 q not_connected (busy_nonzero v filled) ∙ v.zeroth;
    size = length-set phases k q ∙ v.size;
  }
    where
      filled : at phases k ≢ not_connected
      filled e = not-IsBusy (at phases k) e old

  -- The addressed port leaves them.
  pub left-IsExclusive :
      (q : ConfigPhase) → IsBusy (at phases port) → ¬ IsBusy q → IsExclusive (set phases port q) 0
  left-IsExclusive q old new = record {
    owner = λ p b. elim (at-set phases port q p) [
      | inl (_, _, e) ↦ absurd (new (subst IsBusy e b))
      | inr (inl (_, _, e, _)) ↦ absurd (not-IsBusy (at (set phases port q) p) e b)
      | inr (inr (ne, e)) ↦ absurd (ne (sym (v.owner p (subst IsBusy e b))))
    ];
    owned = λ nz. absurd (nz refl);
    zeroth =
        get_or-set_ne phases port 0 q not_connected
          (busy_nonzero v (λ e. not-IsBusy (at phases port) e old))
        ∙ v.zeroth;
    size = length-set phases port q ∙ v.size;
  }

  -- Where no port is addressed, one enters them.
  pub entered-IsExclusive :
      (k : ℕ) (q : ConfigPhase) → port ≡ 0 → IsPort k → IsBusy q → IsExclusive (set phases k q) k
  entered-IsExclusive k q free (lo, hi) new = record {
    owner = λ p b. elim (at-set phases k q p) [
      | inl (e, _, _) ↦ sym e
      | inr (inl (e, _, _, _)) ↦ sym e
      | inr (inr (_, e)) ↦ absurd (
          not-IsBusy (at phases p) (ap (at phases) (v.owner p (subst IsBusy e b) ∙ free) ∙ v.zeroth)
            (subst IsBusy e b))
    ];
    owned = λ _. rw (get_or-set_self phases k q not_connected (omega (arith, v.size))) new;
    zeroth = get_or-set_ne phases k 0 q not_connected (omega arith) ∙ v.zeroth;
    size = length-set phases k q ∙ v.size;
  }
