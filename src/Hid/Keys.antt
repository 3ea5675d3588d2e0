-- ===== src/Hid/Keys.antt =====
-- Which keys kernel/usb/classdriver/keyboard.cpp notifies.
use mikanos_aarch.Prelude.{
  ℕ, zero, suc, ◌+◌, ◌≤◌, ◌<◌, ◌≡◌, ◌≢◌, ◌↔◌, ◌⊎◌, inl, inr, refl, ap, true, false, List, ◌∷◌,
  get_or, dec_lt, ◌∙◌, arith,
}
use mikanos_aarch.Hid.{contains, pushed_keys}

-- A key is new in a report: it stands in one of `n` bytes from `i` on.
abbrev pub Reported : ℕ → ℕ → List ℕ → ℕ → Type 0
Reported n i buf key = (j : ℕ) × (i ≤ j) × (j < i + n) × (get_or buf j 0 ≡ key)

Reported-here :
    (n i : ℕ) (buf : List ℕ) (key : ℕ) → get_or buf i 0 ≡ key → Reported (suc n) i buf key
Reported-here n i buf key e = (i, omega arith, omega arith, e)

Reported-later :
    (n i : ℕ) (buf : List ℕ) (key : ℕ) → Reported n (i + 1) buf key → Reported (suc n) i buf key
Reported-later n i buf key (j, lo, hi, e) = (j, omega arith, omega arith, e)

Reported-cases :
    (n i : ℕ) (buf : List ℕ) (key : ℕ)
    → Reported (suc n) i buf key
    → (get_or buf i 0 ≡ key) ⊎ Reported n (i + 1) buf key
Reported-cases n i buf key (j, lo, hi, e) = elim (dec_lt i j) [
  | yes h ↦ inr (j, omega arith, omega arith, e)
  | no h ↦ inl (ap (λ (k : ℕ). get_or buf k 0) (omega arith) ∙ e)
]

-- One round of the loop.
pushed_keys_cases :
    (n i : ℕ) (buf previous : List ℕ)
    → ((pushed_keys (suc n) i buf previous ≡ pushed_keys n (i + 1) buf previous)
        × ((get_or buf i 0 ≡ 0) ⊎ (contains previous (get_or buf i 0) ≡ true)))
      ⊎ ((pushed_keys (suc n) i buf previous ≡ get_or buf i 0 ∷ pushed_keys n (i + 1) buf previous)
          × (get_or buf i 0 ≢ 0)
          × (contains previous (get_or buf i 0) ≡ false))
unfolding pushed_keys
pushed_keys_cases n i buf previous = ground arith

contains-cons :
    (b : ℕ) (bs : List ℕ) (key : ℕ)
    → (contains (b ∷ bs) key ≡ true) ↔ ((b ≡ key) ⊎ (contains bs key ≡ true))
unfolding contains
contains-cons b bs key = (λ h. ground arith, λ h. ground arith)

-- A key as the loop looks for it: not 0, and not in the previous report.
abbrev pub Fresh : List ℕ → ℕ → Type 0
Fresh previous key = (key ≢ 0) × (contains previous key ≡ false)

no_round :
    (i : ℕ) (buf previous : List ℕ) (key : ℕ)
    → contains (pushed_keys zero i buf previous) key ≡ false
unfolding contains pushed_keys
no_round i buf previous key = refl

pushed_keys_sound :
    (n i : ℕ) (buf previous : List ℕ) (key : ℕ)
    → contains (pushed_keys n i buf previous) key ≡ true
    → Fresh previous key × Reported n i buf key
pushed_keys_sound zero i buf previous key h = absurd (cc (h, no_round i buf previous key))
pushed_keys_sound (suc n) i buf previous key h = elim (pushed_keys_cases n i buf previous) [
  | inl (e, why) ↦
      let (fresh, r) = pushed_keys_sound n (i + 1) buf previous key (rw (← e) h) in
      (fresh, Reported-later n i buf key r)
  | inr (e, ne, new) ↦
      elim ((contains-cons (get_or buf i 0) (pushed_keys n (i + 1) buf previous) key).0
        (rw (← e) h)) [
          | inl here ↦ (rw (← here) (ne, new), Reported-here n i buf key here)
          | inr there ↦
              let (fresh, r) = pushed_keys_sound n (i + 1) buf previous key there in
              (fresh, Reported-later n i buf key r)
        ]
]

pushed_keys_complete :
    (n i : ℕ) (buf previous : List ℕ) (key : ℕ)
    → Fresh previous key
    → Reported n i buf key
    → contains (pushed_keys n i buf previous) key ≡ true
pushed_keys_complete zero i buf previous key fresh (j, lo, hi, e) = absurd (omega arith)
pushed_keys_complete (suc n) i buf previous key (ne, new) r =
    elim (pushed_keys_cases n i buf previous) [
      | inl (e, why) ↦ elim (Reported-cases n i buf key r) [
        | inl here ↦ absurd (ground (arith, here))
        | inr there ↦ rw e (pushed_keys_complete n (i + 1) buf previous key (ne, new) there)
      ]
      | inr (e, ne', new') ↦ rw e (
          (contains-cons (get_or buf i 0) (pushed_keys n (i + 1) buf previous) key).1
            (elim (Reported-cases n i buf key r) [
              | inl here ↦ inl here
              | inr there ↦ inr (pushed_keys_complete n (i + 1) buf previous key (ne, new) there)
            ]))
    ]

-- The loop over the key bytes notifies exactly the keys that are not 0, stand in one of the bytes,
-- and stood nowhere in the previous report, its modifier byte included.
pub contains-pushed_keys :
    (n i : ℕ) (buf previous : List ℕ) (key : ℕ)
    → (contains (pushed_keys n i buf previous) key ≡ true)
      ↔ ((key ≢ 0) × (contains previous key ≡ false) × Reported n i buf key)
contains-pushed_keys n i buf previous key = (
  λ h. let (fresh, r) = pushed_keys_sound n i buf previous key h in (fresh.0, fresh.1, r),
  λ h. pushed_keys_complete n i buf previous key (h.0, h.1) h.2,
)
