-- ===== src/Xhci/Msb.antt =====
-- `MostSignificantBit` of kernel/usb/xhci/xhci.cpp, whose loop stands in for the `bsr` instruction.
use mikanos_aarch.Prelude.{
  ℕ, zero, suc, ◌+◌, ◌-◌, ◌*◌, ◌/◌, ◌%◌, ◌^◌, ◌≤◌, ◌<◌, ◌≡◌, ◌↔◌, refl, sym, ap, ◌∙◌, inl, inr, ◌⊎◌,
  bit_and, bit_and-ones, arith, dec_lt, pow_pos,
}
use native.Mathlib.Nat.{pow-suc}
use mikanos_aarch.Prelude.Int.{pos, negsuc, pos_part}
use mikanos_aarch.Xhci.Contexts.{msb_loop, most_significant_bit}

pow_double : (n : ℕ) → 2 ^ (n + 1) ≡ 2 ^ n * 2
pow_double n = (let e : n + 1 ≡ suc n = omega arith in rw e (pow-suc 2 n))

pow_mono : (d n : ℕ) → 2 ^ n ≤ 2 ^ (n + d)
pow_mono zero n = (let e : n + 0 ≡ n = omega arith in rw e (omega arith))
pow_mono (suc d) n =
    let e : n + suc d ≡ n + d + 1 = omega arith in
    rw e (omega (arith, pow_mono d n, pow_double (n + d)))

-- The bit `n` is the highest that is set.
abbrev pub IsTopBit : ℕ → ℕ → Type 0
IsTopBit v n = (2 ^ n ≤ v) × (v < 2 ^ (n + 1))

IsTopBit-unique : (v m n : ℕ) → IsTopBit v m → IsTopBit v n → m ≤ n
IsTopBit-unique v m n a b = elim (dec_lt n m) [
  | no h ↦ omega arith
  | yes h ↦ absurd (omega (arith, lifted, a.0, b.1))
]
  where
    lifted : n + 1 ≤ m → 2 ^ (n + 1) ≤ 2 ^ m
    lifted h =
        let e : n + 1 + (m - (n + 1)) ≡ m = omega arith in rw (← e) (pow_mono (m - (n + 1)) (n + 1))

one_digit : (v : ℕ) → bit_and v 1 ≡ v % 2
one_digit v = bit_and-ones 1 v

-- One round of the loop.
msb_loop_cases :
    (rounds i v msb : ℕ)
    → ((v % 2 ≡ 0) × (msb_loop (suc rounds) i v msb ≡ msb_loop rounds (i + 1) (v / 2) msb))
      ⊎ ((v % 2 ≡ 1) × (msb_loop (suc rounds) i v msb ≡ msb_loop rounds (i + 1) (v / 2) i))
unfolding msb_loop
msb_loop_cases rounds i v msb = ground (arith, one_digit v)

msb_loop_zero : (rounds i msb : ℕ) → msb_loop rounds i 0 msb ≡ msb
unfolding msb_loop
msb_loop_zero zero i msb = refl
msb_loop_zero (suc rounds) i msb = msb_loop_zero rounds (i + 1) msb

halved : (v n : ℕ) → 0 < v / 2 → IsTopBit (v / 2) n → IsTopBit v (n + 1)
halved v n h (lo, hi) =
    (omega (arith, pow_double n), omega (arith, pow_double (n + 1), pow_double n))

msb_loop-IsTopBit :
    (rounds i v msb : ℕ)
    → 0 < v
    → v < 2 ^ rounds
    → (n : ℕ) × (msb_loop rounds i v msb ≡ i + n) × IsTopBit v n
msb_loop-IsTopBit zero i v msb lo hi = absurd (omega arith)
msb_loop-IsTopBit (suc rounds) i v msb lo hi = elim (dec_lt 0 (v / 2)) [
  | yes h ↦
      let half : v / 2 < 2 ^ rounds = omega (arith, pow_double rounds, pow-suc 2 rounds) in
      elim (msb_loop_cases rounds i v msb) [
        | inl (_, e) ↦ raised h msb e (msb_loop-IsTopBit rounds (i + 1) (v / 2) msb h half)
        | inr (_, e) ↦ raised h i e (msb_loop-IsTopBit rounds (i + 1) (v / 2) i h half)
      ]
  | no h ↦ elim (msb_loop_cases rounds i v msb) [
    | inl (even, e) ↦ absurd (omega arith)
    | inr (odd, e) ↦ (
      0,
      e
          ∙ ap (λ (x : ℕ). msb_loop rounds (i + 1) x i) (omega arith)
          ∙ msb_loop_zero rounds (i + 1) i
          ∙ omega arith,
      (omega arith, omega arith),
    )
  ]
]
  where
    raised :
        0 < v / 2
        → (m : ℕ) → msb_loop (suc rounds) i v msb ≡ msb_loop rounds (i + 1) (v / 2) m
        → (n : ℕ) × (msb_loop rounds (i + 1) (v / 2) m ≡ i + 1 + n) × IsTopBit (v / 2) n
        → (n : ℕ) × (msb_loop (suc rounds) i v msb ≡ i + n) × IsTopBit v n
    raised h m e (n, en, top) = (n + 1, e ∙ en ∙ omega arith, halved v n h top)

most_significant_bit_cases :
    (v : ℕ)
    → ((v ≡ 0) × (most_significant_bit v ≡ negsuc 0))
      ⊎ ((0 < v) × (most_significant_bit v ≡ pos (msb_loop 32 0 v 0)))
unfolding most_significant_bit
most_significant_bit_cases v = ground arith

-- For a 32-bit value `MostSignificantBit` is -1 at 0, and otherwise the number n with
-- 2 ^ n <= value < 2 ^ (n + 1), and no other: its loop over the 32 bits agrees with the definition
-- of the base-2 logarithm rounded down.
pub most_significant_bit_lem :
    (v : ℕ)
    → v < 2 ^ 32
    → ((most_significant_bit v ≡ negsuc 0) ↔ (v ≡ 0))
      × ((n : ℕ) → (most_significant_bit v ≡ pos n) ↔ IsTopBit v n)
most_significant_bit_lem v hi = elim (most_significant_bit_cases v) [
  | inl (z, e) ↦ (
    (λ _. z, λ _. e),
    λ n. (λ h. absurd (cc (e, h)), λ (lo, _). absurd (omega (arith, pow_pos n))),
  )
  | inr (lo, e) ↦
      let (m, em, top) = msb_loop-IsTopBit 32 0 v 0 lo hi in
      (
        (λ h. absurd (cc (e, h)), λ h. absurd (omega arith)),
        λ n. (
          λ h. let same : m ≡ n = omega (arith, em, ap pos_part (sym e ∙ h)) in rw (← same) top,
          λ b.
              e
              ∙ ap pos
                  (em ∙ omega (arith, IsTopBit-unique v m n top b, IsTopBit-unique v n m b top)),
        ),
      )
]
