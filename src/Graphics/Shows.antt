-- ===== src/Graphics/Shows.antt =====
-- What a drawing of kernel/graphics.cpp shows: the colour last written to a pixel, as a reference for
-- the loops that draw.
use mikanos_aarch.Prelude.{
  ℕ, zero, suc, ◌+◌, ◌≤◌, ◌<◌, ◌≡◌, ◌↔◌, ◌⊎◌, inl, inr, refl, sym, subst, ◌∙◌, Bool, true, ◌&&◌, [],
  ◌∷◌, ◌++◌, Option, none, some, ◌==◌, if◌then◌else◌, arith, Bool-cases, Option-cases, ℕ_discrete,
}
use mikanos_aarch.Prelude.Int.{ℤ, pos_part, neg_part}
use mikanos_aarch.Graphics.{PixelColor, Write, Drawing, for_range, at}

-- Equality of integers as a test.
abbrev pub eqℤ : ℤ → ℤ → Bool
eqℤ a b = pos_part a == pos_part b && neg_part a == neg_part b

eqℤ_iff : (a b : ℤ) → (eqℤ a b ≡ true) ↔ (a ≡ b)
eqℤ_iff a b = ground arith

-- The colour that a drawing leaves at a pixel; none where it writes nothing.
unfoldable pub painted : Drawing → ℤ → ℤ → Option PixelColor
painted [] x y = none
painted (w ∷ ws) x y = elim (painted ws x y) [
  | some c ↦ some c
  | none ↦ if eqℤ w.x x && eqℤ w.y y then some w.color else none
]

-- A drawing leaves one colour in a region, and writes nothing else: at one pixel, and at all.
abbrev pub ShowsAt : Drawing → PixelColor → (ℤ → ℤ → Type 0) → ℤ → ℤ → Type 0
ShowsAt ws c P x y = (P x y × (painted ws x y ≡ some c)) ⊎ ((¬ P x y) × (painted ws x y ≡ none))

abbrev pub Shows : Drawing → PixelColor → (ℤ → ℤ → Type 0) → Type 0
Shows ws c P = (x y : ℤ) → ShowsAt ws c P x y

painted_cons_some :
    (w : Write) (ws : Drawing) (x y : ℤ) (c : PixelColor)
    → painted ws x y ≡ some c
    → painted (w ∷ ws) x y ≡ some c
unfolding painted
painted_cons_some w ws x y c e = ground (arith, e)

painted_cons_none :
    (w : Write) (ws : Drawing) (x y : ℤ)
    → painted ws x y ≡ none
    → painted (w ∷ ws) x y ≡ painted (w ∷ []) x y
unfolding painted
painted_cons_none w ws x y e = ground (arith, e)

-- The last write decides, and otherwise the first one where it writes the pixel.
pub painted_cases :
    (w : Write) (ws : Drawing) (x y : ℤ)
    → ((c : PixelColor) × (painted ws x y ≡ some c) × (painted (w ∷ ws) x y ≡ some c))
      ⊎ ((painted ws x y ≡ none)
          × (painted (w ∷ ws) x y ≡ (if eqℤ w.x x && eqℤ w.y y then some w.color else none)))
unfolding painted
painted_cases w ws x y = elim (Option-cases (painted ws x y)) [
  | inl e ↦ inr (e, ground (arith, e))
  | inr (c, e) ↦ inl (c, e, ground (arith, e))
]

pub painted_append_some :
    (vs ws : Drawing) (x y : ℤ) (c : PixelColor)
    → painted ws x y ≡ some c
    → painted (vs ++ ws) x y ≡ some c
painted_append_some [] ws x y c e = e
painted_append_some (v ∷ vs) ws x y c e =
    painted_cons_some v (vs ++ ws) x y c (painted_append_some vs ws x y c e)

painted_cong :
    (w : Write) (vs ws : Drawing) (x y : ℤ)
    → painted vs x y ≡ painted ws x y
    → painted (w ∷ vs) x y ≡ painted (w ∷ ws) x y
unfolding painted
painted_cong w vs ws x y e = ground (arith, e)

pub painted_append_none :
    (vs ws : Drawing) (x y : ℤ) → painted ws x y ≡ none → painted (vs ++ ws) x y ≡ painted vs x y
unfolding painted
painted_append_none [] ws x y e = e
painted_append_none (v ∷ vs) ws x y e =
    painted_cong v (vs ++ ws) vs x y (painted_append_none vs ws x y e)

-- Regions of the same pixels.
pub Shows-region :
    (ws : Drawing) (c : PixelColor) (P Q : ℤ → ℤ → Type 0)
    → ((x y : ℤ) → P x y → Q x y)
    → ((x y : ℤ) → Q x y → P x y)
    → Shows ws c P
    → Shows ws c Q
Shows-region ws c P Q to from s x y = elim (s x y) [
  | inl (p, e) ↦ inl (to x y p, e)
  | inr (n, e) ↦ inr ((λ q. n (from x y q)), e)
]

pub Shows-append :
    (vs ws : Drawing) (c : PixelColor) (P Q : ℤ → ℤ → Type 0)
    → Shows vs c P
    → Shows ws c Q
    → Shows (vs ++ ws) c (λ x y. P x y ⊎ Q x y)
Shows-append vs ws c P Q s t x y = elim (t x y) [
  | inl (q, e) ↦ inl (inr q, painted_append_some vs ws x y c e)
  | inr (nq, e) ↦ elim (s x y) [
    | inl (p, f) ↦ inl (inl p, painted_append_none vs ws x y e ∙ f)
    | inr (np, f) ↦ inr (neither np nq, painted_append_none vs ws x y e ∙ f)
  ]
]
  where
    neither : (¬ P x y) → (¬ Q x y) → ¬ (P x y ⊎ Q x y)
    neither np nq (inl p) = np p
    neither np nq (inr q) = nq q

pub Shows-nil : (c : PixelColor) (P : ℤ → ℤ → Type 0) → ((x y : ℤ) → ¬ P x y) → Shows [] c P
unfolding painted
Shows-nil c P n x y = inr (n x y, refl)

pub Shows-one : (a b : ℤ) (c : PixelColor) → Shows (at a b c ∷ []) c (λ x y. (x ≡ a) × (y ≡ b))
unfolding painted
Shows-one a b c x y = elim (Bool-cases (eqℤ a x && eqℤ b y)) [
  | inl t ↦ inl (here t, rw t refl)
  | inr f ↦ inr ((λ (e, e'). cc (f, same e e')), rw f refl)
]
  where
    here : (eqℤ a x && eqℤ b y) ≡ true → (x ≡ a) × (y ≡ b)
    here t = (sym ((eqℤ_iff a x).0 (ground (arith, t))), sym ((eqℤ_iff b y).0 (ground (arith, t))))

    same : x ≡ a → y ≡ b → (eqℤ a x && eqℤ b y) ≡ true
    same e e' = ground (arith, (eqℤ_iff a x).1 (sym e), (eqℤ_iff b y).1 (sym e'))

-- What one round of a loop shows, for some round.
abbrev pub Some : ℕ → ℕ → (ℕ → ℤ → ℤ → Type 0) → ℤ → ℤ → Type 0
Some n from P x y = (i : ℕ) × (from ≤ i) × (i < from + n) × P i x y

pub Shows-for_range :
    (n from : ℕ) (body : ℕ → Drawing) (c : PixelColor) (P : ℕ → ℤ → ℤ → Type 0)
    → ((i : ℕ) → Shows (body i) c (P i))
    → Shows (for_range n from body) c (Some n from P)
unfolding for_range painted
Shows-for_range zero from body c P s = λ x y. inr ((λ (i, lo, hi, _). absurd (omega arith)), refl)
Shows-for_range (suc n) from body c P s =
    Shows-region (body from ++ for_range n (from + 1) body) c
      (λ x y. P from x y ⊎ Some n (from + 1) P x y) (Some (suc n) from P) first later
      (Shows-append (body from) (for_range n (from + 1) body) c (P from) (Some n (from + 1) P)
        (s from) (Shows-for_range n (from + 1) body c P s))
  where
    first : (x y : ℤ) → P from x y ⊎ Some n (from + 1) P x y → Some (suc n) from P x y
    first x y (inl p) = (from, omega arith, omega arith, p)
    first x y (inr (i, lo, hi, p)) = (i, omega arith, omega arith, p)

    later : (x y : ℤ) → Some (suc n) from P x y → P from x y ⊎ Some n (from + 1) P x y
    later x y (i, lo, hi, p) = elim (ℕ_discrete from i) [
      | yes e ↦ inl (subst (λ (j : ℕ). P j x y) (sym e) p)
      | no ne ↦ inr (i, omega arith, omega arith, p)
    ]
