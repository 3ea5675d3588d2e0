-- ===== src/Graphics/Layers.antt =====
-- Drawings of kernel/graphics.cpp in two colours, one upon another.
use mikanos_aarch.Prelude.{◌≡◌, ◌⊎◌, inl, inr, refl, ap, ◌∙◌, [], ◌∷◌, ◌++◌, none, some}
use mikanos_aarch.Prelude.Int.{ℤ}
use mikanos_aarch.Graphics.{PixelColor, Drawing}
use mikanos_aarch.Graphics.Shows.{painted, painted_append_some, painted_append_none, Shows}

-- A drawing has left a region on the screen in one colour, and no other pixel in a colour but that of
-- the background: at one pixel, and at all.
abbrev pub ShowsOnAt : PixelColor → PixelColor → (ℤ → ℤ → Type 0) → Drawing → ℤ → ℤ → Type 0
ShowsOnAt fg bg P ws a b =
    (P a b × (painted ws a b ≡ some fg))
    ⊎ ((¬ P a b) × ((painted ws a b ≡ none) ⊎ (painted ws a b ≡ some bg)))

abbrev pub ShowsOn : PixelColor → PixelColor → (ℤ → ℤ → Type 0) → Drawing → Type 0
ShowsOn fg bg P ws = (a b : ℤ) → ShowsOnAt fg bg P ws a b

-- A further drawing in one colour.
pub drawn_after :
    (ws more : Drawing) (c : PixelColor) (P : ℤ → ℤ → Type 0)
    → Shows more c P
    → (a b : ℤ)
    → (P a b × (painted (ws ++ more) a b ≡ some c))
      ⊎ ((¬ P a b) × (painted (ws ++ more) a b ≡ painted ws a b))
drawn_after ws more c P s a b = elim (s a b) [
  | inl (p, e) ↦ inl (p, painted_append_some ws more a b c e)
  | inr (n, e) ↦ inr (n, painted_append_none ws more a b e)
]

module _ (ws : Drawing) (fg bg : PixelColor) (P Q : ℤ → ℤ → Type 0) (s : ShowsOn fg bg P ws) where
  -- More of the region.
  pub drawn_more :
      (more : Drawing) (R : ℤ → ℤ → Type 0)
      → Shows more fg R
      → ((a b : ℤ) → P a b ⊎ R a b → Q a b)
      → ((a b : ℤ) → Q a b → P a b ⊎ R a b)
      → ShowsOn fg bg Q (ws ++ more)
  drawn_more more R t to from a b = elim (drawn_after ws more fg R t a b) [
    | inl (r, e) ↦ inl (to a b (inr r), e)
    | inr (n, e) ↦ elim (s a b) [
      | inl (p, f) ↦ inl (to a b (inl p), e ∙ f)
      | inr (m, inl f) ↦ inr ((λ q. neither m n (from a b q)), inl (e ∙ f))
      | inr (m, inr f) ↦ inr ((λ q. neither m n (from a b q)), inr (e ∙ f))
    ]
  ]
    where
      neither : (¬ P a b) → (¬ R a b) → ¬ (P a b ⊎ R a b)
      neither m n (inl p) = m p
      neither m n (inr r) = n r

  -- Another region, after the old one is cleared.
  pub redrawn :
      (clear text : Drawing) (S : ℤ → ℤ → Type 0)
      → Shows clear bg S
      → Shows text fg Q
      → ((a b : ℤ) → P a b → S a b)
      → ShowsOn fg bg Q (ws ++ (clear ++ text))
  redrawn clear text S c t inside a b = elim (drawn_after clear text fg Q t a b) [
    | inl (q, e) ↦ inl (q, painted_append_some ws (clear ++ text) a b fg e)
    | inr (n, e) ↦ elim (c a b) [
      | inl (_, f) ↦ inr (n, inr (painted_append_some ws (clear ++ text) a b bg (e ∙ f)))
      | inr (m, f) ↦ inr (n, outside m (painted_append_none ws (clear ++ text) a b (e ∙ f)))
    ]
  ]
    where
      outside :
          (¬ S a b)
          → painted (ws ++ (clear ++ text)) a b ≡ painted ws a b
          → (painted (ws ++ (clear ++ text)) a b ≡ none)
            ⊎ (painted (ws ++ (clear ++ text)) a b ≡ some bg)
      outside m e = elim (s a b) [
        | inl (p, _) ↦ absurd (m (inside a b p))
        | inr (_, inl f) ↦ inl (e ∙ f)
        | inr (_, inr f) ↦ inr (e ∙ f)
      ]

pub append-nil : (xs : Drawing) → xs ++ [] ≡ xs
append-nil [] = refl
append-nil (x ∷ xs) = ap (λ ys. x ∷ ys) (append-nil xs)

pub append_assoc : (xs ys zs : Drawing) → xs ++ ys ++ zs ≡ xs ++ (ys ++ zs)
append_assoc [] ys zs = refl
append_assoc (x ∷ xs) ys zs = ap (λ ws. x ∷ ws) (append_assoc xs ys zs)
