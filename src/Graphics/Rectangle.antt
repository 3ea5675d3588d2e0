-- ===== src/Graphics/Rectangle.antt =====
-- The rectangles of kernel/graphics.cpp.
use mikanos_aarch.Prelude.{
  ℕ, ◌+◌, ◌-◌, ◌≤◌, ◌<◌, ◌≡◌, ◌⊎◌, inl, inr, ◌∙◌, [], ◌∷◌, arith, ℕ_discrete,
}
use mikanos_aarch.Prelude.Int.{
  ℤ, pos, negsuc, pos_part, neg_part, ◌+ℤ◌, ◌≤ℤ◌, ◌<ℤ◌, +ℤ_parts, eq_of_parts,
}
use mikanos_aarch.Graphics.{
  PixelColor, Vector2D, Drawing, for_range, at, fill_rectangle, draw_rectangle,
}
use mikanos_aarch.Graphics.Shows.{
  Shows, Some, Shows-region, Shows-append, Shows-one, Shows-for_range,
}

-- `n` coordinates from `a` on.
abbrev pub In : ℤ → ℤ → ℤ → Type 0
In a n x = (a ≤ℤ x) × (x <ℤ a +ℤ n)

abbrev pub Inside : Vector2D → Vector2D → ℤ → ℤ → Type 0
Inside p size x y = In p.x size.x x × In p.y size.y y

pub In-offset : (a n x : ℤ) (i : ℕ) → i < pos_part n → x ≡ a +ℤ pos i → In a n x
In-offset a n x i h e = rw e (ground (arith, +ℤ_parts a (pos i), +ℤ_parts a n))

offset-In : (a n x : ℤ) → In a n x → (i : ℕ) × (i < pos_part n) × (x ≡ a +ℤ pos i)
offset-In a n x (lo, hi) = (
  i,
  ground (arith, +ℤ_parts a n),
  eq_of_parts x (a +ℤ pos i) (ground (arith, +ℤ_parts a (pos i))),
)
  where
    i : ℕ
    i = pos_part x + neg_part a - (neg_part x + pos_part a)

-- The pixel that a round of the loops writes.
abbrev Is : ℤ → ℤ → ℤ → ℤ → Type 0
Is a b x y = (x ≡ a) × (y ≡ b)

-- `FillRectangle` writes the colour to every pixel of the rectangle, and to no other: it agrees with
-- the two comparisons on each axis, for a width or height that is zero or negative too.
pub fill_rectangle-Shows :
    (p size : Vector2D) (c : PixelColor) → Shows (fill_rectangle p size c) c (Inside p size)
unfolding fill_rectangle
fill_rectangle-Shows p size c =
    Shows-region (fill_rectangle p size c) c Written (Inside p size) to from (
      Shows-for_range (pos_part size.y) 0 row c (λ dy. Some (pos_part size.x) 0 (λ dx. pixel dx dy))
        λ dy.
          Shows-for_range (pos_part size.x) 0 (λ dx. at (p.x +ℤ pos dx) (p.y +ℤ pos dy) c ∷ []) c
            (λ dx. pixel dx dy) λ dx. Shows-one (p.x +ℤ pos dx) (p.y +ℤ pos dy) c)
  where
    row : ℕ → Drawing
    row dy = for_range (pos_part size.x) 0 λ dx. at (p.x +ℤ pos dx) (p.y +ℤ pos dy) c ∷ []

    pixel : ℕ → ℕ → ℤ → ℤ → Type 0
    pixel dx dy = Is (p.x +ℤ pos dx) (p.y +ℤ pos dy)

    Written : ℤ → ℤ → Type 0
    Written = Some (pos_part size.y) 0 (λ dy. Some (pos_part size.x) 0 (λ dx. pixel dx dy))

    to : (x y : ℤ) → Written x y → Inside p size x y
    to x y (dy, _, hy, (dx, _, hx, (ex, ey))) =
        (In-offset p.x size.x x dx (omega arith) ex, In-offset p.y size.y y dy (omega arith) ey)

    from : (x y : ℤ) → Inside p size x y → Written x y
    from x y (ix, iy) =
        let (dx, hx, ex) = offset-In p.x size.x x ix in
        let (dy, hy, ey) = offset-In p.y size.y y iy in
        (dy, omega arith, omega arith, (dx, omega arith, omega arith, (ex, ey)))

-- The last of `n` coordinates from `a` on.
abbrev pub last : ℤ → ℤ → ℤ
last a n = a +ℤ n +ℤ negsuc 0

-- The pixels of the rectangle in its first or last column, or its first or last row.
abbrev pub OnBorder : Vector2D → Vector2D → ℤ → ℤ → Type 0
OnBorder p size x y =
    Inside p size x y × ((x ≡ p.x) ⊎ (x ≡ last p.x size.x) ⊎ (y ≡ p.y) ⊎ (y ≡ last p.y size.y))

pub first-In : (a n : ℤ) → 1 ≤ pos_part n → In a n a
first-In a n h = ground (arith, +ℤ_parts a n)

pub last-In : (a n : ℤ) → 1 ≤ pos_part n → In a n (last a n)
last-In a n h = ground (arith, +ℤ_parts a n, +ℤ_parts (a +ℤ n) (negsuc 0))

offset_zero : (a x : ℤ) (i : ℕ) → i ≡ 0 → x ≡ a +ℤ pos i → x ≡ a
offset_zero a x i z e = e ∙ eq_of_parts (a +ℤ pos i) a (omega (arith, +ℤ_parts a (pos i)))

offset_last : (a n x : ℤ) (i : ℕ) → i + 1 ≡ pos_part n → x ≡ a +ℤ pos i → x ≡ last a n
offset_last a n x i z e =
    e
    ∙ eq_of_parts (a +ℤ pos i) (last a n)
        (ground (arith, +ℤ_parts a (pos i), +ℤ_parts a n, +ℤ_parts (a +ℤ n) (negsuc 0)))

Shows-two :
    (a b a' b' : ℤ) (c : PixelColor)
    → Shows (at a b c ∷ at a' b' c ∷ []) c (λ x y. Is a b x y ⊎ Is a' b' x y)
Shows-two a b a' b' c =
    Shows-append (at a b c ∷ []) (at a' b' c ∷ []) c (Is a b) (Is a' b') (Shows-one a b c)
      (Shows-one a' b' c)

module _ (p size : Vector2D) (wide : 1 ≤ pos_part size.x) (high : 1 ≤ pos_part size.y) where
  abbrev Rows : ℤ → ℤ → Type 0
  Rows =
      Some (pos_part size.x) 0
        (λ dx x y. Is (p.x +ℤ pos dx) p.y x y ⊎ Is (p.x +ℤ pos dx) (last p.y size.y) x y)

  abbrev Columns : ℤ → ℤ → Type 0
  Columns =
      Some (pos_part size.y - 2) 1
        (λ dy x y. Is p.x (p.y +ℤ pos dy) x y ⊎ Is (last p.x size.x) (p.y +ℤ pos dy) x y)

  Rows-OnBorder : (x y : ℤ) → Rows x y → OnBorder p size x y
  Rows-OnBorder x y (dx, _, hx, inl (ex, ey)) = (
    (In-offset p.x size.x x dx (omega arith) ex, rw ey (first-In p.y size.y high)),
    inr (inr (inl ey)),
  )
  Rows-OnBorder x y (dx, _, hx, inr (ex, ey)) = (
    (In-offset p.x size.x x dx (omega arith) ex, rw ey (last-In p.y size.y high)),
    inr (inr (inr ey)),
  )

  Columns-OnBorder : (x y : ℤ) → Columns x y → OnBorder p size x y
  Columns-OnBorder x y (dy, _, hy, inl (ex, ey)) =
      ((rw ex (first-In p.x size.x wide), In-offset p.y size.y y dy (omega arith) ey), inl ex)
  Columns-OnBorder x y (dy, _, hy, inr (ex, ey)) =
      ((rw ex (last-In p.x size.x wide), In-offset p.y size.y y dy (omega arith) ey), inr (inl ex))

  row_side : (x y : ℤ) → In p.x size.x x → (y ≡ p.y) ⊎ (y ≡ last p.y size.y) → Rows x y
  row_side x y ix side =
      let (dx, hx, ex) = offset-In p.x size.x x ix in
      (dx, omega arith, omega arith, placed dx ex side)
    where
      placed :
          (dx : ℕ)
          → x ≡ p.x +ℤ pos dx
          → (y ≡ p.y) ⊎ (y ≡ last p.y size.y)
          → Is (p.x +ℤ pos dx) p.y x y ⊎ Is (p.x +ℤ pos dx) (last p.y size.y) x y
      placed dx ex (inl e) = inl (ex, e)
      placed dx ex (inr e) = inr (ex, e)

  column_side :
      (x y : ℤ) → Inside p size x y → (x ≡ p.x) ⊎ (x ≡ last p.x size.x) → Rows x y ⊎ Columns x y
  column_side x y (ix, iy) side =
      let (dy, hy, ey) = offset-In p.y size.y y iy in
      elim (ℕ_discrete dy 0) [
        | yes z ↦ inl (row_side x y ix (inl (offset_zero p.y y dy z ey)))
        | no nz ↦ elim (ℕ_discrete (dy + 1) (pos_part size.y)) [
          | yes z ↦ inl (row_side x y ix (inr (offset_last p.y size.y y dy z ey)))
          | no nl ↦ inr (dy, omega arith, omega arith, placed dy ey side)
        ]
      ]
    where
      placed :
          (dy : ℕ)
          → y ≡ p.y +ℤ pos dy
          → (x ≡ p.x) ⊎ (x ≡ last p.x size.x)
          → Is p.x (p.y +ℤ pos dy) x y ⊎ Is (last p.x size.x) (p.y +ℤ pos dy) x y
      placed dy ey (inl e) = inl (e, ey)
      placed dy ey (inr e) = inr (e, ey)

  OnBorder-cases : (x y : ℤ) → OnBorder p size x y → Rows x y ⊎ Columns x y
  OnBorder-cases x y (i, inl e) = column_side x y i (inl e)
  OnBorder-cases x y (i, inr (inl e)) = column_side x y i (inr e)
  OnBorder-cases x y (i, inr (inr side)) = inl (row_side x y (i.0) side)

  border_of : (x y : ℤ) → Rows x y ⊎ Columns x y → OnBorder p size x y
  border_of x y (inl r) = Rows-OnBorder x y r
  border_of x y (inr k) = Columns-OnBorder x y k

  -- `DrawRectangle` writes the colour to the border of the rectangle, and to no other pixel, where
  -- width and height are at least 1.
  pub draw_rectangle-Shows : (c : PixelColor) → Shows (draw_rectangle p size c) c (OnBorder p size)
  unfolding draw_rectangle
  draw_rectangle-Shows c =
      Shows-region (draw_rectangle p size c) c (λ x y. Rows x y ⊎ Columns x y) (OnBorder p size)
        border_of OnBorder-cases
        (Shows-append (for_range (pos_part size.x) 0 row) (for_range (pos_part size.y - 2) 1 column)
          c Rows Columns
          (Shows-for_range (pos_part size.x) 0 row c
            (λ dx x y. Is (p.x +ℤ pos dx) p.y x y ⊎ Is (p.x +ℤ pos dx) (last p.y size.y) x y)
            λ dx. Shows-two (p.x +ℤ pos dx) p.y (p.x +ℤ pos dx) (last p.y size.y) c)
          (Shows-for_range (pos_part size.y - 2) 1 column c
            (λ dy x y. Is p.x (p.y +ℤ pos dy) x y ⊎ Is (last p.x size.x) (p.y +ℤ pos dy) x y)
            λ dy. Shows-two p.x (p.y +ℤ pos dy) (last p.x size.x) (p.y +ℤ pos dy) c))
    where
      row : ℕ → Drawing
      row dx = at (p.x +ℤ pos dx) p.y c ∷ at (p.x +ℤ pos dx) (last p.y size.y) c ∷ []

      column : ℕ → Drawing
      column dy = at p.x (p.y +ℤ pos dy) c ∷ at (last p.x size.x) (p.y +ℤ pos dy) c ∷ []
