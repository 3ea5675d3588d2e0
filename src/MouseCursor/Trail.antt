-- ===== src/MouseCursor/Trail.antt =====
-- What the cursor of kernel/mouse.cpp leaves on the screen.
use mikanos_aarch.Prelude.{
  ℕ, zero, suc, ◌+◌, ◌<◌, ◌≡◌, ◌⊎◌, inl, inr, refl, sym, ap, subst, ◌∙◌, Bool, true, ◌||◌, List, [],
  ◌∷◌, ◌++◌, Option, none, some, ◌==◌, arith, Option-cases, all_below, all_below_sound,
}
use mikanos_aarch.Prelude.Int.{ℤ, int8}
use mikanos_aarch.Graphics.{PixelColor, Vector2D, Drawing, for_range, at, add_vector}
use mikanos_aarch.Graphics.Shows.{painted, painted_append_some, painted_append_none}
use mikanos_aarch.Graphics.Layers.{append_assoc, append-nil}
use mikanos_aarch.MouseCursor.{
  MouseCursor, width, height, shape_at, draw_dot, draw_mouse_cursor, erase_dot, erase_mouse_cursor,
  new_mouse_cursor, move_relative, mouse_observer, mouse_moves,
}

-- A drawing in another colour.
unfoldable pub recolor : PixelColor → Drawing → Drawing
recolor c [] = []
recolor c (w ∷ ws) = at w.x w.y c ∷ recolor c ws

recolor-append :
    (c : PixelColor) (vs ws : Drawing) → recolor c (vs ++ ws) ≡ recolor c vs ++ recolor c ws
unfolding recolor
recolor-append c [] ws = refl
recolor-append c (v ∷ vs) ws = ap (λ (r : Drawing). at v.x v.y c ∷ r) (recolor-append c vs ws)

recolor-for_range :
    (c : PixelColor) (n from : ℕ) (body other : ℕ → Drawing)
    → ((i : ℕ) → i < from + n → recolor c (body i) ≡ other i)
    → recolor c (for_range n from body) ≡ for_range n from other
unfolding for_range recolor
recolor-for_range c zero from body other h = refl
recolor-for_range c (suc n) from body other h =
    recolor-append c (body from) (for_range n (from + 1) body)
    ∙ rw
        (
          h from (omega arith),
          recolor-for_range c n (from + 1) body other (λ i lt. h i (omega arith)),
        )
        refl

-- The shape has three characters.
known : ℕ → ℕ → Bool
known dy dx = shape_at dy dx == 64 || shape_at dy dx == 46 || shape_at dy dx == 32

all_known : all_below height (λ dy. all_below width (known dy)) ≡ true
unfolding all_below shape_at known
all_known = refl

known_at : (dy dx : ℕ) → dy < height → dx < width → known dy dx ≡ true
known_at dy dx hy hx =
    all_below_sound dx width (known dy) hx
      (all_below_sound dy height (λ dy. all_below width (known dy)) hy all_known)

recolor-draw_dot :
    (p : Vector2D) (c : PixelColor) (dy dx : ℕ)
    → dy < height
    → dx < width
    → recolor c (draw_dot p dy dx) ≡ erase_dot p c dy dx
unfolding recolor draw_dot erase_dot known
recolor-draw_dot p c dy dx hy hx = ground (arith, known_at dy dx hy hx)

-- `EraseMouseCursor` makes the writes of `DrawMouseCursor` at the same position, in the same order, in
-- the erasing colour.
pub recolor-draw_mouse_cursor :
    (p : Vector2D) (c : PixelColor) → recolor c (draw_mouse_cursor p) ≡ erase_mouse_cursor p c
unfolding draw_mouse_cursor erase_mouse_cursor
recolor-draw_mouse_cursor p c =
    recolor-for_range c height 0 (λ dy. for_range width 0 λ dx. draw_dot p dy dx)
      (λ dy. for_range width 0 λ dx. erase_dot p c dy dx)
      λ dy hy.
        recolor-for_range c width 0 (λ dx. draw_dot p dy dx) (λ dx. erase_dot p c dy dx)
          λ dx hx. recolor-draw_dot p c dy dx (omega arith) (omega arith)

painted-recolor :
    (c : PixelColor) (ws : Drawing) (x y : ℤ)
    → (painted ws x y ≡ none → painted (recolor c ws) x y ≡ none)
      × ((k : PixelColor) → painted ws x y ≡ some k → painted (recolor c ws) x y ≡ some c)
unfolding recolor painted
painted-recolor c [] x y = ((λ e. refl), λ k e. absurd (cc e))
painted-recolor c (w ∷ ws) x y =
    let (unseen, seen) = painted-recolor c ws x y in
    elim (Option-cases (painted ws x y)) [
      | inl e ↦ ((λ h. ground (arith, e, h, unseen e)), λ k h. ground (arith, e, h, unseen e))
      | inr (k, e) ↦ ((λ h. ground (arith, e, h, seen k e)), λ k' h. ground (arith, e, h, seen k e))
    ]

-- A drawing shows the cursor where it stands, and no other pixel in a colour but the erasing one: at
-- one pixel, and at all.
abbrev pub ShowsCursorAt : MouseCursor → Drawing → ℤ → ℤ → Type 0
ShowsCursorAt cursor ws x y =
    ((k : PixelColor) × (painted (draw_mouse_cursor cursor.position) x y ≡ some k)
      × (painted ws x y ≡ some k))
    ⊎ ((painted (draw_mouse_cursor cursor.position) x y ≡ none)
        × ((painted ws x y ≡ none) ⊎ (painted ws x y ≡ some cursor.erase_color)))

abbrev pub ShowsCursor : MouseCursor → Drawing → Type 0
ShowsCursor cursor ws = (x y : ℤ) → ShowsCursorAt cursor ws x y

pub new_mouse_cursor-ShowsCursor :
    (c : PixelColor) (p : Vector2D)
    → ShowsCursor ((new_mouse_cursor c p).0) ((new_mouse_cursor c p).1)
unfolding new_mouse_cursor
new_mouse_cursor-ShowsCursor c p x y = elim (Option-cases (painted (draw_mouse_cursor p) x y)) [
  | inl e ↦ inr (e, inl e)
  | inr (k, e) ↦ inl (k, e, e)
]

-- The cursor erased at one place and drawn at another.
moved :
    (ws : Drawing) (cursor : MouseCursor) (q : Vector2D)
    → ShowsCursor cursor ws
    → ShowsCursor
        (record cursor { position = q })
        (ws ++ (erase_mouse_cursor cursor.position cursor.erase_color ++ draw_mouse_cursor q))
moved ws cursor q s x y = elim (Option-cases (painted (draw_mouse_cursor q) x y)) [
  | inr (k, e) ↦ inl (
    k,
    e,
    painted_append_some ws (erased ++ drawn) x y k (painted_append_some erased drawn x y k e),
  )
  | inl e ↦ inr (e, kept e (s x y))
]
  where
    drawn : Drawing
    drawn = draw_mouse_cursor q

    erased : Drawing
    erased = erase_mouse_cursor cursor.position cursor.erase_color

    Outcome : Type 0
    Outcome =
        (painted (ws ++ (erased ++ drawn)) x y ≡ none)
        ⊎ (painted (ws ++ (erased ++ drawn)) x y ≡ some cursor.erase_color)

    by_erase :
        painted drawn x y ≡ none
        → {o : Option PixelColor}
        → painted (recolor cursor.erase_color (draw_mouse_cursor cursor.position)) x y ≡ o
        → painted (erased ++ drawn) x y ≡ o
    by_erase e f =
        painted_append_none erased drawn x y e
        ∙ ap (λ (d : Drawing). painted d x y)
            (sym (recolor-draw_mouse_cursor cursor.position cursor.erase_color))
        ∙ f

    kept :
        painted drawn x y ≡ none
        → ((k : PixelColor) × (painted (draw_mouse_cursor cursor.position) x y ≡ some k)
            × (painted ws x y ≡ some k))
          ⊎ ((painted (draw_mouse_cursor cursor.position) x y ≡ none)
              × ((painted ws x y ≡ none) ⊎ (painted ws x y ≡ some cursor.erase_color)))
        → Outcome
    kept e (inl (k, f, _)) = inr (
        painted_append_some ws (erased ++ drawn) x y cursor.erase_color (
          by_erase e
            ((painted-recolor cursor.erase_color (draw_mouse_cursor cursor.position) x y).1 k f)))
    kept e (inr (f, g)) = outside g
      where
        same : painted (ws ++ (erased ++ drawn)) x y ≡ painted ws x y
        same = painted_append_none ws (erased ++ drawn) x y (
            by_erase e
              ((painted-recolor cursor.erase_color (draw_mouse_cursor cursor.position) x y).0 f))

        outside : (painted ws x y ≡ none) ⊎ (painted ws x y ≡ some cursor.erase_color) → Outcome
        outside (inl h) = inl (same ∙ h)
        outside (inr h) = inr (same ∙ h)

one_move :
    (cursor : MouseCursor) (ws : Drawing) (dx dy : ℕ)
    → ShowsCursor cursor ws
    → ShowsCursor ((mouse_observer cursor dx dy).0) (ws ++ (mouse_observer cursor dx dy).1)
unfolding mouse_observer move_relative
one_move cursor ws dx dy s =
    moved ws cursor (add_vector cursor.position (record { x = int8 dx; y = int8 dy })) s

-- The cursor leaves no trail: after any sequence of reports of the mouse, each pixel that the cursor
-- covers where it stands shows the cursor, and every other pixel was not drawn or was erased last,
-- given a screen for which it held before.
pub mouse_moves-ShowsCursor :
    (cursor : MouseCursor) (ws : Drawing) (ds : List (ℕ × ℕ))
    → ShowsCursor cursor ws
    → ShowsCursor ((mouse_moves cursor ds).0) (ws ++ (mouse_moves cursor ds).1)
unfolding mouse_moves
mouse_moves-ShowsCursor cursor ws [] s = rw (append-nil ws) s
mouse_moves-ShowsCursor cursor ws (d ∷ ds) s =
    subst (ShowsCursor ((mouse_moves ((mouse_observer cursor (d.0) (d.1)).0) ds).0))
      (append_assoc ws ((mouse_observer cursor (d.0) (d.1)).1)
        ((mouse_moves ((mouse_observer cursor (d.0) (d.1)).0) ds).1))
      (mouse_moves-ShowsCursor ((mouse_observer cursor (d.0) (d.1)).0)
        (ws ++ (mouse_observer cursor (d.0) (d.1)).1) ds (one_move cursor ws (d.0) (d.1) s))
