-- ===== src/Graphics/Frame.antt =====
-- The rectangles of kernel/graphics.cpp that stay within the frame.
use mikanos_aarch.Prelude.{ℕ, zero, suc, ◌+◌, ◌-◌, ◌≤◌, ◌<◌, refl, [], ◌∷◌, ◌++◌, arith}
use mikanos_aarch.Prelude.Int.{ℤ, pos, pos_part, ◌+ℤ◌}
use mikanos_aarch.FrameBuffer.{FrameBufferConfig}
use mikanos_aarch.Graphics.{
  PixelColor, Vector2D, Drawing, for_range, at, fill_rectangle, draw_rectangle,
}
use mikanos_aarch.Graphics.Rectangle.{In, Inside, In-offset, first-In, last-In, last}
use mikanos_aarch.Graphics.Memory.{InFrame, AllInFrame}

module _ (config : FrameBufferConfig) where
  pub AllInFrame-append :
      (vs ws : Drawing) → AllInFrame config vs → AllInFrame config ws → AllInFrame config (vs ++ ws)
  AllInFrame-append [] ws p q = q
  AllInFrame-append (v ∷ vs) ws (h, p) q = (h, AllInFrame-append vs ws p q)

  AllInFrame-for_range :
      (n from : ℕ) (body : ℕ → Drawing)
      → ((i : ℕ) → i < from + n → AllInFrame config (body i))
      → AllInFrame config (for_range n from body)
  unfolding for_range
  AllInFrame-for_range zero from body h = tt
  AllInFrame-for_range (suc n) from body h =
      AllInFrame-append (body from) (for_range n (from + 1) body) (h from (omega arith))
        (AllInFrame-for_range n (from + 1) body (λ i lt. h i (omega arith)))

  module _ (p size : Vector2D) (within : (x y : ℤ) → Inside p size x y → InFrame config x y) where
    column-In : (dx : ℕ) → dx < pos_part size.x → In p.x size.x (p.x +ℤ pos dx)
    column-In dx h = In-offset p.x size.x (p.x +ℤ pos dx) dx h refl

    row-In : (dy : ℕ) → dy < pos_part size.y → In p.y size.y (p.y +ℤ pos dy)
    row-In dy h = In-offset p.y size.y (p.y +ℤ pos dy) dy h refl

    pub fill_rectangle-AllInFrame : (c : PixelColor) → AllInFrame config (fill_rectangle p size c)
    unfolding fill_rectangle
    fill_rectangle-AllInFrame c =
        AllInFrame-for_range (pos_part size.y) 0
          (λ dy. for_range (pos_part size.x) 0 λ dx. at (p.x +ℤ pos dx) (p.y +ℤ pos dy) c ∷ [])
          λ dy hy.
            AllInFrame-for_range (pos_part size.x) 0
              (λ dx. at (p.x +ℤ pos dx) (p.y +ℤ pos dy) c ∷ [])
              λ dx hx. (
                within (p.x +ℤ pos dx) (p.y +ℤ pos dy)
                    (column-In dx (omega arith), row-In dy (omega arith)),
                tt,
              )

    pub draw_rectangle-AllInFrame :
        (c : PixelColor)
        → 1 ≤ pos_part size.x
        → 1 ≤ pos_part size.y
        → AllInFrame config (draw_rectangle p size c)
    unfolding draw_rectangle
    draw_rectangle-AllInFrame c wide high =
        AllInFrame-append (for_range (pos_part size.x) 0 row)
          (for_range (pos_part size.y - 2) 1 column)
          (AllInFrame-for_range (pos_part size.x) 0 row λ dx hx. (
            within (p.x +ℤ pos dx) p.y (column-In dx (omega arith), first-In p.y size.y high),
            (
              within (p.x +ℤ pos dx) (last p.y size.y)
                  (column-In dx (omega arith), last-In p.y size.y high),
              tt,
            ),
          ))
          (AllInFrame-for_range (pos_part size.y - 2) 1 column λ dy hy. (
            within p.x (p.y +ℤ pos dy) (first-In p.x size.x wide, row-In dy (omega arith)),
            (
              within (last p.x size.x) (p.y +ℤ pos dy)
                  (last-In p.x size.x wide, row-In dy (omega arith)),
              tt,
            ),
          ))
      where
        row : ℕ → Drawing
        row dx = at (p.x +ℤ pos dx) p.y c ∷ at (p.x +ℤ pos dx) (last p.y size.y) c ∷ []

        column : ℕ → Drawing
        column dy = at p.x (p.y +ℤ pos dy) c ∷ at (last p.x size.x) (p.y +ℤ pos dy) c ∷ []
