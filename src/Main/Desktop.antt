-- ===== src/Main/Desktop.antt =====
-- The desktop that `KernelMain` of kernel/main.cpp draws.
use mikanos_aarch.Prelude.{
  ℕ, ◌-◌, ◌/◌, ◌≤◌, ◌<◌, ◌≡◌, ◌⊎◌, inl, inr, refl, sym, ap, subst, ◌∙◌, ◌++◌, Option, none, some,
  arith, dec_lt, Option-cases,
}
use mikanos_aarch.Prelude.Int.{ℤ, pos, negsuc, pos_part, ◌+ℤ◌, ◌≤ℤ◌, ◌<ℤ◌, +ℤ_parts, eq_of_parts}
use mikanos_aarch.FrameBuffer.{FrameBufferConfig}
use mikanos_aarch.Graphics.{
  PixelColor, Vector2D, Drawing, Bytes, fill_rectangle, draw_rectangle, paint,
}
use mikanos_aarch.Graphics.Shows.{painted}
use mikanos_aarch.Graphics.Layers.{drawn_after}
use mikanos_aarch.Graphics.Rectangle.{Inside, OnBorder, fill_rectangle-Shows, draw_rectangle-Shows}
use mikanos_aarch.Graphics.Memory.{InFrame, AllInFrame, Fits, read_pixel, paint_lem}
use mikanos_aarch.Graphics.Frame.{
  AllInFrame-append, fill_rectangle-AllInFrame, draw_rectangle-AllInFrame,
}
use mikanos_aarch.Main.{desktop, desktop_bg_color, bar_color, start_color, icon_color, vector}

module _ (config : FrameBufferConfig) where
  -- The top of the task bar.
  abbrev bar_top : ℤ
  bar_top = pos config.vertical_resolution +ℤ negsuc 49

  abbrev pub InBackground : ℤ → ℤ → Type 0
  InBackground = Inside (vector (pos 0) (pos 0)) (vector (pos config.horizontal_resolution) bar_top)

  abbrev pub InBar : ℤ → ℤ → Type 0
  InBar = Inside (vector (pos 0) bar_top) (vector (pos config.horizontal_resolution) (pos 50))

  abbrev pub InStart : ℤ → ℤ → Type 0
  InStart =
      Inside (vector (pos 0) bar_top) (vector (pos (config.horizontal_resolution / 5)) (pos 50))

  abbrev icon_corner : Vector2D
  icon_corner = vector (pos 10) (pos config.vertical_resolution +ℤ negsuc 39)

  abbrev pub OnIcon : ℤ → ℤ → Type 0
  OnIcon = OnBorder icon_corner (vector (pos 30) (pos 30))

  -- The colour of a pixel, by the topmost of the four shapes that has it.
  abbrev pub Colored : ℤ → ℤ → Option PixelColor → Type 0
  Colored x y color =
      (OnIcon x y × (color ≡ some icon_color))
      ⊎ ((¬ OnIcon x y)
          × ((InStart x y × (color ≡ some start_color))
              ⊎ ((¬ InStart x y)
                  × ((InBar x y × (color ≡ some bar_color))
                      ⊎ ((¬ InBar x y)
                          × ((InBackground x y × (color ≡ some desktop_bg_color))
                              ⊎ ((¬ InBackground x y) × (color ≡ none))))))))

  background : Drawing
  background =
      fill_rectangle (vector (pos 0) (pos 0)) (vector (pos config.horizontal_resolution) bar_top)
        desktop_bg_color

  bar : Drawing
  bar =
      fill_rectangle (vector (pos 0) bar_top) (vector (pos config.horizontal_resolution) (pos 50))
        bar_color

  start : Drawing
  start =
      fill_rectangle (vector (pos 0) bar_top)
        (vector (pos (config.horizontal_resolution / 5)) (pos 50)) start_color

  icon : Drawing
  icon = draw_rectangle icon_corner (vector (pos 30) (pos 30)) icon_color

  desktop_parts : desktop config ≡ background ++ bar ++ start ++ icon
  unfolding desktop background bar start icon
  desktop_parts = refl

  -- The four rectangles of the desktop show, at every pixel and for every resolution, the border of
  -- the icon above the start button above the task bar above the background.
  pub desktop-Colored : (x y : ℤ) → Colored x y (painted (desktop config) x y)
  unfolding background bar start icon
  desktop-Colored x y =
      rw desktop_parts
        (elim (drawn_after (background ++ bar ++ start) icon icon_color OnIcon
          (draw_rectangle-Shows icon_corner (vector (pos 30) (pos 30)) (omega arith) (omega arith)
            icon_color)
          x y) [
            | inl (p, e) ↦ inl (p, e)
            | inr (n, e) ↦ inr (
              n,
              elim (drawn_after (background ++ bar) start start_color InStart
                  (fill_rectangle-Shows (vector (pos 0) bar_top)
                    (vector (pos (config.horizontal_resolution / 5)) (pos 50)) start_color)
                  x y) [
                    | inl (p, f) ↦ inl (p, e ∙ f)
                    | inr (n', f) ↦ inr (
                      n',
                      elim (drawn_after background bar bar_color InBar
                          (fill_rectangle-Shows (vector (pos 0) bar_top)
                            (vector (pos config.horizontal_resolution) (pos 50)) bar_color)
                          x y) [
                            | inl (p, g) ↦ inl (p, e ∙ f ∙ g)
                            | inr (n'', g) ↦ inr (
                              n'',
                              elim (fill_rectangle-Shows (vector (pos 0) (pos 0))
                                  (vector (pos config.horizontal_resolution) bar_top)
                                  desktop_bg_color x y) [
                                    | inl (p, h) ↦ inl (p, e ∙ f ∙ g ∙ h)
                                    | inr (n3, h) ↦ inr (n3, e ∙ f ∙ g ∙ h)
                                  ],
                            )
                          ],
                    )
                  ],
            )
          ])

-- A coordinate within bounds.
natural : (x : ℤ) (bound : ℕ) → pos 0 ≤ℤ x → x <ℤ pos bound → (i : ℕ) × (x ≡ pos i) × (i < bound)
natural x bound lo hi = (pos_part x, eq_of_parts x (pos (pos_part x)) (ground arith), ground arith)

Inside-InFrame :
    (config : FrameBufferConfig) (p size : Vector2D)
    → pos 0 ≤ℤ p.x
    → p.x +ℤ size.x ≤ℤ pos config.pixels_per_scan_line
    → pos 0 ≤ℤ p.y
    → p.y +ℤ size.y ≤ℤ pos config.vertical_resolution
    → (x y : ℤ) → Inside p size x y
    → InFrame config x y
Inside-InFrame config p size hx wx hy wy x y ((lx, ux), (ly, uy)) = (
  natural x config.pixels_per_scan_line (omega (arith, hx, lx)) (omega (arith, wx, ux)),
  natural y config.vertical_resolution (omega (arith, hy, ly)) (omega (arith, wy, uy)),
)

module _ (config : FrameBufferConfig)
    (wide : config.horizontal_resolution ≤ config.pixels_per_scan_line)
    (room : 40 ≤ config.horizontal_resolution) (high : 50 ≤ config.vertical_resolution) where
  desktop-AllInFrame : AllInFrame config (desktop config)
  unfolding background bar start icon
  desktop-AllInFrame = rw (desktop_parts config) (
      AllInFrame-append config (background config ++ bar config ++ start config) (icon config)
        (AllInFrame-append config (background config ++ bar config) (start config)
          (AllInFrame-append config (background config) (bar config)
            (fill_rectangle-AllInFrame config (vector (pos 0) (pos 0))
              (vector (pos config.horizontal_resolution) (bar_top config))
              (Inside-InFrame config (vector (pos 0) (pos 0))
                (vector (pos config.horizontal_resolution) (bar_top config)) (omega arith)
                (omega (arith, +ℤ_parts (pos 0) (pos config.horizontal_resolution))) (omega arith)
                (omega (
                  arith,
                  +ℤ_parts (pos config.vertical_resolution) (negsuc 49),
                  +ℤ_parts (pos 0) (bar_top config),
                )))
              desktop_bg_color)
            (fill_rectangle-AllInFrame config (vector (pos 0) (bar_top config))
              (vector (pos config.horizontal_resolution) (pos 50))
              (Inside-InFrame config (vector (pos 0) (bar_top config))
                (vector (pos config.horizontal_resolution) (pos 50)) (omega arith)
                (omega (arith, +ℤ_parts (pos 0) (pos config.horizontal_resolution)))
                (omega (arith, +ℤ_parts (pos config.vertical_resolution) (negsuc 49)))
                (omega (
                  arith,
                  +ℤ_parts (pos config.vertical_resolution) (negsuc 49),
                  +ℤ_parts (bar_top config) (pos 50),
                )))
              bar_color))
          (fill_rectangle-AllInFrame config (vector (pos 0) (bar_top config))
            (vector (pos (config.horizontal_resolution / 5)) (pos 50))
            (Inside-InFrame config (vector (pos 0) (bar_top config))
              (vector (pos (config.horizontal_resolution / 5)) (pos 50)) (omega arith)
              (omega (arith, +ℤ_parts (pos 0) (pos (config.horizontal_resolution / 5))))
              (omega (arith, +ℤ_parts (pos config.vertical_resolution) (negsuc 49)))
              (omega (
                arith,
                +ℤ_parts (pos config.vertical_resolution) (negsuc 49),
                +ℤ_parts (bar_top config) (pos 50),
              )))
            start_color))
        (draw_rectangle-AllInFrame config (icon_corner config) (vector (pos 30) (pos 30))
          (Inside-InFrame config (icon_corner config) (vector (pos 30) (pos 30)) (omega arith)
            (omega (arith, +ℤ_parts (pos 10) (pos 30)))
            (omega (arith, +ℤ_parts (pos config.vertical_resolution) (negsuc 39)))
            (omega (
              arith,
              +ℤ_parts (pos config.vertical_resolution) (negsuc 39),
              +ℤ_parts (pos config.vertical_resolution +ℤ negsuc 39) (pos 30),
            )))
          icon_color (omega arith) (omega arith)))

  -- A pixel of the picture.
  module _ (i j : ℕ) (hi : i < config.horizontal_resolution)
      (hj : j < config.vertical_resolution) where
    bar_or_background : InBar config (pos i) (pos j) ⊎ InBackground config (pos i) (pos j)
    bar_or_background = elim (dec_lt j (config.vertical_resolution - 50)) [
      | yes lt ↦ inr (
        (omega arith, omega (arith, +ℤ_parts (pos 0) (pos config.horizontal_resolution))),
        (
          omega arith,
          omega (
            arith,
            +ℤ_parts (pos config.vertical_resolution) (negsuc 49),
            +ℤ_parts (pos 0) (bar_top config),
          ),
        ),
      )
      | no ge ↦ inl (
        (omega arith, omega (arith, +ℤ_parts (pos 0) (pos config.horizontal_resolution))),
        (
          omega (arith, +ℤ_parts (pos config.vertical_resolution) (negsuc 49)),
          omega (
            arith,
            +ℤ_parts (pos config.vertical_resolution) (negsuc 49),
            +ℤ_parts (bar_top config) (pos 50),
          ),
        ),
      )
    ]

    drawn : (color : Option PixelColor) → Colored config (pos i) (pos j) color → ¬ (color ≡ none)
    drawn color (inl (_, e)) z = cc (e, z)
    drawn color (inr (_, inl (_, e))) z = cc (e, z)
    drawn color (inr (_, inr (_, inl (_, e)))) z = cc (e, z)
    drawn color (inr (_, inr (_, inr (_, inl (_, e))))) z = cc (e, z)
    drawn color (inr (_, inr (_, inr (nb, inr (ng, _))))) z = outside nb ng bar_or_background
      where
        outside :
            (¬ InBar config (pos i) (pos j))
            → (¬ InBackground config (pos i) (pos j))
            → InBar config (pos i) (pos j) ⊎ InBackground config (pos i) (pos j)
            → ⊥
        outside nb ng (inl b) = nb b
        outside nb ng (inr g) = ng g

    -- After `KernelMain` has drawn the desktop, every pixel of the picture holds in the frame buffer
    -- the colour of the topmost shape that has it, in either pixel format, where the frame fits 32
    -- bits, a scan line is no shorter than the picture is wide, and the picture is at least 40 pixels
    -- wide and 50 high.
    pub desktop-read_pixel :
        (memory : Bytes)
        → Fits config
        → Colored config
            (pos i)
            (pos j)
            (some (read_pixel config (paint config memory (desktop config)) (pos i) (pos j)))
    desktop-read_pixel memory fits =
        elim (Option-cases (painted (desktop config) (pos i) (pos j))) [
          | inl z ↦ absurd (drawn (painted (desktop config) (pos i) (pos j)) colored z)
          | inr (c, e) ↦
              subst (Colored config (pos i) (pos j)) (e ∙ ap some (sym (in_memory c e))) colored
        ]
      where
        colored : Colored config (pos i) (pos j) (painted (desktop config) (pos i) (pos j))
        colored = desktop-Colored config (pos i) (pos j)

        in_memory :
            (c : PixelColor)
            → painted (desktop config) (pos i) (pos j) ≡ some c
            → read_pixel config (paint config memory (desktop config)) (pos i) (pos j) ≡ c
        in_memory c e =
            (paint_lem config fits memory (desktop config) (pos i) (pos j) desktop-AllInFrame
                ((i, refl, omega arith), (j, refl, hj))).0
              c e
