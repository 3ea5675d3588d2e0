-- ===== src/Graphics/Memory.antt =====
-- The bytes of the frame buffer after a drawing of kernel/graphics.cpp.
use mikanos_aarch.Prelude.{
  ℕ, ◌+◌, ◌*◌, ◌%◌, ◌^◌, ◌≤◌, ◌<◌, ◌≡◌, ◌≢◌, ◌⊎◌, inl, inr, refl, ap, ◌∙◌, Bool, true, false, ◌&&◌,
  [], ◌∷◌, Option, none, some, if◌then◌else◌, arith, Option-cases, dec_lt, ℕ_discrete,
}
use mikanos_aarch.Prelude.Int.{ℤ, pos}
use mikanos_aarch.FrameBuffer.{
  FrameBufferConfig, PixelFormat, rgb_resv8_bit_per_color, bgr_resv8_bit_per_color,
}
use mikanos_aarch.Graphics.{PixelColor, Write, Drawing, Bytes, pixel_at, poke, write, paint}
use mikanos_aarch.Graphics.Shows.{painted, eqℤ, painted_cases}

-- The colour that the three bytes of a pixel show, by the format.
unfoldable pub color_of : PixelFormat → Bytes → ℕ → PixelColor
color_of format memory p = elim format [
  | rgb_resv8_bit_per_color ↦ record { r = memory p; g = memory (p + 1); b = memory (p + 2) }
  | bgr_resv8_bit_per_color ↦ record { r = memory (p + 2); g = memory (p + 1); b = memory p }
]

unfoldable pub read_pixel : FrameBufferConfig → Bytes → ℤ → ℤ → PixelColor
unfolding color_of
read_pixel config memory x y = color_of config.pixel_format memory (pixel_at config x y)

-- A pixel that the display shows; a scan line is as long as the picture is wide, or longer.
abbrev pub InFrame : FrameBufferConfig → ℤ → ℤ → Type 0
InFrame config x y =
    ((i : ℕ) × (x ≡ pos i) × (i < config.pixels_per_scan_line))
    × ((j : ℕ) × (y ≡ pos j) × (j < config.vertical_resolution))

abbrev pub AllInFrame : FrameBufferConfig → Drawing → Type 0
AllInFrame config [] = Unit
AllInFrame config (w ∷ ws) = InFrame config w.x w.y × AllInFrame config ws

-- The frame fits the 32 bits in which its offsets are computed.
abbrev pub Fits : FrameBufferConfig → Type 0
Fits config = config.pixels_per_scan_line * config.vertical_resolution * 4 ≤ 2 ^ 32

product_ge : (a b : ℕ) → 0 < b → a ≤ a * b
product_ge a b h = grind arith

next_row : (n j j' : ℕ) → j < j' → n * j + n ≤ n * j'
next_row n j j' h = grind arith

-- The place of a pixel of the frame, and that two pixels do not overlap.
module _ (config : FrameBufferConfig) (fits : Fits config) where
  index-lt :
      (i j : ℕ)
      → i < config.pixels_per_scan_line
      → j < config.vertical_resolution
      → config.pixels_per_scan_line * j + i
        < config.pixels_per_scan_line * config.vertical_resolution
  index-lt i j hi hj = grind arith

  width_small : (j : ℕ) → j < config.vertical_resolution → config.pixels_per_scan_line ≤ 2 ^ 30
  width_small j h = grind (arith, product_ge config.pixels_per_scan_line config.vertical_resolution)

  height_small : (i : ℕ) → i < config.pixels_per_scan_line → config.vertical_resolution ≤ 2 ^ 30
  height_small i h =
      grind (arith, product_ge config.vertical_resolution config.pixels_per_scan_line)

  pixel_at_frame :
      (i j : ℕ)
      → i < config.pixels_per_scan_line
      → j < config.vertical_resolution
      → pixel_at config (pos i) (pos j)
        ≡ config.frame_buffer + 4 * (config.pixels_per_scan_line * j + i)
  unfolding pixel_at
  pixel_at_frame i j hi hj =
      let ei : i % 2 ^ 32 ≡ i = omega (arith, width_small j hj) in
      let ej : j % 2 ^ 32 ≡ j = omega (arith, height_small i hi) in
      rw (ei, ej) (omega (arith, index-lt i j hi hj, fits))

  index_inj :
      (i j i' j' : ℕ)
      → i < config.pixels_per_scan_line
      → i' < config.pixels_per_scan_line
      → config.pixels_per_scan_line * j + i ≡ config.pixels_per_scan_line * j' + i'
      → (i ≡ i') × (j ≡ j')
  index_inj i j i' j' hi hi' e = elim (ℕ_discrete j j') [
    | yes same ↦ (omega (arith, ap (λ (k : ℕ). config.pixels_per_scan_line * k) same), same)
    | no ne ↦ elim (dec_lt j j') [
      | yes lt ↦ absurd (omega (arith, next_row config.pixels_per_scan_line j j' lt))
      | no ge ↦ absurd (omega (arith, next_row config.pixels_per_scan_line j' j (omega arith)))
    ]
  ]

-- A write, and then a read at the same pixel or at one whose bytes are apart from it.
color_after :
    (format : PixelFormat) (memory : Bytes) (p q : ℕ) (c : PixelColor)
    → ((p ≡ q)
        → color_of format
            (elim format [
              | rgb_resv8_bit_per_color ↦ poke (poke (poke memory p c.r) (p + 1) c.g) (p + 2) c.b
              | bgr_resv8_bit_per_color ↦ poke (poke (poke memory p c.b) (p + 1) c.g) (p + 2) c.r
            ])
            q
          ≡ c)
      × ((p + 3 ≤ q) ⊎ (q + 3 ≤ p)
          → color_of format
              (elim format [
                | rgb_resv8_bit_per_color ↦ poke (poke (poke memory p c.r) (p + 1) c.g) (p + 2) c.b
                | bgr_resv8_bit_per_color ↦ poke (poke (poke memory p c.b) (p + 1) c.g) (p + 2) c.r
              ])
              q
            ≡ color_of format memory q)
unfolding color_of poke
color_after rgb_resv8_bit_per_color memory p q c = (λ h. ground arith, λ h. ground arith)
color_after bgr_resv8_bit_per_color memory p q c = (λ h. ground arith, λ h. ground arith)

write_run :
    (config : FrameBufferConfig) (memory : Bytes) (w : Write)
    → write config memory w ≡ (elim config.pixel_format [
      | rgb_resv8_bit_per_color ↦
          poke
            (poke
              (poke memory (pixel_at config w.x w.y) w.color.r)
              (pixel_at config w.x w.y + 1)
              w.color.g)
            (pixel_at config w.x w.y + 2)
            w.color.b
      | bgr_resv8_bit_per_color ↦
          poke
            (poke
              (poke memory (pixel_at config w.x w.y) w.color.b)
              (pixel_at config w.x w.y + 1)
              w.color.g)
            (pixel_at config w.x w.y + 2)
            w.color.r
    ])
unfolding write
write_run config memory w = refl

module _ (config : FrameBufferConfig) (fits : Fits config) where
  -- Two pixels of the frame are one, as the test of `painted` says, or their bytes are apart.
  pixels :
      (x y x' y' : ℤ)
      → InFrame config x y
      → InFrame config x' y'
      → ((eqℤ x x' && eqℤ y y' ≡ true) × (pixel_at config x y ≡ pixel_at config x' y'))
        ⊎ ((eqℤ x x' && eqℤ y y' ≡ false)
            × ((pixel_at config x y + 3 ≤ pixel_at config x' y')
                ⊎ (pixel_at config x' y' + 3 ≤ pixel_at config x y)))
  pixels x y x' y' ((i, ex, hi), (j, ey, hj)) ((i', ex', hi'), (j', ey', hj')) =
      rw
        (
          ex,
          ey,
          ex',
          ey',
          pixel_at_frame config fits i j hi hj,
          pixel_at_frame config fits i' j' hi' hj',
        )
        (split (ℕ_discrete (place i j) (place i' j')))
    where
      place : ℕ → ℕ → ℕ
      place i j = config.pixels_per_scan_line * j + i

      split :
          Dec (place i j ≡ place i' j')
          → ((eqℤ (pos i) (pos i') && eqℤ (pos j) (pos j') ≡ true)
              × (config.frame_buffer + 4 * place i j ≡ config.frame_buffer + 4 * place i' j'))
            ⊎ ((eqℤ (pos i) (pos i') && eqℤ (pos j) (pos j') ≡ false)
                × ((config.frame_buffer + 4 * place i j + 3 ≤ config.frame_buffer + 4 * place i' j')
                    ⊎ (config.frame_buffer + 4 * place i' j' + 3
                        ≤ config.frame_buffer + 4 * place i j)))
      split (yes e) =
          let (ei, ej) = index_inj config fits i j i' j' hi hi' e in inl (ground arith, omega arith)
      split (no ne) = inr (different ne, ground arith)
        where
          different :
              place i j ≢ place i' j' → (eqℤ (pos i) (pos i') && eqℤ (pos j) (pos j')) ≡ false
          different ne = ground (arith, ap (λ (k : ℕ). config.pixels_per_scan_line * k))

  -- A write sets its own pixel and keeps the others of the frame.
  write_then :
      (memory : Bytes) (w : Write) (x y : ℤ)
      → InFrame config w.x w.y
      → InFrame config x y
      → ((eqℤ w.x x && eqℤ w.y y ≡ true)
          × (read_pixel config (write config memory w) x y ≡ w.color))
        ⊎ ((eqℤ w.x x && eqℤ w.y y ≡ false)
            × (read_pixel config (write config memory w) x y ≡ read_pixel config memory x y))
  unfolding read_pixel
  write_then memory w x y hw h =
      let (same, apart) =
        color_after config.pixel_format memory (pixel_at config w.x w.y) (pixel_at config x y)
          w.color in
      elim (pixels w.x w.y x y hw h) [
        | inl (t, e) ↦ inl (t, ap after (write_run config memory w) ∙ same e)
        | inr (f, d) ↦ inr (f, ap after (write_run config memory w) ∙ apart d)
      ]
    where
      after : Bytes → PixelColor
      after m = color_of config.pixel_format m (pixel_at config x y)

  pub paint_lem :
      (memory : Bytes) (ws : Drawing) (x y : ℤ)
      → AllInFrame config ws
      → InFrame config x y
      → ((c : PixelColor)
          → painted ws x y ≡ some c
          → read_pixel config (paint config memory ws) x y ≡ c)
        × (painted ws x y ≡ none
            → read_pixel config (paint config memory ws) x y ≡ read_pixel config memory x y)
  unfolding paint painted
  paint_lem memory [] x y all h = ((λ c e. absurd (cc e)), λ e. refl)
  paint_lem memory (w ∷ ws) x y (hw, all) h =
      let (written, kept) = paint_lem (write config memory w) ws x y all h in
      elim (painted_cases w ws x y) [
        | inl (d, e, f) ↦ ((λ c g. cc (written d e, f, g)), λ g. absurd (cc (f, g)))
        | inr (e, f) ↦ elim (write_then memory w x y hw h) [
          | inl (t, k) ↦ ((λ c g. kept e ∙ k ∙ by_test c t f g), λ g. absurd (cc (f, g, test t)))
          | inr (t, k) ↦ ((λ c g. absurd (cc (f, g, test t))), λ g. kept e ∙ k)
        ]
      ]
    where
      chosen : Bool → Option PixelColor
      chosen b = if b then some w.color else none

      test : {b : Bool} → (eqℤ w.x x && eqℤ w.y y) ≡ b → chosen (eqℤ w.x x && eqℤ w.y y) ≡ chosen b
      test t = ap chosen t

      by_test :
          (c : PixelColor)
          → (eqℤ w.x x && eqℤ w.y y) ≡ true
          → painted (w ∷ ws) x y ≡ chosen (eqℤ w.x x && eqℤ w.y y)
          → painted (w ∷ ws) x y ≡ some c
          → w.color ≡ c
      by_test c t f g = cc (f, g, test t)

  -- After a drawing within a frame that fits 32 bits, a pixel of the frame holds in memory the colour
  -- that the drawing last wrote to it, and one that it does not write holds what it held, in either
  -- pixel format.
  pub read_pixel-paint :
      (memory : Bytes) (ws : Drawing) (x y : ℤ)
      → AllInFrame config ws
      → InFrame config x y
      → ((c : PixelColor) × (painted ws x y ≡ some c)
          × (read_pixel config (paint config memory ws) x y ≡ c))
        ⊎ ((painted ws x y ≡ none)
            × (read_pixel config (paint config memory ws) x y ≡ read_pixel config memory x y))
  read_pixel-paint memory ws x y all h =
      let (written, kept) = paint_lem memory ws x y all h in
      elim (Option-cases (painted ws x y)) [
        | inl e ↦ inr (e, kept e)
        | inr (c, e) ↦ inl (c, e, written c e)
      ]
