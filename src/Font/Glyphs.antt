-- ===== src/Font/Glyphs.antt =====
-- What text of kernel/font.cpp shows.
use mikanos_aarch.Prelude.{
  ℕ, ◌+◌, ◌*◌, ◌≤◌, ◌<◌, ◌≡◌, ◌≢◌, ◌⊎◌, inl, inr, refl, ap, ◌∙◌, Bool, true, false, List, [], ◌∷◌,
  ◌++◌, ◌==◌, if◌then◌else◌, arith, leb, dec_lt, Bool-cases, ℕ_discrete, ==_ne, ==_iff,
}
use mikanos_aarch.Prelude.Int.{ℤ, pos, ◌+ℤ◌}
use mikanos_aarch.Graphics.{PixelColor, Drawing, for_range, at}
use mikanos_aarch.Graphics.Shows.{
  Shows, Some, Shows-region, Shows-append, Shows-one, Shows-for_range, Shows-nil,
}
use mikanos_aarch.Font.{FontData, get_font, is_dot, write_dot, write_ascii, write_chars}

-- A pixel of the glyph of a character, drawn with its corner at `x` and `y`.
abbrev pub InGlyph : FontData → ℤ → ℤ → ℕ → ℤ → ℤ → Type 0
InGlyph font x y c a b =
    (16 * c < font.size)
    × ((dy : ℕ) × (dy < 16)
        × ((dx : ℕ) × (dx < 8)
            × (is_dot (font.bytes (16 * c + dy)) dx ≡ true)
            × (a ≡ x +ℤ pos dx)
            × (b ≡ y +ℤ pos dy)))

abbrev Dot : FontData → ℕ → ℤ → ℤ → ℕ → ℕ → ℤ → ℤ → Type 0
Dot font glyph x y dy dx a b =
    (is_dot (font.bytes (glyph + dy)) dx ≡ true) × (a ≡ x +ℤ pos dx) × (b ≡ y +ℤ pos dy)

write_dot_run :
    (font : FontData) (glyph : ℕ) (x y : ℤ) (color : PixelColor) (dy dx : ℕ)
    → write_dot font glyph x y color dy dx ≡ (
        if is_dot (font.bytes (glyph + dy)) dx
        then at (x +ℤ pos dx) (y +ℤ pos dy) color ∷ []
        else [])
unfolding write_dot
write_dot_run font glyph x y color dy dx = refl

write_dot-Shows :
    (font : FontData) (glyph : ℕ) (x y : ℤ) (color : PixelColor) (dy dx : ℕ)
    → Shows (write_dot font glyph x y color dy dx) color (Dot font glyph x y dy dx)
write_dot-Shows font glyph x y color dy dx =
    elim (Bool-cases (is_dot (font.bytes (glyph + dy)) dx)) [
      | inl t ↦ rw (shown t) (
          Shows-region (at (x +ℤ pos dx) (y +ℤ pos dy) color ∷ []) color
            (λ a b. (a ≡ x +ℤ pos dx) × (b ≡ y +ℤ pos dy)) (Dot font glyph x y dy dx)
            (λ a b (ea, eb). (t, ea, eb)) (λ a b (_, ea, eb). (ea, eb))
            (Shows-one (x +ℤ pos dx) (y +ℤ pos dy) color))
      | inr f ↦
          rw (shown f) (Shows-nil color (Dot font glyph x y dy dx) (λ a b (t, _, _). cc (t, f)))
    ]
  where
    shown :
        {b : Bool}
        → is_dot (font.bytes (glyph + dy)) dx ≡ b
        → write_dot font glyph x y color dy dx
          ≡ (if b then at (x +ℤ pos dx) (y +ℤ pos dy) color ∷ [] else [])
    shown e =
        write_dot_run font glyph x y color dy dx
        ∙ ap (λ (b : Bool). if b then at (x +ℤ pos dx) (y +ℤ pos dy) color ∷ [] else []) e

abbrev glyph_row : FontData → ℤ → ℤ → ℕ → PixelColor → ℕ → Drawing
glyph_row font x y c color dy = for_range 8 0 (λ dx. write_dot font (16 * c) x y color dy dx)

write_ascii_cases :
    (font : FontData) (x y : ℤ) (c : ℕ) (color : PixelColor)
    → ((16 * c < font.size)
        × (write_ascii font x y c color ≡ for_range 16 0 (glyph_row font x y c color)))
      ⊎ ((font.size ≤ 16 * c) × (write_ascii font x y c color ≡ []))
unfolding write_ascii get_font
write_ascii_cases font x y c color = elim (dec_lt (16 * c) font.size) [
  | yes lt ↦ inl (lt, rw (found lt, write_ascii) refl)
  | no ge ↦ inr (omega arith, rw (missing (omega arith), write_ascii) refl)
]
  where
    found : 16 * c < font.size → leb font.size (16 * c) ≡ false
    found lt = ground arith

    missing : font.size ≤ 16 * c → leb font.size (16 * c) ≡ true
    missing ge = ground arith

-- `WriteAscii` writes the colour to the pixels of the glyph and to no other; to none where the font
-- has no glyph for the character.
pub write_ascii-Shows :
    (font : FontData) (x y : ℤ) (c : ℕ) (color : PixelColor)
    → Shows (write_ascii font x y c color) color (InGlyph font x y c)
write_ascii-Shows font x y c color = elim (write_ascii_cases font x y c color) [
  | inl (lt, e) ↦ rw e (
      Shows-region (for_range 16 0 (glyph_row font x y c color)) color
        (Some 16 0 (λ dy. Some 8 0 (Dot font (16 * c) x y dy))) (InGlyph font x y c)
        (λ a b (dy, _, hy, (dx, _, hx, (t, ea, eb))). (lt, (dy, hy, (dx, hx, t, ea, eb))))
        (λ a b (_, (dy, hy, (dx, hx, t, ea, eb))).
          (dy, omega arith, hy, (dx, omega arith, hx, (t, ea, eb))))
        (Shows-for_range 16 0 (glyph_row font x y c color) color
          (λ dy. Some 8 0 (Dot font (16 * c) x y dy))
          λ dy.
            Shows-for_range 8 0 (λ dx. write_dot font (16 * c) x y color dy dx) color
              (Dot font (16 * c) x y dy) λ dx. write_dot-Shows font (16 * c) x y color dy dx))
  | inr (ge, e) ↦ rw e (Shows-nil color (InGlyph font x y c) (λ a b (lt, _). omega arith))
]

-- A pixel of one of the characters of a string before its end, the first of which is the `i`-th of
-- its line.
unfoldable pub InString : FontData → ℤ → ℤ → ℕ → List ℕ → ℤ → ℤ → Type 0
InString font x y i [] a b = ⊥
InString font x y i (c ∷ s) a b =
    (c ≢ 0) × (InGlyph font (x +ℤ pos (8 * i)) y c a b ⊎ InString font x y (i + 1) s a b)

pub write_chars-Shows :
    (font : FontData) (x y : ℤ) (i : ℕ) (s : List ℕ) (color : PixelColor)
    → Shows (write_chars font x y i s color) color (InString font x y i s)
unfolding write_chars InString
write_chars-Shows font x y i [] color = Shows-nil color (InString font x y i []) (λ a b e. e)
write_chars-Shows font x y i (c ∷ s) color = elim (ℕ_discrete c 0) [
  | yes z ↦ rw (is_zero z) (Shows-nil color (InString font x y i (c ∷ s)) (λ a b (n, _). n z))
  | no n ↦ rw (==_ne c 0 n) (
      Shows-region
        (write_ascii font (x +ℤ pos (8 * i)) y c color ++ write_chars font x y (i + 1) s color)
        color (λ a b. InGlyph font (x +ℤ pos (8 * i)) y c a b ⊎ InString font x y (i + 1) s a b)
        (InString font x y i (c ∷ s)) (λ a b p. (n, p)) (λ a b (_, p). p)
        (Shows-append (write_ascii font (x +ℤ pos (8 * i)) y c color)
          (write_chars font x y (i + 1) s color) color (InGlyph font (x +ℤ pos (8 * i)) y c)
          (InString font x y (i + 1) s) (write_ascii-Shows font (x +ℤ pos (8 * i)) y c color)
          (write_chars-Shows font x y (i + 1) s color)))
]
  where
    is_zero : c ≡ 0 → (c == 0) ≡ true
    is_zero z = (==_iff c 0).1 z
