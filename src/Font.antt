-- ===== src/Font.antt =====
-- kernel/font.cpp: text as pixels. The font is a file that the build links in as bytes, so its bytes
-- and their number are a parameter; a `char` of this machine has no sign.
pub mod Glyphs
use mikanos_aarch.Prelude.{
  ℕ, ◌+◌, ◌*◌, ◌/◌, ◌%◌, ◌^◌, Bool, List, [], ◌∷◌, ◌++◌, Option, none, some, ◌==◌, leb,
  if◌then◌else◌,
}
use mikanos_aarch.Prelude.Int.{ℤ, pos, ◌+ℤ◌}
use mikanos_aarch.Graphics.{PixelColor, Drawing, for_range, at}

-- The bytes from `_binary_hankaku_bin_start` on, and `_binary_hankaku_bin_size`.
pub record FontData : Type 0 where
  pub bytes : ℕ → ℕ
  pub size : ℕ

-- `GetFont`: where the glyph of a character starts, or `nullptr`.
unfoldable pub get_font : FontData → ℕ → Option ℕ
get_font font c = if leb font.size (16 * c) then none else some (16 * c)

-- The test `(row << dx) & 0x80u` on a row of a glyph.
unfoldable pub is_dot : ℕ → ℕ → Bool
is_dot row dx = row * 2 ^ dx / 2 ^ 7 % 2 == 1

-- The body of the two loops of `WriteAscii`.
unfoldable pub write_dot : FontData → ℕ → ℤ → ℤ → PixelColor → ℕ → ℕ → Drawing
unfolding is_dot
write_dot font glyph x y color dy dx =
    if is_dot (font.bytes (glyph + dy)) dx then at (x +ℤ pos dx) (y +ℤ pos dy) color ∷ [] else []

-- `WriteAscii`.
unfoldable pub write_ascii : FontData → ℤ → ℤ → ℕ → PixelColor → Drawing
unfolding get_font write_dot for_range
write_ascii font x y c color = elim (get_font font c) [
  | none ↦ []
  | some glyph ↦ for_range 16 0 (λ dy. for_range 8 0 (λ dx. write_dot font glyph x y color dy dx))
]

-- `WriteString` from its `i`-th character on; it stops at a byte of zero.
unfoldable pub write_chars : FontData → ℤ → ℤ → ℕ → List ℕ → PixelColor → Drawing
unfolding write_ascii
write_chars font x y i [] color = []
write_chars font x y i (c ∷ s) color =
    if c == 0
    then []
    else write_ascii font (x +ℤ pos (8 * i)) y c color ++ write_chars font x y (i + 1) s color

unfoldable pub write_string : FontData → ℤ → ℤ → List ℕ → PixelColor → Drawing
unfolding write_chars
write_string font x y s color = write_chars font x y 0 s color
