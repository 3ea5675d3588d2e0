-- ===== src/Console/Rows.antt =====
-- The rows of the console of kernel/console.cpp: what drawing them as strings shows.
use mikanos_aarch.Prelude.{
  ℕ, zero, suc, ◌+◌, ◌-◌, ◌*◌, ◌≤◌, ◌<◌, ◌≡◌, ◌≢◌, ◌⊎◌, inl, inr, refl, sym, ap, subst, ◌∙◌, List,
  [], ◌∷◌, ◌++◌, arith, ℕ_discrete,
}
use mikanos_aarch.Prelude.Int.{ℤ, pos, ◌+ℤ◌, eq_of_parts, +ℤ_parts}
use mikanos_aarch.Graphics.{PixelColor, Drawing, for_range, at}
use mikanos_aarch.Graphics.Shows.{
  Shows, Some, Shows-region, Shows-append, Shows-nil, Shows-one, Shows-for_range,
}
use mikanos_aarch.Font.{FontData, write_string}
use mikanos_aarch.Font.Glyphs.{InGlyph, InString, write_chars-Shows}
use mikanos_aarch.Console.{Buffer, rows, columns, copy_row, row_bytes, scroll_rows, clear_screen}

-- A pixel of the character of one cell.
abbrev pub InCell : FontData → ℕ → ℕ → ℤ → ℤ → ℕ → Type 0
InCell font r k a b c = (c ≢ 0) × InGlyph font (pos (8 * k)) (pos (16 * r)) c a b

-- A pixel of a character of a row that is a string.
abbrev pub InRow : FontData → (ℕ → ℕ) → ℕ → ℤ → ℤ → Type 0
InRow font row r a b = (k : ℕ) × (k < columns) × InCell font r k a b (row k)

-- A pixel of a character of the buffer.
abbrev pub InText : FontData → Buffer → ℤ → ℤ → Type 0
InText font buffer a b = (r : ℕ) × (r < rows) × InRow font (buffer r) r a b

-- The characters of a string from the `i`-th on, where no character follows a zero.
string_at :
    (font : FontData) (row : ℕ → ℕ) (y a b : ℤ) (i n : ℕ)
    → InString font (pos 0) y i (row_bytes row i n) a b
    → (k : ℕ) × (i ≤ k)
      × (k < i + n)
      × (row k ≢ 0)
      × InGlyph font (pos 0 +ℤ pos (8 * k)) y (row k) a b
unfolding InString row_bytes
string_at font row y a b i zero e = absurd e
string_at font row y a b i (suc n) (z, inl g) = (i, omega arith, omega arith, z, g)
string_at font row y a b i (suc n) (z, inr s) =
    let (k, lo, hi, nz, g) = string_at font row y a b (i + 1) n s in
    (k, omega arith, omega arith, nz, g)

zero_stays :
    (row : ℕ → ℕ) (i d : ℕ) → ((k : ℕ) → row k ≡ 0 → row (k + 1) ≡ 0) → row i ≡ 0 → row (i + d) ≡ 0
zero_stays row i zero ends e = ap row place ∙ e
  where
    place : i + 0 ≡ i
    place = omega arith
zero_stays row i (suc d) ends e = ap row place ∙ ends (i + d) (zero_stays row i d ends e)
  where
    place : i + suc d ≡ i + d + 1
    place = omega arith

at_string :
    (font : FontData) (row : ℕ → ℕ) (y a b : ℤ) (i n k : ℕ)
    → ((k : ℕ) → row k ≡ 0 → row (k + 1) ≡ 0)
    → i ≤ k
    → k < i + n
    → row k ≢ 0
    → InGlyph font (pos 0 +ℤ pos (8 * k)) y (row k) a b
    → InString font (pos 0) y i (row_bytes row i n) a b
unfolding InString row_bytes
at_string font row y a b i zero k ends lo hi nz g = absurd (omega arith)
at_string font row y a b i (suc n) k ends lo hi nz g = (
  started,
  elim (ℕ_discrete i k) [
    | yes e ↦ inl (subst (λ (k : ℕ). InGlyph font (pos 0 +ℤ pos (8 * k)) y (row k) a b) (sym e) g)
    | no ne ↦ inr (at_string font row y a b (i + 1) n k ends (omega arith) (omega arith) nz g)
  ],
)
  where
    place : k ≡ i + (k - i)
    place = omega arith

    started : row i ≢ 0
    started z = nz (ap row place ∙ zero_stays row i (k - i) ends z)

column_place : (k : ℕ) → pos 0 +ℤ pos (8 * k) ≡ pos (8 * k)
column_place k =
    eq_of_parts (pos 0 +ℤ pos (8 * k)) (pos (8 * k)) (omega (arith, +ℤ_parts (pos 0) (pos (8 * k))))

-- A row that is drawn as a string.
abbrev row_drawing : FontData → (ℕ → ℕ) → ℕ → PixelColor → Drawing
row_drawing font row r fg =
    write_string font (pos 0) (pos (16 * r)) (row_bytes row 0 (columns + 1)) fg

row_drawing-Shows :
    (font : FontData) (row : ℕ → ℕ) (r : ℕ) (fg : PixelColor)
    → ((k : ℕ) → row k ≡ 0 → row (k + 1) ≡ 0)
    → row (columns - 1) ≡ 0
    → Shows (row_drawing font row r fg) fg (InRow font row r)
unfolding write_string
row_drawing-Shows font row r fg ends z =
    Shows-region (row_drawing font row r fg) fg
      (InString font (pos 0) (pos (16 * r)) 0 (row_bytes row 0 (columns + 1))) (InRow font row r) to
      from (write_chars-Shows font (pos 0) (pos (16 * r)) 0 (row_bytes row 0 (columns + 1)) fg)
  where
    to :
        (a b : ℤ)
        → InString font (pos 0) (pos (16 * r)) 0 (row_bytes row 0 (columns + 1)) a b
        → InRow font row r a b
    to a b s =
        let (k, lo, hi, nz, g) = string_at font row (pos (16 * r)) a b 0 (columns + 1) s in
        (
          k,
          inside k hi nz,
          (nz, subst (λ (x : ℤ). InGlyph font x (pos (16 * r)) (row k) a b) (column_place k) g),
        )
      where
        inside : (k : ℕ) → k < 0 + (columns + 1) → row k ≢ 0 → k < columns
        inside k hi nz = elim (ℕ_discrete k 80) [
          | yes e ↦ absurd (nz (ap row e ∙ ends (columns - 1) z))
          | no ne ↦ omega arith
        ]

    from :
        (a b : ℤ)
        → InRow font row r a b
        → InString font (pos 0) (pos (16 * r)) 0 (row_bytes row 0 (columns + 1)) a b
    from a b (k, lt, (nz, g)) =
        at_string font row (pos (16 * r)) a b 0 (columns + 1) k ends (omega arith) (omega arith) nz
          (subst (λ (x : ℤ). InGlyph font x (pos (16 * r)) (row k) a b) (sym (column_place k)) g)

row_bytes-cong :
    (f g : ℕ → ℕ) (i n : ℕ) → ((k : ℕ) → k < i + n → f k ≡ g k) → row_bytes f i n ≡ row_bytes g i n
unfolding row_bytes
row_bytes-cong f g i zero h = refl
row_bytes-cong f g i (suc n) h =
    rw (h i (omega arith), row_bytes-cong f g (i + 1) n (λ k lt. h k (omega arith))) refl

copied_next :
    (buffer : Buffer) (row k : ℕ) → k < columns + 1 → copy_row buffer row row k ≡ buffer (row + 1) k
unfolding copy_row
copied_next buffer row k lt = ground arith

copied_other : (buffer : Buffer) (row r k : ℕ) → row < r → copy_row buffer row r k ≡ buffer r k
unfolding copy_row
copied_other buffer row r k lt = ground arith

pub InRow-cong :
    (font : FontData) (f g : ℕ → ℕ) (r : ℕ) (a b : ℤ)
    → ((k : ℕ) → f k ≡ g k)
    → InRow font f r a b
    → InRow font g r a b
InRow-cong font f g r a b h (k, lt, cell) = (k, lt, subst (InCell font r k a b) (h k) cell)

-- The rows that `Newline` draws are the rows that come up.
pub scroll_rows-Shows :
    (font : FontData) (fg : PixelColor) (n row : ℕ) (buffer : Buffer)
    → ((r k : ℕ) → row < r → buffer r k ≡ 0 → buffer r (k + 1) ≡ 0)
    → ((r : ℕ) → row < r → buffer r (columns - 1) ≡ 0)
    → Shows
        ((scroll_rows font fg n row buffer).1)
        fg
        (Some n row (λ r. InRow font (buffer (r + 1)) r))
unfolding scroll_rows
scroll_rows-Shows font fg zero row buffer ends last =
    Shows-nil fg (Some 0 row (λ r. InRow font (buffer (r + 1)) r))
      (λ a b (r, lo, hi, _). omega arith)
scroll_rows-Shows font fg (suc n) row buffer ends last =
    Shows-region
      (row_drawing font (copy_row buffer row row) row fg
        ++ (scroll_rows font fg n (row + 1) (copy_row buffer row)).1)
      fg
      (λ a b.
        InRow font (buffer (row + 1)) row a b
        ⊎ Some n (row + 1) (λ r. InRow font (copy_row buffer row (r + 1)) r) a b)
      (Some (suc n) row (λ r. InRow font (buffer (r + 1)) r)) to from
      (Shows-append (row_drawing font (copy_row buffer row row) row fg)
        ((scroll_rows font fg n (row + 1) (copy_row buffer row)).1) fg
        (InRow font (buffer (row + 1)) row)
        (Some n (row + 1) (λ r. InRow font (copy_row buffer row (r + 1)) r)) first
        (scroll_rows-Shows font fg n (row + 1) (copy_row buffer row)
          (λ r k lt e. later r (k + 1) lt ∙ ends r k (omega arith) (sym (later r k lt) ∙ e))
          (λ r lt. later r (columns - 1) lt ∙ last r (omega arith))))
  where
    later : (r k : ℕ) → row + 1 < r → copy_row buffer row r k ≡ buffer r k
    later r k lt = copied_other buffer row r k (omega arith)

    shifted : (r k : ℕ) → row + 1 ≤ r → copy_row buffer row (r + 1) k ≡ buffer (r + 1) k
    shifted r k lo = copied_other buffer row (r + 1) k (omega arith)

    first :
        Shows
          (row_drawing font (copy_row buffer row row) row fg)
          fg
          (InRow font (buffer (row + 1)) row)
    first =
        subst
          (λ (bytes : List ℕ).
            Shows (write_string font (pos 0) (pos (16 * row)) bytes fg) fg
              (InRow font (buffer (row + 1)) row))
          (sym (
            row_bytes-cong (copy_row buffer row row) (buffer (row + 1)) 0 (columns + 1)
              (λ k lt. copied_next buffer row k (omega arith))))
          (row_drawing-Shows font (buffer (row + 1)) row fg
            (λ k e. ends (row + 1) k (omega arith) e) (last (row + 1) (omega arith)))

    to :
        (a b : ℤ)
        → InRow font (buffer (row + 1)) row a b
          ⊎ Some n (row + 1) (λ r. InRow font (copy_row buffer row (r + 1)) r) a b
        → Some (suc n) row (λ r. InRow font (buffer (r + 1)) r) a b
    to a b (inl p) = (row, omega arith, omega arith, p)
    to a b (inr (r, lo, hi, p)) = (
      r,
      omega arith,
      omega arith,
      InRow-cong font (copy_row buffer row (r + 1)) (buffer (r + 1)) r a b (λ k. shifted r k lo) p,
    )

    from :
        (a b : ℤ)
        → Some (suc n) row (λ r. InRow font (buffer (r + 1)) r) a b
        → InRow font (buffer (row + 1)) row a b
          ⊎ Some n (row + 1) (λ r. InRow font (copy_row buffer row (r + 1)) r) a b
    from a b (r, lo, hi, p) = elim (ℕ_discrete row r) [
      | yes e ↦ inl (subst (λ (r : ℕ). InRow font (buffer (r + 1)) r a b) (sym e) p)
      | no ne ↦ inr (
        r,
        omega arith,
        omega arith,
        InRow-cong font (buffer (r + 1)) (copy_row buffer row (r + 1)) r a b
            (λ k. sym (shifted r k (omega arith))) p,
      )
    ]

-- The console's part of the screen.
abbrev pub InScreen : ℤ → ℤ → Type 0
InScreen a b =
    Some (16 * rows) 0 (λ y. Some (8 * columns) 0 (λ x a b. (a ≡ pos x) × (b ≡ pos y))) a b

pub clear_screen-Shows : (bg : PixelColor) → Shows (clear_screen bg) bg InScreen
unfolding clear_screen
clear_screen-Shows bg =
    Shows-for_range (16 * rows) 0 (λ y. for_range (8 * columns) 0 λ x. at (pos x) (pos y) bg ∷ [])
      bg (λ y. Some (8 * columns) 0 (λ x a b. (a ≡ pos x) × (b ≡ pos y)))
      λ y.
        Shows-for_range (8 * columns) 0 (λ x. at (pos x) (pos y) bg ∷ []) bg
          (λ x a b. (a ≡ pos x) × (b ≡ pos y)) λ x. Shows-one (pos x) (pos y) bg

pub InText-InScreen :
    (font : FontData) (buffer : Buffer) (a b : ℤ) → InText font buffer a b → InScreen a b
InText-InScreen font buffer a b (r, hr, (k, hk, (nz, (_, (dy, hy, (dx, hx, _, ea, eb)))))) = (
  16 * r + dy,
  omega arith,
  omega arith,
  (8 * k + dx, omega arith, omega arith, (ea ∙ sum (8 * k) dx, eb ∙ sum (16 * r) dy)),
)
  where
    sum : (m n : ℕ) → pos m +ℤ pos n ≡ pos (m + n)
    sum m n = eq_of_parts (pos m +ℤ pos n) (pos (m + n)) (omega (arith, +ℤ_parts (pos m) (pos n)))
