-- ===== src/Console.antt =====
-- kernel/console.hpp and console.cpp: the text console. An operation gives the console after it and
-- the drawing that it makes on the writer.
pub mod Branches
pub mod Invariant
pub mod Terminal
pub mod Rows
pub mod Screen
use mikanos_aarch.Prelude.{
  ℕ, zero, suc, ◌+◌, ◌-◌, ◌*◌, Bool, ◌&&◌, List, [], ◌∷◌, ◌++◌, ltb, ◌==◌, if◌then◌else◌,
}
use mikanos_aarch.Prelude.Int.{ℤ, pos}
use mikanos_aarch.Graphics.{PixelColor, Drawing, for_range, at}
use mikanos_aarch.Font.{FontData, write_ascii, write_string}

abbrev pub rows : ℕ
rows = 25

abbrev pub columns : ℕ
columns = 80

-- `char buffer_[kRows][kColumns + 1]`, as the byte at a row and a column.
abbrev pub Buffer : Type 0
Buffer = ℕ → ℕ → ℕ

pub record Console : Type 0 where
  pub fg_color : PixelColor
  pub bg_color : PixelColor
  pub buffer : Buffer
  pub cursor_row : ℕ
  pub cursor_column : ℕ

-- The constructor.
unfoldable pub new_console : PixelColor → PixelColor → Console
new_console fg bg = record {
  fg_color = fg;
  bg_color = bg;
  buffer = λ row column. 0;
  cursor_row = 0;
  cursor_column = 0;
}

unfoldable pub store : Buffer → ℕ → ℕ → ℕ → Buffer
store buffer row column c r k = if r == row && k == column then c else buffer r k

-- `memcpy(buffer_[row], buffer_[row + 1], kColumns + 1)`.
unfoldable pub copy_row : Buffer → ℕ → Buffer
copy_row buffer row r k = if r == row && ltb k (columns + 1) then buffer (row + 1) k else buffer r k

-- `memset(buffer_[row], 0, kColumns + 1)`.
unfoldable pub clear_row : Buffer → ℕ → Buffer
clear_row buffer row r k = if r == row && ltb k (columns + 1) then 0 else buffer r k

-- The bytes of a row as a string, from `k` on.
unfoldable pub row_bytes : (ℕ → ℕ) → ℕ → ℕ → List ℕ
row_bytes row k zero = []
row_bytes row k (suc n) = row k ∷ row_bytes row (k + 1) n

-- The loop of `Newline` that moves `n` rows up, from `row` on, and draws each.
unfoldable pub scroll_rows : FontData → PixelColor → ℕ → ℕ → Buffer → Buffer × Drawing
unfolding copy_row row_bytes write_string
scroll_rows font fg zero row buffer = (buffer, [])
scroll_rows font fg (suc n) row buffer =
    let copied = copy_row buffer row in
    let rest = scroll_rows font fg n (row + 1) copied in
    (
      rest.0,
      write_string font (pos 0) (pos (16 * row)) (row_bytes (copied row) 0 (columns + 1)) fg
          ++ rest.1,
    )

-- The loop of `Newline` that clears the console's part of the screen.
unfoldable pub clear_screen : PixelColor → Drawing
unfolding for_range
clear_screen bg =
    for_range (16 * rows) 0 λ y. for_range (8 * columns) 0 λ x. at (pos x) (pos y) bg ∷ []

-- `Newline` in the last row.
unfoldable pub scroll : FontData → Console → Console × Drawing
unfolding scroll_rows clear_screen clear_row
scroll font console =
    let moved = scroll_rows font console.fg_color (rows - 1) 0 console.buffer in
    (
      record console { buffer = clear_row (moved.0) (rows - 1); cursor_column = 0 },
      clear_screen console.bg_color ++ moved.1,
    )

-- `Newline`.
unfoldable pub newline : FontData → Console → Console × Drawing
unfolding scroll
newline font console =
    if ltb console.cursor_row (rows - 1)
    then (record console { cursor_row = console.cursor_row + 1; cursor_column = 0 }, [])
    else scroll font console

-- A character that is drawn.
unfoldable pub put_glyph : FontData → Console → ℕ → Console × Drawing
unfolding store write_ascii
put_glyph font console c = (
  record console {
    buffer = store console.buffer console.cursor_row console.cursor_column c;
    cursor_column = console.cursor_column + 1;
  },
  write_ascii font (pos (8 * console.cursor_column)) (pos (16 * console.cursor_row)) c
      console.fg_color,
)

-- The body of the loop of `PutString`.
unfoldable pub put_char : FontData → Console → ℕ → Console × Drawing
unfolding newline put_glyph
put_char font console c =
    if c == 10
    then newline font console
    else if ltb console.cursor_column (columns - 1)
    then put_glyph font console c
    else (console, [])

-- `PutString`; it stops at a byte of zero.
unfoldable pub put_string : FontData → Console → List ℕ → Console × Drawing
unfolding put_char
put_string font console [] = (console, [])
put_string font console (c ∷ s) =
    let first = put_char font console c in
    let rest = put_string font (first.0) s in
    if c == 0 then (console, []) else (rest.0, first.1 ++ rest.1)
