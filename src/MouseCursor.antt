-- ===== src/MouseCursor.antt =====
-- kernel/mouse.hpp and mouse.cpp, and the observer of kernel/main.cpp: the mouse cursor. An operation
-- gives the cursor after it and the drawing that it makes on the writer.
pub mod Trail
use Prim.Native.Char.{code}
use Prim.Native.String.{String, char_at}
use mikanos_aarch.Prelude.{ℕ, List, [], ◌∷◌, ◌++◌, get_or, ◌==◌, if◌then◌else◌}
use mikanos_aarch.Prelude.Int.{ℤ, pos, ◌+ℤ◌, int8}
use mikanos_aarch.Graphics.{PixelColor, Vector2D, add_vector, Drawing, for_range, at}

abbrev pub width : ℕ
width = 15

abbrev pub height : ℕ
height = 24

-- `mouse_cursor_shape`.
abbrev pub shape : List String
shape =
    "@              " ∷ "@@             " ∷ "@.@            " ∷ "@..@           "
    ∷ "@...@          " ∷ "@....@         " ∷ "@.....@        " ∷ "@......@       "
    ∷ "@.......@      " ∷ "@........@     " ∷ "@.........@    " ∷ "@..........@   "
    ∷ "@...........@  " ∷ "@............@ " ∷ "@......@@@@@@@@" ∷ "@......@       "
    ∷ "@....@@.@      " ∷ "@...@ @.@      " ∷ "@..@   @.@     " ∷ "@.@    @.@     "
    ∷ "@@      @.@    " ∷ "@       @.@    " ∷ "         @.@   " ∷ "         @@@   " ∷ []

-- The character `mouse_cursor_shape[dy][dx]`.
unfoldable pub shape_at : ℕ → ℕ → ℕ
shape_at dy dx = code (char_at (get_or shape dy "") dx)

abbrev pub black : PixelColor
black = record { r = 0; g = 0; b = 0 }

abbrev pub white : PixelColor
white = record { r = 255; g = 255; b = 255 }

-- The body of the loops of `DrawMouseCursor`: '@' is 64 and '.' is 46.
unfoldable pub draw_dot : Vector2D → ℕ → ℕ → Drawing
unfolding shape_at
draw_dot p dy dx =
    if shape_at dy dx == 64
    then at (p.x +ℤ pos dx) (p.y +ℤ pos dy) black ∷ []
    else if shape_at dy dx == 46
    then at (p.x +ℤ pos dx) (p.y +ℤ pos dy) white ∷ []
    else []

-- `DrawMouseCursor`.
unfoldable pub draw_mouse_cursor : Vector2D → Drawing
unfolding draw_dot for_range
draw_mouse_cursor p = for_range height 0 λ dy. for_range width 0 λ dx. draw_dot p dy dx

-- The body of the loops of `EraseMouseCursor`: a space is 32.
unfoldable pub erase_dot : Vector2D → PixelColor → ℕ → ℕ → Drawing
unfolding shape_at
erase_dot p c dy dx = if shape_at dy dx == 32 then [] else at (p.x +ℤ pos dx) (p.y +ℤ pos dy) c ∷ []

-- `EraseMouseCursor`.
unfoldable pub erase_mouse_cursor : Vector2D → PixelColor → Drawing
unfolding erase_dot for_range
erase_mouse_cursor p c = for_range height 0 λ dy. for_range width 0 λ dx. erase_dot p c dy dx

pub record MouseCursor : Type 0 where
  pub erase_color : PixelColor
  pub position : Vector2D

-- The constructor.
unfoldable pub new_mouse_cursor : PixelColor → Vector2D → MouseCursor × Drawing
unfolding draw_mouse_cursor
new_mouse_cursor c p = (record { erase_color = c; position = p }, draw_mouse_cursor p)

-- `MoveRelative`.
unfoldable pub move_relative : MouseCursor → Vector2D → MouseCursor × Drawing
unfolding add_vector draw_mouse_cursor erase_mouse_cursor
move_relative cursor displacement =
    let moved = add_vector cursor.position displacement in
    (
      record cursor { position = moved },
      erase_mouse_cursor cursor.position cursor.erase_color ++ draw_mouse_cursor moved,
    )

-- `MouseObserver`; a displacement is a byte with a sign.
unfoldable pub mouse_observer : MouseCursor → ℕ → ℕ → MouseCursor × Drawing
unfolding move_relative int8
mouse_observer cursor dx dy = move_relative cursor (record { x = int8 dx; y = int8 dy })

-- A sequence of calls of the observer.
unfoldable pub mouse_moves : MouseCursor → List (ℕ × ℕ) → MouseCursor × Drawing
unfolding mouse_observer
mouse_moves cursor [] = (cursor, [])
mouse_moves cursor (d ∷ ds) =
    let first = mouse_observer cursor (d.0) (d.1) in
    let rest = mouse_moves (first.0) ds in (rest.0, first.1 ++ rest.1)
