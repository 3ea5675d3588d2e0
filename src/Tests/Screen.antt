-- ===== src/Tests/Screen.antt =====
-- The theorems on the screen, the console, the cursor and `KernelMain` at concrete inputs.
use mikanos_aarch.Prelude.{
  ◌≡◌, ◌⊎◌, refl, some, none, List, [], ◌∷◌, arith, if◌then◌else◌, ◌==◌, ◌++◌, ℕ,
}
use mikanos_aarch.Prelude.Int.{pos}
use mikanos_aarch.FrameBuffer.{FrameBufferConfig, bgr_resv8_bit_per_color}
use mikanos_aarch.Graphics.{PixelColor, Vector2D, Drawing, Bytes, fill_rectangle, paint, at}
use mikanos_aarch.Graphics.Shows.{ShowsAt, painted}
use mikanos_aarch.Graphics.Layers.{ShowsOnAt}
use mikanos_aarch.Graphics.Rectangle.{Inside}
use mikanos_aarch.Graphics.Rectangle
use mikanos_aarch.Graphics.Memory.{read_pixel}
use mikanos_aarch.Graphics.Memory
use mikanos_aarch.Font.{FontData}
use mikanos_aarch.Console.{Console, new_console, put_string, put_char, put_glyph, newline, store}
use mikanos_aarch.Console.Invariant.{new_console-IsValid}
use mikanos_aarch.Console.Terminal.{Represents, new_terminal, type_string, new_console-Represents}
use mikanos_aarch.Console.Terminal
use mikanos_aarch.Console.Rows.{InText}
use mikanos_aarch.Console.Screen.{new_console-ShowsText}
use mikanos_aarch.Console.Screen
use mikanos_aarch.MouseCursor.{MouseCursor, new_mouse_cursor, mouse_moves}
use mikanos_aarch.MouseCursor.Trail.{ShowsCursorAt, new_mouse_cursor-ShowsCursor}
use mikanos_aarch.MouseCursor.Trail
use mikanos_aarch.Pci.{Window, Device, read_vendor_id, read_register, make_ecam_address}
use mikanos_aarch.Main.{desktop, find_xhc}
use mikanos_aarch.Main.Desktop.{Colored}
use mikanos_aarch.Main.Desktop
use mikanos_aarch.Main.FindXhc.{Among, IsXhc, IsIntel, NoneIntel, NoneXhc}
use mikanos_aarch.Main.FindXhc

abbrev red : PixelColor
red = record { r = 255; g = 0; b = 0 }

abbrev blue : PixelColor
blue = record { r = 0; g = 0; b = 255 }

abbrev corner : Vector2D
corner = record { x = pos 3; y = pos 4 }

abbrev extent : Vector2D
extent = record { x = pos 5; y = pos 2 }

fill_rectangle-Shows_example :
    ShowsAt (fill_rectangle corner extent red) red (Inside corner extent) (pos 7) (pos 5)
fill_rectangle-Shows_example = Rectangle.fill_rectangle-Shows corner extent red (pos 7) (pos 5)

abbrev picture : FrameBufferConfig
picture = record {
  frame_buffer = 4096;
  pixels_per_scan_line = 64;
  horizontal_resolution = 60;
  vertical_resolution = 80;
  pixel_format = bgr_resv8_bit_per_color;
}

abbrev dark : Bytes
dark k = 0

abbrev two_dots : Drawing
two_dots = at (pos 3) (pos 4) red ∷ at (pos 5) (pos 4) blue ∷ []

read_pixel-paint_example :
    ((c : PixelColor) × (painted two_dots (pos 3) (pos 4) ≡ some c)
      × (read_pixel picture (paint picture dark two_dots) (pos 3) (pos 4) ≡ c))
    ⊎ ((painted two_dots (pos 3) (pos 4) ≡ none)
        × (read_pixel picture (paint picture dark two_dots) (pos 3) (pos 4)
            ≡ read_pixel picture dark (pos 3) (pos 4)))
read_pixel-paint_example =
    Memory.read_pixel-paint picture (omega arith) dark two_dots (pos 3) (pos 4)
      (
        ((3, refl, omega arith), (4, refl, omega arith)),
        (((5, refl, omega arith), (4, refl, omega arith)), tt),
      )
      ((3, refl, omega arith), (4, refl, omega arith))

desktop-read_pixel_example :
    Colored picture
      (pos 12)
      (pos 41)
      (some (read_pixel picture (paint picture dark (desktop picture)) (pos 12) (pos 41)))
desktop-read_pixel_example =
    Desktop.desktop-read_pixel picture (omega arith) (omega arith) (omega arith) 12 41 (omega arith)
      (omega arith) dark (omega arith)

abbrev striped : FontData
striped = record { bytes = λ k. 0xaa; size = 4096 }

abbrev console : Console
console = new_console red blue

abbrev text : List ℕ
text = 72 ∷ 105 ∷ 10 ∷ 33 ∷ []

second_line : (put_string striped console text).0.buffer 1 0 ≡ 33
unfolding put_string put_char put_glyph newline new_console store
second_line = refl

put_string-Represents_example :
    Represents ((put_string striped console text).0) (type_string new_terminal text)
put_string-Represents_example =
    Terminal.put_string-Represents striped console new_terminal text (new_console-IsValid red blue)
      (new_console-Represents red blue)

put_string-ShowsText_example :
    ShowsOnAt
      ((put_string striped console text).0.fg_color)
      ((put_string striped console text).0.bg_color)
      (InText striped ((put_string striped console text).0.buffer))
      ((put_string striped console text).1)
      (pos 2)
      (pos 3)
put_string-ShowsText_example =
    Screen.put_string-ShowsText striped console [] text (new_console-IsValid red blue)
      (new_console-ShowsText striped red blue) (pos 2) (pos 3)

abbrev cursor : MouseCursor × Drawing
cursor = new_mouse_cursor blue corner

abbrev reports : List (ℕ × ℕ)
reports = (5, 254) ∷ (250, 7) ∷ []

mouse_moves-ShowsCursor_example :
    ShowsCursorAt
      ((mouse_moves (cursor.0) reports).0)
      (cursor.1 ++ (mouse_moves (cursor.0) reports).1)
      (pos 6)
      (pos 6)
mouse_moves-ShowsCursor_example =
    Trail.mouse_moves-ShowsCursor (cursor.0) (cursor.1) reports
      (new_mouse_cursor-ShowsCursor blue corner) (pos 6) (pos 6)

abbrev other_xhc : Device
other_xhc = record {
  bus = 0;
  device = 1;
  function = 0;
  header_type = 0;
  class_code = record { base = 0x0c; sub = 0x03; interface = 0x30 };
}

abbrev intel_xhc : Device
intel_xhc = record other_xhc { device = 2 }

-- Only device 2 is one of Intel.
abbrev window : Window
window k = if k == 0x4010010000 then 0x8086 else 0x1b36

find_xhc_lem_example :
    ((d : Device) × Among d (other_xhc ∷ intel_xhc ∷ [])
      × IsXhc window d
      × (find_xhc window (other_xhc ∷ intel_xhc ∷ []) none ≡ some d)
      × (IsIntel window d ⊎ NoneIntel window (other_xhc ∷ intel_xhc ∷ [])))
    ⊎ (NoneXhc window (other_xhc ∷ intel_xhc ∷ [])
        × (find_xhc window (other_xhc ∷ intel_xhc ∷ []) none ≡ none))
find_xhc_lem_example = FindXhc.find_xhc_lem window (other_xhc ∷ intel_xhc ∷ [])

intel_chosen : find_xhc window (other_xhc ∷ intel_xhc ∷ []) none ≡ some intel_xhc
unfolding find_xhc read_vendor_id read_register make_ecam_address
intel_chosen = refl
