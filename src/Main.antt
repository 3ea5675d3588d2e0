-- ===== src/Main.antt =====
-- kernel/main.cpp and logger.cpp: what `KernelMain` does around the controller. Its log lines are left
-- out.
pub mod FindXhc
pub mod Desktop
pub mod Probe
use mikanos_aarch.Prelude.{
  ℕ, zero, suc, ◌+◌, ◌-◌, ◌/◌, ◌%◌, ◌^◌, bit_and, bit_or, Bool, true, false, ◌&&◌, ◌||◌, List, [],
  ◌∷◌, ◌++◌, Option, none, some, ◌==◌, ltb, if◌then◌else◌,
}
use mikanos_aarch.Prelude.Int.{ℤ, pos, negsuc, ◌+ℤ◌}
use mikanos_aarch.Error.{Error, success, is_error}
use mikanos_aarch.FrameBuffer.{FrameBufferConfig}
use mikanos_aarch.Graphics.{PixelColor, Vector2D, Drawing, fill_rectangle, draw_rectangle}
use mikanos_aarch.Font.{FontData}
use mikanos_aarch.Console.{Console, put_string}
use mikanos_aarch.Pci.{Window, Device, match_interface, read_vendor_id, read_conf_reg}
use mikanos_aarch.Port.{is_connected}
use mikanos_aarch.Xhci.{Controller, PortReads, Ports, Outcome, configure_port}

abbrev pub desktop_bg_color : PixelColor
desktop_bg_color = record { r = 45; g = 118; b = 237 }

abbrev pub bar_color : PixelColor
bar_color = record { r = 1; g = 8; b = 17 }

abbrev pub start_color : PixelColor
start_color = record { r = 80; g = 80; b = 80 }

abbrev pub icon_color : PixelColor
icon_color = record { r = 160; g = 160; b = 160 }

abbrev pub vector : ℤ → ℤ → Vector2D
vector x y = record { x = x; y = y }

-- `LogLevel` of kernel/logger.hpp, as its numbers.
pub data LogLevel : Type 0 where
  error : LogLevel
  warn : LogLevel
  info : LogLevel
  debug : LogLevel

abbrev pub level_number : LogLevel → ℕ
level_number error = 3
level_number warn = 4
level_number info = 6
level_number debug = 7

-- `printk`, of the text that `vsprintf` gives.
unfoldable pub printk : FontData → Console → List ℕ → Console × Drawing
unfolding put_string
printk font console text = put_string font console text

-- `Log` of kernel/logger.cpp, at the level set.
unfoldable pub log : FontData → Console → LogLevel → LogLevel → List ℕ → Console × Drawing
unfolding put_string
log font console log_level level text =
    if ltb (level_number log_level) (level_number level)
    then (console, [])
    else put_string font console text

-- The rectangles of the desktop; the resolutions are small enough for an `int`.
unfoldable pub desktop : FrameBufferConfig → Drawing
unfolding fill_rectangle draw_rectangle
desktop config =
    let frame_width = config.horizontal_resolution in
    let frame_height = config.vertical_resolution in
    fill_rectangle (vector (pos 0) (pos 0))
      (vector (pos frame_width) (pos frame_height +ℤ negsuc 49)) desktop_bg_color
    ++ fill_rectangle (vector (pos 0) (pos frame_height +ℤ negsuc 49))
        (vector (pos frame_width) (pos 50)) bar_color
    ++ fill_rectangle (vector (pos 0) (pos frame_height +ℤ negsuc 49))
        (vector (pos (frame_width / 5)) (pos 50)) start_color
    ++ draw_rectangle (vector (pos 10) (pos frame_height +ℤ negsuc 39)) (vector (pos 30) (pos 30))
        icon_color

abbrev pub intel : ℕ
intel = 0x8086

module _ (w : Window) where
  abbrev pub is_xhc : Device → Bool
  is_xhc dev = match_interface dev.class_code 0x0c 0x03 0x30

  abbrev pub is_intel : Device → Bool
  is_intel dev = intel == read_vendor_id w dev.bus dev.device dev.function

  -- The loop of `KernelMain` over the devices, with the device found so far; none is `nullptr`.
  unfoldable pub find_xhc : List Device → Option Device → Option Device
  find_xhc [] found = found
  find_xhc (dev ∷ devs) found =
      let rest = find_xhc devs (some dev) in
      let skipped = find_xhc devs found in
      if is_xhc dev then (if is_intel dev then some dev else rest) else skipped

  -- The loop of `SwitchEhci2Xhci`.
  unfoldable pub intel_ehc_exist : List Device → Bool
  intel_ehc_exist [] = false
  intel_ehc_exist (dev ∷ devs) =
      match_interface dev.class_code 0x0c 0x03 0x20 && is_intel dev || intel_ehc_exist devs

-- `SwitchEhci2Xhci`: its writes to the configuration space of the xHC, each a register and a word, in
-- order. `w'` is what the registers read as after the first of them.
unfoldable pub switch_ehci_to_xhci : Window → Window → List Device → Device → List (ℕ × ℕ)
unfolding intel_ehc_exist read_conf_reg
switch_ehci_to_xhci w w' devs xhc_dev =
    if intel_ehc_exist w devs
    then (0xd8, read_conf_reg w xhc_dev 0xdc) ∷ (0xd0, read_conf_reg w' xhc_dev 0xd4) ∷ []
    else []

-- The word that `KernelMain` writes to the command register of the xHC, over the word that it reads.
unfoldable pub enabled_command : ℕ → ℕ
enabled_command command_reg = bit_or (bit_or (bit_or command_reg 0x1) 0x2) 0x4

-- `xhc_mmio_base`, of the base address register.
unfoldable pub mmio_base : ℕ → ℕ
mmio_base bar = bit_and bar (2 ^ 64 - 1 - 0xf)

-- The body of the loop over the ports: `plugged` is the PORTSC that it reads for `IsConnected`.
unfoldable pub probe_port : Controller → ℕ → ℕ → PortReads → Outcome
unfolding configure_port
probe_port c port plugged reads =
    if is_connected plugged then configure_port c port reads else some (c, success)

-- The loop over `n` ports from `port` on. It goes on after an error; the errors are logged, and here
-- listed.
unfoldable pub probe_ports : Controller → ℕ → ℕ → (ℕ → ℕ) → Ports → Option (Controller × List Error)
unfolding probe_port
probe_ports c zero port plugged reads = some (c, [])
probe_ports c (suc n) port plugged reads = elim (probe_port c port (plugged port) (reads port)) [
  | none ↦ none
  | some (c1, e) ↦ elim (probe_ports c1 n (port + 1) plugged reads) [
    | none ↦ none
    | some (c2, errors) ↦ some (c2, if is_error e then e ∷ errors else errors)
  ]
]
