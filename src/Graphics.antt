-- ===== src/Graphics.antt =====
-- kernel/graphics.hpp and graphics.cpp: pixels in the frame buffer. A drawing is the list of the calls
-- of `PixelWriter::Write` that a function makes, in order; a writer of either format turns each call
-- into bytes of memory.
pub mod Shows
pub mod Rectangle
pub mod Memory
pub mod Layers
pub mod Frame
use mikanos_aarch.Prelude.{
  ℕ, zero, suc, ◌+◌, ◌-◌, ◌*◌, ◌%◌, ◌^◌, Bool, true, false, ◌&&◌, List, [], ◌∷◌, ◌++◌, Option, none,
  some, ◌==◌, if◌then◌else◌,
}
use mikanos_aarch.Prelude.Int.{ℤ, pos, negsuc, pos_part, neg_part, ◌+ℤ◌}
use mikanos_aarch.FrameBuffer.{
  FrameBufferConfig, PixelFormat, rgb_resv8_bit_per_color, bgr_resv8_bit_per_color,
}

-- `PixelColor`.
pub record PixelColor : Type 0 where
  pub r : ℕ
  pub g : ℕ
  pub b : ℕ

-- `Vector2D<int>`; an `int` is an integer, and coordinates are small enough for sums not to overflow.
pub record Vector2D : Type 0 where
  pub x : ℤ
  pub y : ℤ

-- `Vector2D::operator +=`.
unfoldable pub add_vector : Vector2D → Vector2D → Vector2D
add_vector p q = record { x = p.x +ℤ q.x; y = p.y +ℤ q.y }

-- A call `Write(x, y, c)`.
pub record Write : Type 0 where
  pub x : ℤ
  pub y : ℤ
  pub color : PixelColor

abbrev pub Drawing : Type 0
Drawing = List Write

-- An `int` as a `uint32_t`.
abbrev pub to_uint32 : ℤ → ℕ
to_uint32 (pos n) = n % 2 ^ 32
to_uint32 (negsuc n) = 2 ^ 32 - 1 - n % 2 ^ 32

-- `PixelAt`; `pixels_per_scan_line` is a `uint32_t`, so the offset is computed in 32 bits.
unfoldable pub pixel_at : FrameBufferConfig → ℤ → ℤ → ℕ
pixel_at config x y =
    config.frame_buffer
    + 4 * ((config.pixels_per_scan_line * to_uint32 y + to_uint32 x) % 2 ^ 32) % 2 ^ 32

-- Memory, as the byte at each address.
abbrev pub Bytes : Type 0
Bytes = ℕ → ℕ

unfoldable pub poke : Bytes → ℕ → ℕ → Bytes
poke memory at v b = if b == at then v else memory b

-- The bytes in the order of `RGBResv8BitPerColorPixelWriter::Write`.
unfoldable pub write_rgb : FrameBufferConfig → Bytes → Write → Bytes
unfolding pixel_at poke
write_rgb config memory w =
    let p = pixel_at config w.x w.y in
    poke (poke (poke memory p w.color.r) (p + 1) w.color.g) (p + 2) w.color.b

-- The same of `BGRResv8BitPerColorPixelWriter::Write`.
unfoldable pub write_bgr : FrameBufferConfig → Bytes → Write → Bytes
unfolding pixel_at poke
write_bgr config memory w =
    let p = pixel_at config w.x w.y in
    poke (poke (poke memory p w.color.b) (p + 1) w.color.g) (p + 2) w.color.r

-- The writer that `KernelMain` chooses.
unfoldable pub write : FrameBufferConfig → Bytes → Write → Bytes
unfolding write_rgb write_bgr
write config memory w = elim config.pixel_format [
  | rgb_resv8_bit_per_color ↦ write_rgb config memory w
  | bgr_resv8_bit_per_color ↦ write_bgr config memory w
]

-- A drawing, call by call.
unfoldable pub paint : FrameBufferConfig → Bytes → Drawing → Bytes
paint config memory [] = memory
paint config memory (w ∷ ws) = paint config (write config memory w) ws

-- A loop `for (int i = from; i < from + n; ++i)` over calls.
unfoldable pub for_range : ℕ → ℕ → (ℕ → Drawing) → Drawing
for_range zero from body = []
for_range (suc n) from body = body from ++ for_range n (from + 1) body

abbrev pub at : ℤ → ℤ → PixelColor → Write
at x y c = record { x = x; y = y; color = c }

-- `DrawRectangle`.
unfoldable pub draw_rectangle : Vector2D → Vector2D → PixelColor → Drawing
unfolding for_range
draw_rectangle p size c =
    for_range (pos_part size.x) 0
      (λ dx. at (p.x +ℤ pos dx) p.y c ∷ at (p.x +ℤ pos dx) (p.y +ℤ size.y +ℤ negsuc 0) c ∷ [])
    ++ for_range (pos_part size.y - 2) 1
        (λ dy. at p.x (p.y +ℤ pos dy) c ∷ at (p.x +ℤ size.x +ℤ negsuc 0) (p.y +ℤ pos dy) c ∷ [])

-- `FillRectangle`.
unfoldable pub fill_rectangle : Vector2D → Vector2D → PixelColor → Drawing
unfolding for_range
fill_rectangle p size c =
    for_range (pos_part size.y) 0
      λ dy. for_range (pos_part size.x) 0 λ dx. at (p.x +ℤ pos dx) (p.y +ℤ pos dy) c ∷ []
