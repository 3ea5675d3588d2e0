-- ===== src/FrameBuffer.antt =====
-- kernel/frame_buffer_config.hpp: what the boot loader tells of the frame buffer.
use mikanos_aarch.Prelude.{ℕ}

-- `PixelFormat`.
pub data PixelFormat : Type 0 where
  rgb_resv8_bit_per_color bgr_resv8_bit_per_color : PixelFormat

-- `FrameBufferConfig`; `frame_buffer` is an address.
pub record FrameBufferConfig : Type 0 where
  pub frame_buffer : ℕ
  pub pixels_per_scan_line : ℕ
  pub horizontal_resolution : ℕ
  pub vertical_resolution : ℕ
  pub pixel_format : PixelFormat
