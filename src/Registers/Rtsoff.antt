-- ===== src/Registers/Rtsoff.antt =====
-- `union RTSOFF_Bitmap` of kernel/usb/xhci/registers.hpp: the fields of a 32-bit register value.
use mikanos_aarch.Prelude.{ℕ, ◌*◌, ◌%◌, ◌^◌}
use mikanos_aarch.Bitfield.{get_bits, set_bits}

abbrev pub runtime_register_space_offset : ℕ → ℕ
runtime_register_space_offset w = get_bits w 5 27

abbrev pub set_runtime_register_space_offset : ℕ → ℕ → ℕ
set_runtime_register_space_offset w v = set_bits w 5 27 v

abbrev pub offset : ℕ → ℕ
offset w = runtime_register_space_offset w * 2 ^ 5 % 2 ^ 32
