-- ===== src/Registers/Dboff.antt =====
-- `union DBOFF_Bitmap` of kernel/usb/xhci/registers.hpp: the fields of a 32-bit register value.
use mikanos_aarch.Prelude.{ℕ, ◌*◌, ◌%◌, ◌^◌}
use mikanos_aarch.Bitfield.{get_bits, set_bits}

abbrev pub doorbell_array_offset : ℕ → ℕ
doorbell_array_offset w = get_bits w 2 30

abbrev pub set_doorbell_array_offset : ℕ → ℕ → ℕ
set_doorbell_array_offset w v = set_bits w 2 30 v

abbrev pub offset : ℕ → ℕ
offset w = doorbell_array_offset w * 2 ^ 2 % 2 ^ 32
