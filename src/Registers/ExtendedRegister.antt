-- ===== src/Registers/ExtendedRegister.antt =====
-- `union ExtendedRegister_Bitmap` of kernel/usb/xhci/registers.hpp: the fields of a 32-bit register value.
use mikanos_aarch.Prelude.{ℕ}
use mikanos_aarch.Bitfield.{get_bits, set_bits}

abbrev pub capability_id : ℕ → ℕ
capability_id w = get_bits w 0 8

abbrev pub set_capability_id : ℕ → ℕ → ℕ
set_capability_id w v = set_bits w 0 8 v

abbrev pub next_pointer : ℕ → ℕ
next_pointer w = get_bits w 8 8

abbrev pub set_next_pointer : ℕ → ℕ → ℕ
set_next_pointer w v = set_bits w 8 8 v

abbrev pub value : ℕ → ℕ
value w = get_bits w 16 16

abbrev pub set_value : ℕ → ℕ → ℕ
set_value w v = set_bits w 16 16 v
