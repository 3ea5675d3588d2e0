-- ===== src/Registers/Iman.antt =====
-- `union IMAN_Bitmap` of kernel/usb/xhci/registers.hpp: the fields of a 32-bit register value.
use mikanos_aarch.Prelude.{ℕ}
use mikanos_aarch.Bitfield.{get_bits, set_bits}

abbrev pub interrupt_pending : ℕ → ℕ
interrupt_pending w = get_bits w 0 1

abbrev pub set_interrupt_pending : ℕ → ℕ → ℕ
set_interrupt_pending w v = set_bits w 0 1 v

abbrev pub interrupt_enable : ℕ → ℕ
interrupt_enable w = get_bits w 1 1

abbrev pub set_interrupt_enable : ℕ → ℕ → ℕ
set_interrupt_enable w v = set_bits w 1 1 v
