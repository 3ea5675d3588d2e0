-- ===== src/Registers/Imod.antt =====
-- `union IMOD_Bitmap` of kernel/usb/xhci/registers.hpp: the fields of a 32-bit register value.
use mikanos_aarch.Prelude.{ℕ}
use mikanos_aarch.Bitfield.{get_bits, set_bits}

abbrev pub interrupt_moderation_interval : ℕ → ℕ
interrupt_moderation_interval w = get_bits w 0 16

abbrev pub set_interrupt_moderation_interval : ℕ → ℕ → ℕ
set_interrupt_moderation_interval w v = set_bits w 0 16 v

abbrev pub interrupt_moderation_counter : ℕ → ℕ
interrupt_moderation_counter w = get_bits w 16 16

abbrev pub set_interrupt_moderation_counter : ℕ → ℕ → ℕ
set_interrupt_moderation_counter w v = set_bits w 16 16 v
