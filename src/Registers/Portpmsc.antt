-- ===== src/Registers/Portpmsc.antt =====
-- `union PORTPMSC_Bitmap` of kernel/usb/xhci/registers.hpp: the fields of a 32-bit register value.
use mikanos_aarch.Prelude.{ℕ}
use mikanos_aarch.Bitfield.{get_bits, set_bits}

abbrev pub u1_timeout : ℕ → ℕ
u1_timeout w = get_bits w 0 8

abbrev pub set_u1_timeout : ℕ → ℕ → ℕ
set_u1_timeout w v = set_bits w 0 8 v

abbrev pub u2_timeout : ℕ → ℕ
u2_timeout w = get_bits w 8 8

abbrev pub set_u2_timeout : ℕ → ℕ → ℕ
set_u2_timeout w v = set_bits w 8 8 v

abbrev pub force_link_pm_accept : ℕ → ℕ
force_link_pm_accept w = get_bits w 16 1

abbrev pub set_force_link_pm_accept : ℕ → ℕ → ℕ
set_force_link_pm_accept w v = set_bits w 16 1 v
