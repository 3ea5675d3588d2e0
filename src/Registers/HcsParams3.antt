-- ===== src/Registers/HcsParams3.antt =====
-- `union HCSPARAMS3_Bitmap` of kernel/usb/xhci/registers.hpp: the fields of a 32-bit register value.
use mikanos_aarch.Prelude.{ℕ}
use mikanos_aarch.Bitfield.{get_bits, set_bits}

abbrev pub u1_device_eixt_latency : ℕ → ℕ
u1_device_eixt_latency w = get_bits w 0 8

abbrev pub set_u1_device_eixt_latency : ℕ → ℕ → ℕ
set_u1_device_eixt_latency w v = set_bits w 0 8 v

abbrev pub u2_device_eixt_latency : ℕ → ℕ
u2_device_eixt_latency w = get_bits w 16 16

abbrev pub set_u2_device_eixt_latency : ℕ → ℕ → ℕ
set_u2_device_eixt_latency w v = set_bits w 16 16 v
