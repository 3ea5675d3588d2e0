-- ===== src/Registers/HcsParams1.antt =====
-- `union HCSPARAMS1_Bitmap` of kernel/usb/xhci/registers.hpp: the fields of a 32-bit register value.
use mikanos_aarch.Prelude.{ℕ}
use mikanos_aarch.Bitfield.{get_bits, set_bits}

abbrev pub max_device_slots : ℕ → ℕ
max_device_slots w = get_bits w 0 8

abbrev pub set_max_device_slots : ℕ → ℕ → ℕ
set_max_device_slots w v = set_bits w 0 8 v

abbrev pub max_interrupters : ℕ → ℕ
max_interrupters w = get_bits w 8 11

abbrev pub set_max_interrupters : ℕ → ℕ → ℕ
set_max_interrupters w v = set_bits w 8 11 v

abbrev pub max_ports : ℕ → ℕ
max_ports w = get_bits w 24 8

abbrev pub set_max_ports : ℕ → ℕ → ℕ
set_max_ports w v = set_bits w 24 8 v
