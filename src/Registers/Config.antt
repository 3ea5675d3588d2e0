-- ===== src/Registers/Config.antt =====
-- `union CONFIG_Bitmap` of kernel/usb/xhci/registers.hpp: the fields of a 32-bit register value.
use mikanos_aarch.Prelude.{ℕ}
use mikanos_aarch.Bitfield.{get_bits, set_bits}

abbrev pub max_device_slots_enabled : ℕ → ℕ
max_device_slots_enabled w = get_bits w 0 8

abbrev pub set_max_device_slots_enabled : ℕ → ℕ → ℕ
set_max_device_slots_enabled w v = set_bits w 0 8 v

abbrev pub u3_entry_enable : ℕ → ℕ
u3_entry_enable w = get_bits w 8 1

abbrev pub set_u3_entry_enable : ℕ → ℕ → ℕ
set_u3_entry_enable w v = set_bits w 8 1 v

abbrev pub configuration_information_enable : ℕ → ℕ
configuration_information_enable w = get_bits w 9 1

abbrev pub set_configuration_information_enable : ℕ → ℕ → ℕ
set_configuration_information_enable w v = set_bits w 9 1 v
