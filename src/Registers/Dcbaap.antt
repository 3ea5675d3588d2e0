-- ===== src/Registers/Dcbaap.antt =====
-- `union DCBAAP_Bitmap` of kernel/usb/xhci/registers.hpp: the fields of a 64-bit register value.
use mikanos_aarch.Prelude.{ℕ, ◌/◌, ◌^◌}
use mikanos_aarch.Bitfield.{get_bits, set_bits}

abbrev pub device_context_base_address_array_pointer : ℕ → ℕ
device_context_base_address_array_pointer w = get_bits w 6 26

abbrev pub set_device_context_base_address_array_pointer : ℕ → ℕ → ℕ
set_device_context_base_address_array_pointer w v = set_bits w 6 26 v

abbrev pub set_pointer : ℕ → ℕ → ℕ
set_pointer w value = set_device_context_base_address_array_pointer w (value / 2 ^ 6)
