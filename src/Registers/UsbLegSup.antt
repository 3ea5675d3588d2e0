-- ===== src/Registers/UsbLegSup.antt =====
-- `union USBLEGSUP_Bitmap` of kernel/usb/xhci/registers.hpp: the fields of a 32-bit register value.
use mikanos_aarch.Prelude.{ℕ}
use mikanos_aarch.Bitfield.{get_bits, set_bits}

abbrev pub capability_id : ℕ → ℕ
capability_id w = get_bits w 0 8

abbrev pub set_capability_id : ℕ → ℕ → ℕ
set_capability_id w v = set_bits w 0 8 v

abbrev pub next_pointer : ℕ → ℕ
next_pointer w = get_bits w 8 8

abbrev pub set_next_pointer : ℕ → ℕ → ℕ
set_next_pointer w v = set_bits w 8 8 v

abbrev pub hc_bios_owned_semaphore : ℕ → ℕ
hc_bios_owned_semaphore w = get_bits w 16 1

abbrev pub set_hc_bios_owned_semaphore : ℕ → ℕ → ℕ
set_hc_bios_owned_semaphore w v = set_bits w 16 1 v

abbrev pub hc_os_owned_semaphore : ℕ → ℕ
hc_os_owned_semaphore w = get_bits w 24 1

abbrev pub set_hc_os_owned_semaphore : ℕ → ℕ → ℕ
set_hc_os_owned_semaphore w v = set_bits w 24 1 v
