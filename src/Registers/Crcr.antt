-- ===== src/Registers/Crcr.antt =====
-- `union CRCR_Bitmap` of kernel/usb/xhci/registers.hpp: the fields of a 64-bit register value.
use mikanos_aarch.Prelude.{ℕ, ◌*◌, ◌/◌, ◌%◌, ◌^◌}
use mikanos_aarch.Bitfield.{get_bits, set_bits}

abbrev pub ring_cycle_state : ℕ → ℕ
ring_cycle_state w = get_bits w 0 1

abbrev pub set_ring_cycle_state : ℕ → ℕ → ℕ
set_ring_cycle_state w v = set_bits w 0 1 v

abbrev pub command_stop : ℕ → ℕ
command_stop w = get_bits w 1 1

abbrev pub set_command_stop : ℕ → ℕ → ℕ
set_command_stop w v = set_bits w 1 1 v

abbrev pub command_abort : ℕ → ℕ
command_abort w = get_bits w 2 1

abbrev pub set_command_abort : ℕ → ℕ → ℕ
set_command_abort w v = set_bits w 2 1 v

abbrev pub command_ring_running : ℕ → ℕ
command_ring_running w = get_bits w 3 1

abbrev pub set_command_ring_running : ℕ → ℕ → ℕ
set_command_ring_running w v = set_bits w 3 1 v

abbrev pub command_ring_pointer : ℕ → ℕ
command_ring_pointer w = get_bits w 6 58

abbrev pub set_command_ring_pointer : ℕ → ℕ → ℕ
set_command_ring_pointer w v = set_bits w 6 58 v

abbrev pub pointer : ℕ → ℕ
pointer w = command_ring_pointer w * 2 ^ 6 % 2 ^ 64

abbrev pub set_pointer : ℕ → ℕ → ℕ
set_pointer w value = set_command_ring_pointer w (value / 2 ^ 6)
