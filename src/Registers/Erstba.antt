-- ===== src/Registers/Erstba.antt =====
-- `union ERSTBA_Bitmap` of kernel/usb/xhci/registers.hpp: the fields of a 64-bit register value.
use mikanos_aarch.Prelude.{ℕ, ◌*◌, ◌/◌, ◌%◌, ◌^◌}
use mikanos_aarch.Bitfield.{get_bits, set_bits}

abbrev pub event_ring_segment_table_base_address : ℕ → ℕ
event_ring_segment_table_base_address w = get_bits w 6 58

abbrev pub set_event_ring_segment_table_base_address : ℕ → ℕ → ℕ
set_event_ring_segment_table_base_address w v = set_bits w 6 58 v

abbrev pub pointer : ℕ → ℕ
pointer w = event_ring_segment_table_base_address w * 2 ^ 6 % 2 ^ 64

abbrev pub set_pointer : ℕ → ℕ → ℕ
set_pointer w value = set_event_ring_segment_table_base_address w (value / 2 ^ 6)
