-- ===== src/Registers/Erstsz.antt =====
-- `union ERSTSZ_Bitmap` of kernel/usb/xhci/registers.hpp: the fields of a 32-bit register value.
use mikanos_aarch.Prelude.{ℕ}
use mikanos_aarch.Bitfield.{get_bits, set_bits}

abbrev pub event_ring_segment_table_size : ℕ → ℕ
event_ring_segment_table_size w = get_bits w 0 16

abbrev pub set_event_ring_segment_table_size : ℕ → ℕ → ℕ
set_event_ring_segment_table_size w v = set_bits w 0 16 v
