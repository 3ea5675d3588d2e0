-- ===== src/Registers/HcsParams2.antt =====
-- `union HCSPARAMS2_Bitmap` of kernel/usb/xhci/registers.hpp: the fields of a 32-bit register value.
use mikanos_aarch.Prelude.{ℕ}
use mikanos_aarch.Bitfield.{get_bits, set_bits}

abbrev pub isochronous_scheduling_threshold : ℕ → ℕ
isochronous_scheduling_threshold w = get_bits w 0 4

abbrev pub set_isochronous_scheduling_threshold : ℕ → ℕ → ℕ
set_isochronous_scheduling_threshold w v = set_bits w 0 4 v

abbrev pub event_ring_segment_table_max : ℕ → ℕ
event_ring_segment_table_max w = get_bits w 4 4

abbrev pub set_event_ring_segment_table_max : ℕ → ℕ → ℕ
set_event_ring_segment_table_max w v = set_bits w 4 4 v

abbrev pub max_scratchpad_buffers_high : ℕ → ℕ
max_scratchpad_buffers_high w = get_bits w 21 5

abbrev pub set_max_scratchpad_buffers_high : ℕ → ℕ → ℕ
set_max_scratchpad_buffers_high w v = set_bits w 21 5 v

abbrev pub scratchpad_restore : ℕ → ℕ
scratchpad_restore w = get_bits w 26 1

abbrev pub set_scratchpad_restore : ℕ → ℕ → ℕ
set_scratchpad_restore w v = set_bits w 26 1 v

abbrev pub max_scratchpad_buffers_low : ℕ → ℕ
max_scratchpad_buffers_low w = get_bits w 27 5

abbrev pub set_max_scratchpad_buffers_low : ℕ → ℕ → ℕ
set_max_scratchpad_buffers_low w v = set_bits w 27 5 v
