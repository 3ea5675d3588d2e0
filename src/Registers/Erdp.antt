-- ===== src/Registers/Erdp.antt =====
-- `union ERDP_Bitmap` of kernel/usb/xhci/registers.hpp: the fields of a 64-bit register value.
use mikanos_aarch.Prelude.{ℕ, ◌*◌, ◌/◌, ◌%◌, ◌^◌}
use mikanos_aarch.Bitfield.{get_bits, set_bits}

abbrev pub dequeue_erst_segment_index : ℕ → ℕ
dequeue_erst_segment_index w = get_bits w 0 3

abbrev pub set_dequeue_erst_segment_index : ℕ → ℕ → ℕ
set_dequeue_erst_segment_index w v = set_bits w 0 3 v

abbrev pub event_handler_busy : ℕ → ℕ
event_handler_busy w = get_bits w 3 1

abbrev pub set_event_handler_busy : ℕ → ℕ → ℕ
set_event_handler_busy w v = set_bits w 3 1 v

abbrev pub event_ring_dequeue_pointer : ℕ → ℕ
event_ring_dequeue_pointer w = get_bits w 4 60

abbrev pub set_event_ring_dequeue_pointer : ℕ → ℕ → ℕ
set_event_ring_dequeue_pointer w v = set_bits w 4 60 v

abbrev pub pointer : ℕ → ℕ
pointer w = event_ring_dequeue_pointer w * 2 ^ 4 % 2 ^ 64

abbrev pub set_pointer : ℕ → ℕ → ℕ
set_pointer w value = set_event_ring_dequeue_pointer w (value / 2 ^ 4)
