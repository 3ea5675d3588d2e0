-- ===== src/Context/EndpointContext.antt =====
-- `union EndpointContext` of kernel/usb/xhci/context.hpp, with its fields at their words and bits.
use mikanos_aarch.Prelude.{ℕ, ◌+◌, ◌*◌, ◌/◌, ◌%◌, ◌^◌, get_or, set}
use mikanos_aarch.Bitfield.{get_bits, set_bits}
use mikanos_aarch.Context.{Words}

abbrev pub ep_state : Words → ℕ
ep_state c = get_bits (get_or c 0 0) 0 3

abbrev pub set_ep_state : Words → ℕ → Words
set_ep_state c v = set c 0 (set_bits (get_or c 0 0) 0 3 v)

abbrev pub mult : Words → ℕ
mult c = get_bits (get_or c 0 0) 8 2

abbrev pub set_mult : Words → ℕ → Words
set_mult c v = set c 0 (set_bits (get_or c 0 0) 8 2 v)

abbrev pub max_primary_streams : Words → ℕ
max_primary_streams c = get_bits (get_or c 0 0) 10 5

abbrev pub set_max_primary_streams : Words → ℕ → Words
set_max_primary_streams c v = set c 0 (set_bits (get_or c 0 0) 10 5 v)

abbrev pub linear_stream_array : Words → ℕ
linear_stream_array c = get_bits (get_or c 0 0) 15 1

abbrev pub set_linear_stream_array : Words → ℕ → Words
set_linear_stream_array c v = set c 0 (set_bits (get_or c 0 0) 15 1 v)

abbrev pub interval : Words → ℕ
interval c = get_bits (get_or c 0 0) 16 8

abbrev pub set_interval : Words → ℕ → Words
set_interval c v = set c 0 (set_bits (get_or c 0 0) 16 8 v)

abbrev pub max_esit_payload_hi : Words → ℕ
max_esit_payload_hi c = get_bits (get_or c 0 0) 24 8

abbrev pub set_max_esit_payload_hi : Words → ℕ → Words
set_max_esit_payload_hi c v = set c 0 (set_bits (get_or c 0 0) 24 8 v)

abbrev pub error_count : Words → ℕ
error_count c = get_bits (get_or c 1 0) 1 2

abbrev pub set_error_count : Words → ℕ → Words
set_error_count c v = set c 1 (set_bits (get_or c 1 0) 1 2 v)

abbrev pub ep_type : Words → ℕ
ep_type c = get_bits (get_or c 1 0) 3 3

abbrev pub set_ep_type : Words → ℕ → Words
set_ep_type c v = set c 1 (set_bits (get_or c 1 0) 3 3 v)

abbrev pub host_initiate_disable : Words → ℕ
host_initiate_disable c = get_bits (get_or c 1 0) 7 1

abbrev pub set_host_initiate_disable : Words → ℕ → Words
set_host_initiate_disable c v = set c 1 (set_bits (get_or c 1 0) 7 1 v)

abbrev pub max_burst_size : Words → ℕ
max_burst_size c = get_bits (get_or c 1 0) 8 8

abbrev pub set_max_burst_size : Words → ℕ → Words
set_max_burst_size c v = set c 1 (set_bits (get_or c 1 0) 8 8 v)

abbrev pub max_packet_size : Words → ℕ
max_packet_size c = get_bits (get_or c 1 0) 16 16

abbrev pub set_max_packet_size : Words → ℕ → Words
set_max_packet_size c v = set c 1 (set_bits (get_or c 1 0) 16 16 v)

abbrev pub dequeue_cycle_state : Words → ℕ
dequeue_cycle_state c = get_bits (get_or c 2 0) 0 1

abbrev pub set_dequeue_cycle_state : Words → ℕ → Words
set_dequeue_cycle_state c v = set c 2 (set_bits (get_or c 2 0) 0 1 v)

abbrev pub average_trb_length : Words → ℕ
average_trb_length c = get_bits (get_or c 4 0) 0 16

abbrev pub set_average_trb_length : Words → ℕ → Words
set_average_trb_length c v = set c 4 (set_bits (get_or c 4 0) 0 16 v)

abbrev pub max_esit_payload_lo : Words → ℕ
max_esit_payload_lo c = get_bits (get_or c 4 0) 16 16

abbrev pub set_max_esit_payload_lo : Words → ℕ → Words
set_max_esit_payload_lo c v = set c 4 (set_bits (get_or c 4 0) 16 16 v)

-- The words 2 and 3 as one 64-bit number, the low word first.
abbrev pub dequeue_words : Words → ℕ
dequeue_words c = get_or c 2 0 + get_or c 3 0 * 2 ^ 32

abbrev pub tr_dequeue_pointer : Words → ℕ
tr_dequeue_pointer c = get_bits (dequeue_words c) 4 60

abbrev pub set_tr_dequeue_pointer : Words → ℕ → Words
set_tr_dequeue_pointer c v =
    let w = set_bits (dequeue_words c) 4 60 v in set (set c 2 (w % 2 ^ 32)) 3 (w / 2 ^ 32 % 2 ^ 32)

-- `TransferRingBuffer`; a 60-bit bit-field shifts as a 64-bit number.
abbrev pub transfer_ring_buffer : Words → ℕ
transfer_ring_buffer c = tr_dequeue_pointer c * 2 ^ 4 % 2 ^ 64

-- `SetTransferRingBuffer`.
abbrev pub set_transfer_ring_buffer : Words → ℕ → Words
set_transfer_ring_buffer c buffer = set_tr_dequeue_pointer c (buffer / 2 ^ 4)
