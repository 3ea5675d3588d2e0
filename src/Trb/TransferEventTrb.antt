-- ===== src/Trb/TransferEventTrb.antt =====
-- `union TransferEventTRB` of kernel/usb/xhci/trb.hpp.
use mikanos_aarch.Prelude.{ℕ}
use mikanos_aarch.Bitfield.{get_bits, set_bits}
use mikanos_aarch.Trb.{Trb, zero_trb, parameter, set_parameter, set_trb_type}

abbrev pub type : ℕ
type = 32

-- The constructor.
abbrev pub new : Trb
new = set_trb_type zero_trb type

abbrev pub pointer : Trb → ℕ
pointer = parameter

abbrev pub set_pointer : Trb → ℕ → Trb
set_pointer = set_parameter

abbrev pub trb_transfer_length : Trb → ℕ
trb_transfer_length t = get_bits t.data2 0 24

abbrev pub set_trb_transfer_length : Trb → ℕ → Trb
set_trb_transfer_length t v = record t { data2 = set_bits t.data2 0 24 v }

abbrev pub completion_code : Trb → ℕ
completion_code t = get_bits t.data2 24 8

abbrev pub set_completion_code : Trb → ℕ → Trb
set_completion_code t v = record t { data2 = set_bits t.data2 24 8 v }

abbrev pub event_data : Trb → ℕ
event_data t = get_bits t.data3 2 1

abbrev pub set_event_data : Trb → ℕ → Trb
set_event_data t v = record t { data3 = set_bits t.data3 2 1 v }

abbrev pub endpoint_id : Trb → ℕ
endpoint_id t = get_bits t.data3 16 5

abbrev pub set_endpoint_id : Trb → ℕ → Trb
set_endpoint_id t v = record t { data3 = set_bits t.data3 16 5 v }
