-- ===== src/Trb/StopEndpointCommandTrb.antt =====
-- `union StopEndpointCommandTRB` of kernel/usb/xhci/trb.hpp.
use mikanos_aarch.Prelude.{ℕ, Bool, to_bit}
use mikanos_aarch.Bitfield.{get_bits, set_bits}
use mikanos_aarch.Trb.{Trb, zero_trb, set_trb_type, set_slot_id}

abbrev pub type : ℕ
type = 15

abbrev pub endpoint_id : Trb → ℕ
endpoint_id t = get_bits t.data3 16 5

abbrev pub set_endpoint_id : Trb → ℕ → Trb
set_endpoint_id t v = record t { data3 = set_bits t.data3 16 5 v }

abbrev pub suspend : Trb → ℕ
suspend t = get_bits t.data3 23 1

abbrev pub set_suspend : Trb → Bool → Trb
set_suspend t b = record t { data3 = set_bits t.data3 23 1 (to_bit b) }

-- The constructor, with the endpoint's address and the slot.
abbrev pub new : ℕ → ℕ → Trb
new endpoint slot = set_slot_id (set_endpoint_id (set_trb_type zero_trb type) endpoint) slot
