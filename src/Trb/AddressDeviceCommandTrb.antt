-- ===== src/Trb/AddressDeviceCommandTrb.antt =====
-- `union AddressDeviceCommandTRB` of kernel/usb/xhci/trb.hpp.
use mikanos_aarch.Prelude.{ℕ, Bool, to_bit}
use mikanos_aarch.Bitfield.{get_bits, set_bits}
use mikanos_aarch.Trb.{Trb, zero_trb, pointer60, set_pointer60, set_trb_type, set_slot_id}

abbrev pub type : ℕ
type = 11

abbrev pub pointer : Trb → ℕ
pointer = pointer60

abbrev pub set_pointer : Trb → ℕ → Trb
set_pointer = set_pointer60

-- The constructor, with the input context's address and the slot.
abbrev pub new : ℕ → ℕ → Trb
new input_context slot = set_pointer (set_slot_id (set_trb_type zero_trb type) slot) input_context

abbrev pub block_set_address_request : Trb → ℕ
block_set_address_request t = get_bits t.data3 9 1

abbrev pub set_block_set_address_request : Trb → Bool → Trb
set_block_set_address_request t b = record t { data3 = set_bits t.data3 9 1 (to_bit b) }
