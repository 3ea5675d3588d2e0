-- ===== src/Trb/LinkTrb.antt =====
-- `union LinkTRB` of kernel/usb/xhci/trb.hpp.
use mikanos_aarch.Prelude.{ℕ, Bool, to_bit}
use mikanos_aarch.Bitfield.{get_bits, set_bits}
use mikanos_aarch.Trb.{Trb, zero_trb, pointer60, set_pointer60, set_trb_type}

abbrev pub type : ℕ
type = 6

abbrev pub pointer : Trb → ℕ
pointer = pointer60

abbrev pub set_pointer : Trb → ℕ → Trb
set_pointer = set_pointer60

abbrev pub toggle_cycle : Trb → ℕ
toggle_cycle t = get_bits t.data3 1 1

abbrev pub set_toggle_cycle : Trb → Bool → Trb
set_toggle_cycle t b = record t { data3 = set_bits t.data3 1 1 (to_bit b) }

-- The constructor, with the segment's address.
abbrev pub new : ℕ → Trb
new p = set_pointer (set_trb_type zero_trb type) p
