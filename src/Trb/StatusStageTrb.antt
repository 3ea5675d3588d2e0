-- ===== src/Trb/StatusStageTrb.antt =====
-- `union StatusStageTRB` of kernel/usb/xhci/trb.hpp.
use mikanos_aarch.Prelude.{ℕ, Bool, to_bit}
use mikanos_aarch.Bitfield.{get_bits, set_bits}
use mikanos_aarch.Trb.{Trb, zero_trb, set_trb_type}

abbrev pub type : ℕ
type = 4

-- The constructor.
abbrev pub new : Trb
new = set_trb_type zero_trb type

abbrev pub interrupt_on_completion : Trb → ℕ
interrupt_on_completion t = get_bits t.data3 5 1

abbrev pub set_interrupt_on_completion : Trb → Bool → Trb
set_interrupt_on_completion t b = record t { data3 = set_bits t.data3 5 1 (to_bit b) }

abbrev pub direction : Trb → ℕ
direction t = get_bits t.data3 16 1

abbrev pub set_direction : Trb → Bool → Trb
set_direction t b = record t { data3 = set_bits t.data3 16 1 (to_bit b) }
