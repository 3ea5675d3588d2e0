-- ===== src/Trb/DataStageTrb.antt =====
-- `union DataStageTRB` of kernel/usb/xhci/trb.hpp.
use mikanos_aarch.Prelude.{ℕ, Bool, to_bit}
use mikanos_aarch.Bitfield.{get_bits, set_bits}
use mikanos_aarch.Trb.{Trb, zero_trb, parameter, set_parameter, set_trb_type}

abbrev pub type : ℕ
type = 3

-- The constructor.
abbrev pub new : Trb
new = set_trb_type zero_trb type

abbrev pub pointer : Trb → ℕ
pointer = parameter

abbrev pub set_pointer : Trb → ℕ → Trb
set_pointer = set_parameter

abbrev pub trb_transfer_length : Trb → ℕ
trb_transfer_length t = get_bits t.data2 0 17

abbrev pub set_trb_transfer_length : Trb → ℕ → Trb
set_trb_transfer_length t v = record t { data2 = set_bits t.data2 0 17 v }

abbrev pub td_size : Trb → ℕ
td_size t = get_bits t.data2 17 5

abbrev pub set_td_size : Trb → ℕ → Trb
set_td_size t v = record t { data2 = set_bits t.data2 17 5 v }

abbrev pub interrupt_on_completion : Trb → ℕ
interrupt_on_completion t = get_bits t.data3 5 1

abbrev pub set_interrupt_on_completion : Trb → Bool → Trb
set_interrupt_on_completion t b = record t { data3 = set_bits t.data3 5 1 (to_bit b) }

abbrev pub direction : Trb → ℕ
direction t = get_bits t.data3 16 1

abbrev pub set_direction : Trb → Bool → Trb
set_direction t b = record t { data3 = set_bits t.data3 16 1 (to_bit b) }
