-- ===== src/Trb/CommandCompletionEventTrb.antt =====
-- `union CommandCompletionEventTRB` of kernel/usb/xhci/trb.hpp.
use mikanos_aarch.Prelude.{ℕ}
use mikanos_aarch.Bitfield.{get_bits, set_bits}
use mikanos_aarch.Trb.{Trb, zero_trb, pointer60, set_pointer60, set_trb_type}

abbrev pub type : ℕ
type = 33

-- The constructor.
abbrev pub new : Trb
new = set_trb_type zero_trb type

abbrev pub pointer : Trb → ℕ
pointer = pointer60

abbrev pub set_pointer : Trb → ℕ → Trb
set_pointer = set_pointer60

abbrev pub command_completion_parameter : Trb → ℕ
command_completion_parameter t = get_bits t.data2 0 24

abbrev pub set_command_completion_parameter : Trb → ℕ → Trb
set_command_completion_parameter t v = record t { data2 = set_bits t.data2 0 24 v }

abbrev pub completion_code : Trb → ℕ
completion_code t = get_bits t.data2 24 8

abbrev pub set_completion_code : Trb → ℕ → Trb
set_completion_code t v = record t { data2 = set_bits t.data2 24 8 v }

abbrev pub vf_id : Trb → ℕ
vf_id t = get_bits t.data3 16 8

abbrev pub set_vf_id : Trb → ℕ → Trb
set_vf_id t v = record t { data3 = set_bits t.data3 16 8 v }
