-- ===== src/Trb/PortStatusChangeEventTrb.antt =====
-- `union PortStatusChangeEventTRB` of kernel/usb/xhci/trb.hpp.
use mikanos_aarch.Prelude.{ℕ}
use mikanos_aarch.Bitfield.{get_bits, set_bits}
use mikanos_aarch.Trb.{Trb, zero_trb, set_trb_type}

abbrev pub type : ℕ
type = 34

-- The constructor.
abbrev pub new : Trb
new = set_trb_type zero_trb type

abbrev pub port_id : Trb → ℕ
port_id t = get_bits t.data0 24 8

abbrev pub set_port_id : Trb → ℕ → Trb
set_port_id t v = record t { data0 = set_bits t.data0 24 8 v }

abbrev pub completion_code : Trb → ℕ
completion_code t = get_bits t.data2 24 8

abbrev pub set_completion_code : Trb → ℕ → Trb
set_completion_code t v = record t { data2 = set_bits t.data2 24 8 v }
