-- ===== src/Trb/EnableSlotCommandTrb.antt =====
-- `union EnableSlotCommandTRB` of kernel/usb/xhci/trb.hpp.
use mikanos_aarch.Prelude.{ℕ}
use mikanos_aarch.Bitfield.{get_bits, set_bits}
use mikanos_aarch.Trb.{Trb, zero_trb, set_trb_type}

abbrev pub type : ℕ
type = 9

-- The constructor.
abbrev pub new : Trb
new = set_trb_type zero_trb type

abbrev pub slot_type : Trb → ℕ
slot_type t = get_bits t.data3 16 5

abbrev pub set_slot_type : Trb → ℕ → Trb
set_slot_type t v = record t { data3 = set_bits t.data3 16 5 v }
