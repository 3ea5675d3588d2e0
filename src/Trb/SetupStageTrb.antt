-- ===== src/Trb/SetupStageTrb.antt =====
-- `union SetupStageTRB` of kernel/usb/xhci/trb.hpp.
use mikanos_aarch.Prelude.{ℕ, Bool, to_bit, true}
use mikanos_aarch.Bitfield.{get_bits, set_bits}
use mikanos_aarch.Trb.{Trb, zero_trb, set_trb_type}

abbrev pub type : ℕ
type = 2

abbrev pub no_data_stage : ℕ
no_data_stage = 0

abbrev pub out_data_stage : ℕ
out_data_stage = 2

abbrev pub in_data_stage : ℕ
in_data_stage = 3

abbrev pub request_type : Trb → ℕ
request_type t = get_bits t.data0 0 8

abbrev pub set_request_type : Trb → ℕ → Trb
set_request_type t v = record t { data0 = set_bits t.data0 0 8 v }

abbrev pub request : Trb → ℕ
request t = get_bits t.data0 8 8

abbrev pub set_request : Trb → ℕ → Trb
set_request t v = record t { data0 = set_bits t.data0 8 8 v }

abbrev pub value : Trb → ℕ
value t = get_bits t.data0 16 16

abbrev pub set_value : Trb → ℕ → Trb
set_value t v = record t { data0 = set_bits t.data0 16 16 v }

abbrev pub index : Trb → ℕ
index t = get_bits t.data1 0 16

abbrev pub set_index : Trb → ℕ → Trb
set_index t v = record t { data1 = set_bits t.data1 0 16 v }

abbrev pub length : Trb → ℕ
length t = get_bits t.data1 16 16

abbrev pub set_length : Trb → ℕ → Trb
set_length t v = record t { data1 = set_bits t.data1 16 16 v }

abbrev pub trb_transfer_length : Trb → ℕ
trb_transfer_length t = get_bits t.data2 0 17

abbrev pub set_trb_transfer_length : Trb → ℕ → Trb
set_trb_transfer_length t v = record t { data2 = set_bits t.data2 0 17 v }

abbrev pub immediate_data : Trb → ℕ
immediate_data t = get_bits t.data3 6 1

abbrev pub set_immediate_data : Trb → Bool → Trb
set_immediate_data t b = record t { data3 = set_bits t.data3 6 1 (to_bit b) }

abbrev pub transfer_type : Trb → ℕ
transfer_type t = get_bits t.data3 16 2

abbrev pub set_transfer_type : Trb → ℕ → Trb
set_transfer_type t v = record t { data3 = set_bits t.data3 16 2 v }

-- The constructor.
abbrev pub new : Trb
new = set_trb_transfer_length (set_immediate_data (set_trb_type zero_trb type) true) 8
