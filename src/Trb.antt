-- ===== src/Trb.antt =====
-- kernel/usb/xhci/trb.hpp: Transfer Request Blocks. Each union there lays fields over the same
-- `std::array<uint32_t, 4> data`, so a TRB of any type is its four words, and a union is its
-- constructor and the accessors of its fields.
pub mod NormalTrb
pub mod SetupStageTrb
pub mod DataStageTrb
pub mod StatusStageTrb
pub mod LinkTrb
pub mod NoOpTrb
pub mod EnableSlotCommandTrb
pub mod AddressDeviceCommandTrb
pub mod ConfigureEndpointCommandTrb
pub mod StopEndpointCommandTrb
pub mod NoOpCommandTrb
pub mod TransferEventTrb
pub mod CommandCompletionEventTrb
pub mod PortStatusChangeEventTrb
pub mod RoundTrip
pub mod Names
use mikanos_aarch.Prelude.{ℕ, ◌+◌, ◌*◌, ◌/◌, ◌%◌, ◌^◌, ◌<◌, Option, none, some, if◌then◌else◌, ◌==◌}
use mikanos_aarch.Bitfield.{get_bits, set_bits}

-- `union TRB`.
pub record Trb : Type 0 where
  pub data0 : ℕ
  pub data1 : ℕ
  pub data2 : ℕ
  pub data3 : ℕ

-- `data{}`.
abbrev pub zero_trb : Trb
zero_trb = record { data0 = 0; data1 = 0; data2 = 0; data3 = 0 }

-- Every word is a `uint32_t`.
pub record IsTrb (t : Trb) : Type 0 where
  pub word0 : t.data0 < 2 ^ 32
  pub word1 : t.data1 < 2 ^ 32
  pub word2 : t.data2 < 2 ^ 32
  pub word3 : t.data3 < 2 ^ 32

-- `bits.parameter`: the first two words as one `uint64_t`, the low word first.
abbrev pub parameter : Trb → ℕ
parameter t = t.data0 + t.data1 * 2 ^ 32

abbrev pub set_parameter : Trb → ℕ → Trb
set_parameter t v = record t { data0 = v % 2 ^ 32; data1 = v / 2 ^ 32 % 2 ^ 32 }

-- Pointers of the link, command and command completion TRBs take bits 63:4 of the parameter.
abbrev pub pointer60 : Trb → ℕ
pointer60 t = get_bits (parameter t) 4 60 * 2 ^ 4 % 2 ^ 64

abbrev pub set_pointer60 : Trb → ℕ → Trb
set_pointer60 t p = set_parameter t (set_bits (parameter t) 4 60 (p / 2 ^ 4))

-- The fields that all types share.
abbrev pub cycle_bit : Trb → ℕ
cycle_bit t = get_bits t.data3 0 1

abbrev pub trb_type : Trb → ℕ
trb_type t = get_bits t.data3 10 6

abbrev pub set_trb_type : Trb → ℕ → Trb
set_trb_type t v = record t { data3 = set_bits t.data3 10 6 v }

abbrev pub slot_id : Trb → ℕ
slot_id t = get_bits t.data3 24 8

abbrev pub set_slot_id : Trb → ℕ → Trb
set_slot_id t v = record t { data3 = set_bits t.data3 24 8 v }

-- `TRBDynamicCast<ToType>`, with `ToType::Type` as a number; none is nullptr.
abbrev pub trb_dynamic_cast : ℕ → Trb → Option Trb
trb_dynamic_cast to_type t = if to_type == trb_type t then some t else none
