-- ===== src/Trb/RoundTrip.antt =====
-- Round trips of the accessors of kernel/usb/xhci/trb.hpp.
use mikanos_aarch.Prelude.{ℕ, ◌*◌, ◌/◌, ◌%◌, ◌^◌, ◌<◌, ◌≡◌, arith}
use mikanos_aarch.Trb.{Trb, IsTrb, pointer60, set_pointer60, trb_type, slot_id}
use mikanos_aarch.Trb.AddressDeviceCommandTrb

-- Writing a pointer keeps it without its low four bits, and the four bits below the field stay.
pub pointer60-set_pointer60 :
    (t : Trb) (p : ℕ)
    → IsTrb t
    → p < 2 ^ 64
    → (pointer60 (set_pointer60 t p) ≡ p / 16 * 16)
      × ((set_pointer60 t p).data0 % 16 ≡ t.data0 % 16)
      × IsTrb (set_pointer60 t p)
pointer60-set_pointer60 t p h b = (
  omega arith,
  omega arith,
  record { word0 = omega arith; word1 = omega arith; word2 = h.word2; word3 = h.word3 },
)

-- An address device command carries the 16-byte aligned address of its input context and its slot
-- as they were given, is of its type, and does not block the set address request.
pub address_device_command_lem :
    (c s : ℕ)
    → c < 2 ^ 64
    → c % 16 ≡ 0
    → s < 256
    → (AddressDeviceCommandTrb.pointer (AddressDeviceCommandTrb.new c s) ≡ c)
      × (trb_type (AddressDeviceCommandTrb.new c s) ≡ AddressDeviceCommandTrb.type)
      × (slot_id (AddressDeviceCommandTrb.new c s) ≡ s)
      × (AddressDeviceCommandTrb.block_set_address_request (AddressDeviceCommandTrb.new c s) ≡ 0)
address_device_command_lem c s b al sb = (omega arith, omega arith, omega arith, omega arith)
