-- ===== src/Descriptor/EndpointDescriptor.antt =====
-- `struct EndpointDescriptor` of kernel/usb/descriptor.hpp: the fields at their offsets.
use mikanos_aarch.Prelude.{ℕ, ◌+◌}
use mikanos_aarch.Bitfield.{get_bits}
use mikanos_aarch.Descriptor.{Bytes, byte, word16}

abbrev pub type : ℕ
type = 5

abbrev pub length : Bytes → ℕ → ℕ
length b p = byte b (p + 0)

abbrev pub descriptor_type : Bytes → ℕ → ℕ
descriptor_type b p = byte b (p + 1)

abbrev pub number : Bytes → ℕ → ℕ
number b p = get_bits (byte b (p + 2)) 0 4

abbrev pub dir_in : Bytes → ℕ → ℕ
dir_in b p = get_bits (byte b (p + 2)) 7 1

abbrev pub transfer_type : Bytes → ℕ → ℕ
transfer_type b p = get_bits (byte b (p + 3)) 0 2

abbrev pub sync_type : Bytes → ℕ → ℕ
sync_type b p = get_bits (byte b (p + 3)) 2 2

abbrev pub usage_type : Bytes → ℕ → ℕ
usage_type b p = get_bits (byte b (p + 3)) 4 2

abbrev pub max_packet_size : Bytes → ℕ → ℕ
max_packet_size b p = word16 b (p + 4)

abbrev pub interval : Bytes → ℕ → ℕ
interval b p = byte b (p + 6)
