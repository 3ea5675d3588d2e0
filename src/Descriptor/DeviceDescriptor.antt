-- ===== src/Descriptor/DeviceDescriptor.antt =====
-- `struct DeviceDescriptor` of kernel/usb/descriptor.hpp: the fields at their offsets.
use mikanos_aarch.Prelude.{ℕ, ◌+◌}
use mikanos_aarch.Descriptor.{Bytes, byte, word16}

abbrev pub type : ℕ
type = 1

abbrev pub length : Bytes → ℕ → ℕ
length b p = byte b (p + 0)

abbrev pub descriptor_type : Bytes → ℕ → ℕ
descriptor_type b p = byte b (p + 1)

abbrev pub usb_release : Bytes → ℕ → ℕ
usb_release b p = word16 b (p + 2)

abbrev pub device_class : Bytes → ℕ → ℕ
device_class b p = byte b (p + 4)

abbrev pub device_sub_class : Bytes → ℕ → ℕ
device_sub_class b p = byte b (p + 5)

abbrev pub device_protocol : Bytes → ℕ → ℕ
device_protocol b p = byte b (p + 6)

abbrev pub max_packet_size : Bytes → ℕ → ℕ
max_packet_size b p = byte b (p + 7)

abbrev pub vendor_id : Bytes → ℕ → ℕ
vendor_id b p = word16 b (p + 8)

abbrev pub product_id : Bytes → ℕ → ℕ
product_id b p = word16 b (p + 10)

abbrev pub device_release : Bytes → ℕ → ℕ
device_release b p = word16 b (p + 12)

abbrev pub manufacturer : Bytes → ℕ → ℕ
manufacturer b p = byte b (p + 14)

abbrev pub product : Bytes → ℕ → ℕ
product b p = byte b (p + 15)

abbrev pub serial_number : Bytes → ℕ → ℕ
serial_number b p = byte b (p + 16)

abbrev pub num_configurations : Bytes → ℕ → ℕ
num_configurations b p = byte b (p + 17)
