-- ===== src/Descriptor/InterfaceDescriptor.antt =====
-- `struct InterfaceDescriptor` of kernel/usb/descriptor.hpp: the fields at their offsets.
use mikanos_aarch.Prelude.{ℕ, ◌+◌}
use mikanos_aarch.Descriptor.{Bytes, byte}

abbrev pub type : ℕ
type = 4

abbrev pub length : Bytes → ℕ → ℕ
length b p = byte b (p + 0)

abbrev pub descriptor_type : Bytes → ℕ → ℕ
descriptor_type b p = byte b (p + 1)

abbrev pub interface_number : Bytes → ℕ → ℕ
interface_number b p = byte b (p + 2)

abbrev pub alternate_setting : Bytes → ℕ → ℕ
alternate_setting b p = byte b (p + 3)

abbrev pub num_endpoints : Bytes → ℕ → ℕ
num_endpoints b p = byte b (p + 4)

abbrev pub interface_class : Bytes → ℕ → ℕ
interface_class b p = byte b (p + 5)

abbrev pub interface_sub_class : Bytes → ℕ → ℕ
interface_sub_class b p = byte b (p + 6)

abbrev pub interface_protocol : Bytes → ℕ → ℕ
interface_protocol b p = byte b (p + 7)

abbrev pub interface_id : Bytes → ℕ → ℕ
interface_id b p = byte b (p + 8)
