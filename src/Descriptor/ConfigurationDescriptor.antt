-- ===== src/Descriptor/ConfigurationDescriptor.antt =====
-- `struct ConfigurationDescriptor` of kernel/usb/descriptor.hpp: the fields at their offsets.
use mikanos_aarch.Prelude.{ℕ, ◌+◌}
use mikanos_aarch.Descriptor.{Bytes, byte, word16}

abbrev pub type : ℕ
type = 2

abbrev pub length : Bytes → ℕ → ℕ
length b p = byte b (p + 0)

abbrev pub descriptor_type : Bytes → ℕ → ℕ
descriptor_type b p = byte b (p + 1)

abbrev pub total_length : Bytes → ℕ → ℕ
total_length b p = word16 b (p + 2)

abbrev pub num_interfaces : Bytes → ℕ → ℕ
num_interfaces b p = byte b (p + 4)

abbrev pub configuration_value : Bytes → ℕ → ℕ
configuration_value b p = byte b (p + 5)

abbrev pub configuration_id : Bytes → ℕ → ℕ
configuration_id b p = byte b (p + 6)

abbrev pub attributes : Bytes → ℕ → ℕ
attributes b p = byte b (p + 7)

abbrev pub max_power : Bytes → ℕ → ℕ
max_power b p = byte b (p + 8)
