-- ===== src/Descriptor.antt =====
-- kernel/usb/descriptor.hpp: USB descriptors, which stand in a buffer of bytes, and the reader of
-- kernel/usb/device.cpp that walks the descriptors of a configuration.
pub mod DeviceDescriptor
pub mod ConfigurationDescriptor
pub mod InterfaceDescriptor
pub mod EndpointDescriptor
pub mod HidDescriptor
pub mod Reader
use mikanos_aarch.Prelude.{ℕ, ◌+◌, ◌*◌, ◌^◌, List, Option, none, some, get_or, ◌==◌, if◌then◌else◌}

-- A buffer of bytes; a descriptor is the place of its first byte.
abbrev pub Bytes : Type 0
Bytes = List ℕ

-- A byte, and a `uint16_t` in the order of x86 and AArch64. Past the buffer's end the model reads 0,
-- and the theorems say where the reads stay inside.
abbrev pub byte : Bytes → ℕ → ℕ
byte b i = get_or b i 0

abbrev pub word16 : Bytes → ℕ → ℕ
word16 b i = byte b i + byte b (i + 1) * 2 ^ 8

-- `DescriptorDynamicCast<T>`, with `T::kType` as a number; none is nullptr.
unfoldable pub descriptor_dynamic_cast : ℕ → Bytes → ℕ → Option ℕ
descriptor_dynamic_cast type b p = if byte b (p + 1) == type then some p else none
