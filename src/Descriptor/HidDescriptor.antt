-- ===== src/Descriptor/HidDescriptor.antt =====
-- `struct HIDDescriptor` of kernel/usb/descriptor.hpp: the fields at their offsets.
use mikanos_aarch.Prelude.{ℕ, ◌+◌, ◌*◌, Option, none, some, leb, if◌then◌else◌}
use mikanos_aarch.Descriptor.{Bytes, byte, word16}

abbrev pub type : ℕ
type = 33

abbrev pub length : Bytes → ℕ → ℕ
length b p = byte b (p + 0)

abbrev pub descriptor_type : Bytes → ℕ → ℕ
descriptor_type b p = byte b (p + 1)

abbrev pub hid_release : Bytes → ℕ → ℕ
hid_release b p = word16 b (p + 2)

abbrev pub country_code : Bytes → ℕ → ℕ
country_code b p = byte b (p + 4)

abbrev pub num_descriptors : Bytes → ℕ → ℕ
num_descriptors b p = byte b (p + 5)

-- `GetClassDescriptor`: class descriptors of three bytes follow the six of the structure.
unfoldable pub get_class_descriptor : Bytes → ℕ → ℕ → Option ℕ
get_class_descriptor b p index =
    if leb (num_descriptors b p) index then none else some (p + 6 + 3 * index)

-- The fields of `ClassDescriptor`.
abbrev pub class_descriptor_type : Bytes → ℕ → ℕ
class_descriptor_type b p = byte b p

abbrev pub descriptor_length : Bytes → ℕ → ℕ
descriptor_length b p = word16 b (p + 1)
