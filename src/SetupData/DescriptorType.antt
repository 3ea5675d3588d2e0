-- ===== src/SetupData/DescriptorType.antt =====
-- The numbers of namespace `descriptor_type` in kernel/usb/setupdata.hpp.
use mikanos_aarch.Prelude.{ℕ}

abbrev pub device : ℕ
device = 1

abbrev pub configuration : ℕ
configuration = 2

abbrev pub string : ℕ
string = 3

abbrev pub interface : ℕ
interface = 4

abbrev pub endpoint : ℕ
endpoint = 5

abbrev pub interface_power : ℕ
interface_power = 8

abbrev pub otg : ℕ
otg = 9

abbrev pub debug : ℕ
debug = 10

abbrev pub interface_association : ℕ
interface_association = 11

abbrev pub bos : ℕ
bos = 15

abbrev pub device_capability : ℕ
device_capability = 16

abbrev pub hid : ℕ
hid = 33

abbrev pub superspeed_usb_endpoint_companion : ℕ
superspeed_usb_endpoint_companion = 48

abbrev pub superspeed_plus_isochronous_endpoint_companion : ℕ
superspeed_plus_isochronous_endpoint_companion = 49
