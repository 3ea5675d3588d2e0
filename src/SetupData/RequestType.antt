-- ===== src/SetupData/RequestType.antt =====
-- The numbers of namespace `request_type` in kernel/usb/setupdata.hpp.
use mikanos_aarch.Prelude.{ℕ}

abbrev pub device : ℕ
device = 0

abbrev pub interface : ℕ
interface = 1

abbrev pub endpoint : ℕ
endpoint = 2

abbrev pub other : ℕ
other = 3

abbrev pub standard : ℕ
standard = 0

abbrev pub class : ℕ
class = 1

abbrev pub vendor : ℕ
vendor = 2

abbrev pub out_direction : ℕ
out_direction = 0

abbrev pub in_direction : ℕ
in_direction = 1
