-- ===== src/SetupData/Request.antt =====
-- The numbers of namespace `request` in kernel/usb/setupdata.hpp.
use mikanos_aarch.Prelude.{ℕ}

abbrev pub get_status : ℕ
get_status = 0

abbrev pub clear_feature : ℕ
clear_feature = 1

abbrev pub set_feature : ℕ
set_feature = 3

abbrev pub set_address : ℕ
set_address = 5

abbrev pub get_descriptor : ℕ
get_descriptor = 6

abbrev pub set_descriptor : ℕ
set_descriptor = 7

abbrev pub get_configuration : ℕ
get_configuration = 8

abbrev pub set_configuration : ℕ
set_configuration = 9

abbrev pub get_interface : ℕ
get_interface = 10

abbrev pub set_interface : ℕ
set_interface = 11

abbrev pub synch_frame : ℕ
synch_frame = 12

abbrev pub set_encryption : ℕ
set_encryption = 13

abbrev pub get_encryption : ℕ
get_encryption = 14

abbrev pub set_handshake : ℕ
set_handshake = 15

abbrev pub get_handshake : ℕ
get_handshake = 16

abbrev pub set_connection : ℕ
set_connection = 17

abbrev pub set_security_data : ℕ
set_security_data = 18

abbrev pub get_security_data : ℕ
get_security_data = 19

abbrev pub set_wusb_data : ℕ
set_wusb_data = 20

abbrev pub loopback_data_write : ℕ
loopback_data_write = 21

abbrev pub loopback_data_read : ℕ
loopback_data_read = 22

abbrev pub set_interface_ds : ℕ
set_interface_ds = 23

abbrev pub set_sel : ℕ
set_sel = 48

abbrev pub set_isoch_delay : ℕ
set_isoch_delay = 49

abbrev pub get_report : ℕ
get_report = 1

abbrev pub set_protocol : ℕ
set_protocol = 11
