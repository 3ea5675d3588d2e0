-- ===== src/Registers/UsbSts.antt =====
-- `union USBSTS_Bitmap` of kernel/usb/xhci/registers.hpp: the fields of a 32-bit register value.
use mikanos_aarch.Prelude.{ℕ}
use mikanos_aarch.Bitfield.{get_bits, set_bits}

abbrev pub host_controller_halted : ℕ → ℕ
host_controller_halted w = get_bits w 0 1

abbrev pub set_host_controller_halted : ℕ → ℕ → ℕ
set_host_controller_halted w v = set_bits w 0 1 v

abbrev pub host_system_error : ℕ → ℕ
host_system_error w = get_bits w 2 1

abbrev pub set_host_system_error : ℕ → ℕ → ℕ
set_host_system_error w v = set_bits w 2 1 v

abbrev pub event_interrupt : ℕ → ℕ
event_interrupt w = get_bits w 3 1

abbrev pub set_event_interrupt : ℕ → ℕ → ℕ
set_event_interrupt w v = set_bits w 3 1 v

abbrev pub port_change_detect : ℕ → ℕ
port_change_detect w = get_bits w 4 1

abbrev pub set_port_change_detect : ℕ → ℕ → ℕ
set_port_change_detect w v = set_bits w 4 1 v

abbrev pub save_state_status : ℕ → ℕ
save_state_status w = get_bits w 8 1

abbrev pub set_save_state_status : ℕ → ℕ → ℕ
set_save_state_status w v = set_bits w 8 1 v

abbrev pub restore_state_status : ℕ → ℕ
restore_state_status w = get_bits w 9 1

abbrev pub set_restore_state_status : ℕ → ℕ → ℕ
set_restore_state_status w v = set_bits w 9 1 v

abbrev pub save_restore_error : ℕ → ℕ
save_restore_error w = get_bits w 10 1

abbrev pub set_save_restore_error : ℕ → ℕ → ℕ
set_save_restore_error w v = set_bits w 10 1 v

abbrev pub controller_not_ready : ℕ → ℕ
controller_not_ready w = get_bits w 11 1

abbrev pub set_controller_not_ready : ℕ → ℕ → ℕ
set_controller_not_ready w v = set_bits w 11 1 v

abbrev pub host_controller_error : ℕ → ℕ
host_controller_error w = get_bits w 12 1

abbrev pub set_host_controller_error : ℕ → ℕ → ℕ
set_host_controller_error w v = set_bits w 12 1 v
