-- ===== src/Registers/UsbCmd.antt =====
-- `union USBCMD_Bitmap` of kernel/usb/xhci/registers.hpp: the fields of a 32-bit register value.
use mikanos_aarch.Prelude.{ℕ}
use mikanos_aarch.Bitfield.{get_bits, set_bits}

abbrev pub run_stop : ℕ → ℕ
run_stop w = get_bits w 0 1

abbrev pub set_run_stop : ℕ → ℕ → ℕ
set_run_stop w v = set_bits w 0 1 v

abbrev pub host_controller_reset : ℕ → ℕ
host_controller_reset w = get_bits w 1 1

abbrev pub set_host_controller_reset : ℕ → ℕ → ℕ
set_host_controller_reset w v = set_bits w 1 1 v

abbrev pub interrupter_enable : ℕ → ℕ
interrupter_enable w = get_bits w 2 1

abbrev pub set_interrupter_enable : ℕ → ℕ → ℕ
set_interrupter_enable w v = set_bits w 2 1 v

abbrev pub host_system_error_enable : ℕ → ℕ
host_system_error_enable w = get_bits w 3 1

abbrev pub set_host_system_error_enable : ℕ → ℕ → ℕ
set_host_system_error_enable w v = set_bits w 3 1 v

abbrev pub lignt_host_controller_reset : ℕ → ℕ
lignt_host_controller_reset w = get_bits w 7 1

abbrev pub set_lignt_host_controller_reset : ℕ → ℕ → ℕ
set_lignt_host_controller_reset w v = set_bits w 7 1 v

abbrev pub controller_save_state : ℕ → ℕ
controller_save_state w = get_bits w 8 1

abbrev pub set_controller_save_state : ℕ → ℕ → ℕ
set_controller_save_state w v = set_bits w 8 1 v

abbrev pub controller_restore_state : ℕ → ℕ
controller_restore_state w = get_bits w 9 1

abbrev pub set_controller_restore_state : ℕ → ℕ → ℕ
set_controller_restore_state w v = set_bits w 9 1 v

abbrev pub enable_wrap_event : ℕ → ℕ
enable_wrap_event w = get_bits w 10 1

abbrev pub set_enable_wrap_event : ℕ → ℕ → ℕ
set_enable_wrap_event w v = set_bits w 10 1 v

abbrev pub enable_u3_mfindex_stop : ℕ → ℕ
enable_u3_mfindex_stop w = get_bits w 11 1

abbrev pub set_enable_u3_mfindex_stop : ℕ → ℕ → ℕ
set_enable_u3_mfindex_stop w v = set_bits w 11 1 v

abbrev pub stopped_short_packet_enable : ℕ → ℕ
stopped_short_packet_enable w = get_bits w 12 1

abbrev pub set_stopped_short_packet_enable : ℕ → ℕ → ℕ
set_stopped_short_packet_enable w v = set_bits w 12 1 v

abbrev pub cem_enable : ℕ → ℕ
cem_enable w = get_bits w 13 1

abbrev pub set_cem_enable : ℕ → ℕ → ℕ
set_cem_enable w v = set_bits w 13 1 v
