-- ===== src/Registers/Portsc.antt =====
-- `union PORTSC_Bitmap` of kernel/usb/xhci/registers.hpp: the fields of a 32-bit register value.
use mikanos_aarch.Prelude.{ℕ}
use mikanos_aarch.Bitfield.{get_bits, set_bits}

abbrev pub current_connect_status : ℕ → ℕ
current_connect_status w = get_bits w 0 1

abbrev pub set_current_connect_status : ℕ → ℕ → ℕ
set_current_connect_status w v = set_bits w 0 1 v

abbrev pub port_enabled_disabled : ℕ → ℕ
port_enabled_disabled w = get_bits w 1 1

abbrev pub set_port_enabled_disabled : ℕ → ℕ → ℕ
set_port_enabled_disabled w v = set_bits w 1 1 v

abbrev pub over_current_active : ℕ → ℕ
over_current_active w = get_bits w 3 1

abbrev pub set_over_current_active : ℕ → ℕ → ℕ
set_over_current_active w v = set_bits w 3 1 v

abbrev pub port_reset : ℕ → ℕ
port_reset w = get_bits w 4 1

abbrev pub set_port_reset : ℕ → ℕ → ℕ
set_port_reset w v = set_bits w 4 1 v

abbrev pub port_link_state : ℕ → ℕ
port_link_state w = get_bits w 5 4

abbrev pub set_port_link_state : ℕ → ℕ → ℕ
set_port_link_state w v = set_bits w 5 4 v

abbrev pub port_power : ℕ → ℕ
port_power w = get_bits w 9 1

abbrev pub set_port_power : ℕ → ℕ → ℕ
set_port_power w v = set_bits w 9 1 v

abbrev pub port_speed : ℕ → ℕ
port_speed w = get_bits w 10 4

abbrev pub set_port_speed : ℕ → ℕ → ℕ
set_port_speed w v = set_bits w 10 4 v

abbrev pub port_indicator_control : ℕ → ℕ
port_indicator_control w = get_bits w 14 2

abbrev pub set_port_indicator_control : ℕ → ℕ → ℕ
set_port_indicator_control w v = set_bits w 14 2 v

abbrev pub port_link_state_write_strobe : ℕ → ℕ
port_link_state_write_strobe w = get_bits w 16 1

abbrev pub set_port_link_state_write_strobe : ℕ → ℕ → ℕ
set_port_link_state_write_strobe w v = set_bits w 16 1 v

abbrev pub connect_status_change : ℕ → ℕ
connect_status_change w = get_bits w 17 1

abbrev pub set_connect_status_change : ℕ → ℕ → ℕ
set_connect_status_change w v = set_bits w 17 1 v

abbrev pub port_enabled_disabled_change : ℕ → ℕ
port_enabled_disabled_change w = get_bits w 18 1

abbrev pub set_port_enabled_disabled_change : ℕ → ℕ → ℕ
set_port_enabled_disabled_change w v = set_bits w 18 1 v

abbrev pub warm_port_reset_change : ℕ → ℕ
warm_port_reset_change w = get_bits w 19 1

abbrev pub set_warm_port_reset_change : ℕ → ℕ → ℕ
set_warm_port_reset_change w v = set_bits w 19 1 v

abbrev pub over_current_change : ℕ → ℕ
over_current_change w = get_bits w 20 1

abbrev pub set_over_current_change : ℕ → ℕ → ℕ
set_over_current_change w v = set_bits w 20 1 v

abbrev pub port_reset_change : ℕ → ℕ
port_reset_change w = get_bits w 21 1

abbrev pub set_port_reset_change : ℕ → ℕ → ℕ
set_port_reset_change w v = set_bits w 21 1 v

abbrev pub port_link_state_change : ℕ → ℕ
port_link_state_change w = get_bits w 22 1

abbrev pub set_port_link_state_change : ℕ → ℕ → ℕ
set_port_link_state_change w v = set_bits w 22 1 v

abbrev pub port_config_error_change : ℕ → ℕ
port_config_error_change w = get_bits w 23 1

abbrev pub set_port_config_error_change : ℕ → ℕ → ℕ
set_port_config_error_change w v = set_bits w 23 1 v

abbrev pub cold_attach_status : ℕ → ℕ
cold_attach_status w = get_bits w 24 1

abbrev pub set_cold_attach_status : ℕ → ℕ → ℕ
set_cold_attach_status w v = set_bits w 24 1 v

abbrev pub wake_on_connect_enable : ℕ → ℕ
wake_on_connect_enable w = get_bits w 25 1

abbrev pub set_wake_on_connect_enable : ℕ → ℕ → ℕ
set_wake_on_connect_enable w v = set_bits w 25 1 v

abbrev pub wake_on_disconnect_enable : ℕ → ℕ
wake_on_disconnect_enable w = get_bits w 26 1

abbrev pub set_wake_on_disconnect_enable : ℕ → ℕ → ℕ
set_wake_on_disconnect_enable w v = set_bits w 26 1 v

abbrev pub wake_on_over_current_enable : ℕ → ℕ
wake_on_over_current_enable w = get_bits w 27 1

abbrev pub set_wake_on_over_current_enable : ℕ → ℕ → ℕ
set_wake_on_over_current_enable w v = set_bits w 27 1 v

abbrev pub device_removable : ℕ → ℕ
device_removable w = get_bits w 30 1

abbrev pub set_device_removable : ℕ → ℕ → ℕ
set_device_removable w v = set_bits w 30 1 v

abbrev pub warm_port_reset : ℕ → ℕ
warm_port_reset w = get_bits w 31 1

abbrev pub set_warm_port_reset : ℕ → ℕ → ℕ
set_warm_port_reset w v = set_bits w 31 1 v
