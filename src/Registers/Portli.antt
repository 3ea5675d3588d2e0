-- ===== src/Registers/Portli.antt =====
-- `union PORTLI_Bitmap` of kernel/usb/xhci/registers.hpp: the fields of a 32-bit register value.
use mikanos_aarch.Prelude.{ℕ}
use mikanos_aarch.Bitfield.{get_bits, set_bits}

abbrev pub link_error_count : ℕ → ℕ
link_error_count w = get_bits w 0 16

abbrev pub set_link_error_count : ℕ → ℕ → ℕ
set_link_error_count w v = set_bits w 0 16 v

abbrev pub rx_lane_count : ℕ → ℕ
rx_lane_count w = get_bits w 16 4

abbrev pub set_rx_lane_count : ℕ → ℕ → ℕ
set_rx_lane_count w v = set_bits w 16 4 v

abbrev pub tx_lane_count : ℕ → ℕ
tx_lane_count w = get_bits w 20 4

abbrev pub set_tx_lane_count : ℕ → ℕ → ℕ
set_tx_lane_count w v = set_bits w 20 4 v
