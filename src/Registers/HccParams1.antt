-- ===== src/Registers/HccParams1.antt =====
-- `union HCCPARAMS1_Bitmap` of kernel/usb/xhci/registers.hpp: the fields of a 32-bit register value.
use mikanos_aarch.Prelude.{ℕ}
use mikanos_aarch.Bitfield.{get_bits, set_bits}

abbrev pub addressing_capability_64 : ℕ → ℕ
addressing_capability_64 w = get_bits w 0 1

abbrev pub set_addressing_capability_64 : ℕ → ℕ → ℕ
set_addressing_capability_64 w v = set_bits w 0 1 v

abbrev pub bw_negotiation_capability : ℕ → ℕ
bw_negotiation_capability w = get_bits w 1 1

abbrev pub set_bw_negotiation_capability : ℕ → ℕ → ℕ
set_bw_negotiation_capability w v = set_bits w 1 1 v

abbrev pub context_size : ℕ → ℕ
context_size w = get_bits w 2 1

abbrev pub set_context_size : ℕ → ℕ → ℕ
set_context_size w v = set_bits w 2 1 v

abbrev pub port_power_control : ℕ → ℕ
port_power_control w = get_bits w 3 1

abbrev pub set_port_power_control : ℕ → ℕ → ℕ
set_port_power_control w v = set_bits w 3 1 v

abbrev pub port_indicators : ℕ → ℕ
port_indicators w = get_bits w 4 1

abbrev pub set_port_indicators : ℕ → ℕ → ℕ
set_port_indicators w v = set_bits w 4 1 v

abbrev pub light_hc_reset_capability : ℕ → ℕ
light_hc_reset_capability w = get_bits w 5 1

abbrev pub set_light_hc_reset_capability : ℕ → ℕ → ℕ
set_light_hc_reset_capability w v = set_bits w 5 1 v

abbrev pub latency_tolerance_messaging_capability : ℕ → ℕ
latency_tolerance_messaging_capability w = get_bits w 6 1

abbrev pub set_latency_tolerance_messaging_capability : ℕ → ℕ → ℕ
set_latency_tolerance_messaging_capability w v = set_bits w 6 1 v

abbrev pub no_secondary_sid_support : ℕ → ℕ
no_secondary_sid_support w = get_bits w 7 1

abbrev pub set_no_secondary_sid_support : ℕ → ℕ → ℕ
set_no_secondary_sid_support w v = set_bits w 7 1 v

abbrev pub parse_all_event_data : ℕ → ℕ
parse_all_event_data w = get_bits w 8 1

abbrev pub set_parse_all_event_data : ℕ → ℕ → ℕ
set_parse_all_event_data w v = set_bits w 8 1 v

abbrev pub stopped_short_packet_capability : ℕ → ℕ
stopped_short_packet_capability w = get_bits w 9 1

abbrev pub set_stopped_short_packet_capability : ℕ → ℕ → ℕ
set_stopped_short_packet_capability w v = set_bits w 9 1 v

abbrev pub stopped_edtla_capability : ℕ → ℕ
stopped_edtla_capability w = get_bits w 10 1

abbrev pub set_stopped_edtla_capability : ℕ → ℕ → ℕ
set_stopped_edtla_capability w v = set_bits w 10 1 v

abbrev pub contiguous_frame_id_capability : ℕ → ℕ
contiguous_frame_id_capability w = get_bits w 11 1

abbrev pub set_contiguous_frame_id_capability : ℕ → ℕ → ℕ
set_contiguous_frame_id_capability w v = set_bits w 11 1 v

abbrev pub maximum_primary_stream_array_size : ℕ → ℕ
maximum_primary_stream_array_size w = get_bits w 12 4

abbrev pub set_maximum_primary_stream_array_size : ℕ → ℕ → ℕ
set_maximum_primary_stream_array_size w v = set_bits w 12 4 v

abbrev pub xhci_extended_capabilities_pointer : ℕ → ℕ
xhci_extended_capabilities_pointer w = get_bits w 16 16

abbrev pub set_xhci_extended_capabilities_pointer : ℕ → ℕ → ℕ
set_xhci_extended_capabilities_pointer w v = set_bits w 16 16 v
