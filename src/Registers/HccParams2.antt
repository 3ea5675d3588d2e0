-- ===== src/Registers/HccParams2.antt =====
-- `union HCCPARAMS2_Bitmap` of kernel/usb/xhci/registers.hpp: the fields of a 32-bit register value.
use mikanos_aarch.Prelude.{ℕ}
use mikanos_aarch.Bitfield.{get_bits, set_bits}

abbrev pub u3_entry_capability : ℕ → ℕ
u3_entry_capability w = get_bits w 0 1

abbrev pub set_u3_entry_capability : ℕ → ℕ → ℕ
set_u3_entry_capability w v = set_bits w 0 1 v

abbrev pub configure_endpoint_command_max_exit_latency_too_large_capability : ℕ → ℕ
configure_endpoint_command_max_exit_latency_too_large_capability w = get_bits w 1 1

abbrev pub set_configure_endpoint_command_max_exit_latency_too_large_capability : ℕ → ℕ → ℕ
set_configure_endpoint_command_max_exit_latency_too_large_capability w v = set_bits w 1 1 v

abbrev pub force_save_context_capability : ℕ → ℕ
force_save_context_capability w = get_bits w 2 1

abbrev pub set_force_save_context_capability : ℕ → ℕ → ℕ
set_force_save_context_capability w v = set_bits w 2 1 v

abbrev pub compliance_transition_capability : ℕ → ℕ
compliance_transition_capability w = get_bits w 3 1

abbrev pub set_compliance_transition_capability : ℕ → ℕ → ℕ
set_compliance_transition_capability w v = set_bits w 3 1 v

abbrev pub large_esit_payload_capability : ℕ → ℕ
large_esit_payload_capability w = get_bits w 4 1

abbrev pub set_large_esit_payload_capability : ℕ → ℕ → ℕ
set_large_esit_payload_capability w v = set_bits w 4 1 v

abbrev pub configuration_information_capability : ℕ → ℕ
configuration_information_capability w = get_bits w 5 1

abbrev pub set_configuration_information_capability : ℕ → ℕ → ℕ
set_configuration_information_capability w v = set_bits w 5 1 v
