-- ===== src/Registers/Porthlpmc.antt =====
-- `union PORTHLPMC_Bitmap` of kernel/usb/xhci/registers.hpp: the fields of a 32-bit register value.
use mikanos_aarch.Prelude.{ℕ}
use mikanos_aarch.Bitfield.{get_bits, set_bits}

abbrev pub host_initiated_resume_duration_mode : ℕ → ℕ
host_initiated_resume_duration_mode w = get_bits w 0 2

abbrev pub set_host_initiated_resume_duration_mode : ℕ → ℕ → ℕ
set_host_initiated_resume_duration_mode w v = set_bits w 0 2 v

abbrev pub l1_timeout : ℕ → ℕ
l1_timeout w = get_bits w 2 8

abbrev pub set_l1_timeout : ℕ → ℕ → ℕ
set_l1_timeout w v = set_bits w 2 8 v

abbrev pub best_effort_service_latency_deep : ℕ → ℕ
best_effort_service_latency_deep w = get_bits w 10 4

abbrev pub set_best_effort_service_latency_deep : ℕ → ℕ → ℕ
set_best_effort_service_latency_deep w v = set_bits w 10 4 v
