-- ===== src/Trb/NoOpCommandTrb.antt =====
-- `union NoOpCommandTRB` of kernel/usb/xhci/trb.hpp.
use mikanos_aarch.Prelude.{ℕ}
use mikanos_aarch.Trb.{Trb, zero_trb, set_trb_type}

abbrev pub type : ℕ
type = 23

-- The constructor.
abbrev pub new : Trb
new = set_trb_type zero_trb type
