-- ===== src/Trb/NoOpTrb.antt =====
-- `union NoOpTRB` of kernel/usb/xhci/trb.hpp.
use mikanos_aarch.Prelude.{ℕ}
use mikanos_aarch.Trb.{Trb, zero_trb, set_trb_type}

abbrev pub type : ℕ
type = 8

-- The constructor.
abbrev pub new : Trb
new = set_trb_type zero_trb type
