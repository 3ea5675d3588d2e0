-- ===== src/Registers/Doorbell.antt =====
-- `union Doorbell_Bitmap` of kernel/usb/xhci/registers.hpp: the fields of a 32-bit register value.
use mikanos_aarch.Prelude.{ℕ}
use mikanos_aarch.Bitfield.{get_bits, set_bits}

abbrev pub db_target : ℕ → ℕ
db_target w = get_bits w 0 8

abbrev pub set_db_target : ℕ → ℕ → ℕ
set_db_target w v = set_bits w 0 8 v

abbrev pub db_stream_id : ℕ → ℕ
db_stream_id w = get_bits w 16 16

abbrev pub set_db_stream_id : ℕ → ℕ → ℕ
set_db_stream_id w v = set_bits w 16 16 v
