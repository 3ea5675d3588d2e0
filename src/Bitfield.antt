-- ===== src/Bitfield.antt =====
-- Bit-fields of machine words: the unions of kernel/usb/xhci lay their `bits` over `data` from the
-- lowest bit upwards. A word is its number; offset and width are numerals at each use.
use mikanos_aarch.Prelude.{ℕ, ◌+◌, ◌*◌, ◌/◌, ◌%◌, ◌^◌}

-- Reading the field of `len` bits at bit `off`.
abbrev pub get_bits : ℕ → ℕ → ℕ → ℕ
get_bits w off len = w / 2 ^ off % 2 ^ len

-- Writing it; the value is cut to the width of the field.
abbrev pub set_bits : ℕ → ℕ → ℕ → ℕ → ℕ
set_bits w off len v = w / 2 ^ (off + len) * 2 ^ (off + len) + v % 2 ^ len * 2 ^ off + w % 2 ^ off
