-- ===== src/Speed.antt =====
-- kernel/usb/xhci/speed.hpp: the default protocol speed numbers.
use mikanos_aarch.Prelude.{ℕ}

abbrev pub full_speed : ℕ
full_speed = 1

abbrev pub low_speed : ℕ
low_speed = 2

abbrev pub high_speed : ℕ
high_speed = 3

abbrev pub super_speed : ℕ
super_speed = 4

abbrev pub super_speed_plus : ℕ
super_speed_plus = 5
