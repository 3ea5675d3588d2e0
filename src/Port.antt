-- ===== src/Port.antt =====
-- kernel/usb/xhci/port.cpp and port.hpp: a root hub port of the xHC, over its PORTSC register. A
-- read of PORTSC gives a word; the controller may change the register between two reads, so each
-- function takes the words that it reads and returns the word that it writes.
use mikanos_aarch.Prelude.{
  ℕ, suc, ◌/◌, ◌%◌, ◌^◌, ◌≡◌, bit_and, bit_or, min, max, Bool, refl, ◌==◌, if◌then◌else◌, Option,
  none, some, arith, bit_and-digit, bit_or-digit, List, [], ◌∷◌,
}
use mikanos_aarch.Registers.Portsc

-- `IsConnected`, `IsEnabled`, `IsConnectStatusChanged`, `IsPortResetChanged`: a bit as a `bool`.
abbrev pub is_connected : ℕ → Bool
is_connected portsc = Portsc.current_connect_status portsc == 1

abbrev pub is_enabled : ℕ → Bool
is_enabled portsc = Portsc.port_enabled_disabled portsc == 1

abbrev pub is_connect_status_changed : ℕ → Bool
is_connect_status_changed portsc = Portsc.connect_status_change portsc == 1

abbrev pub is_port_reset_changed : ℕ → Bool
is_port_reset_changed portsc = Portsc.port_reset_change portsc == 1

-- `Speed`.
abbrev pub speed : ℕ → ℕ
speed portsc = Portsc.port_speed portsc

-- What `Reset` writes.
unfoldable pub reset_word : ℕ → ℕ
reset_word portsc = bit_or (bit_and portsc 0x0e00c3e0) 0x00020010

-- The wait of `Reset`, over the words that its reads give: the number of reads it takes, or none
-- when the port is still in reset after all of them.
unfoldable pub wait_reset : List ℕ → Option ℕ
wait_reset [] = none
wait_reset (portsc ∷ rest) =
    let after = wait_reset rest in
    if Portsc.port_reset portsc == 1
    then elim after [ none ↦ none | some n ↦ some (suc n) ]
    else some 1

-- `CLEAR_STATUS_BIT`: what the write is for the two bits that it is used with.
unfoldable pub clear_connect_status_changed : ℕ → ℕ
clear_connect_status_changed portsc = Portsc.set_connect_status_change (bit_and portsc 0x0e01c3e0) 1

unfoldable pub clear_port_reset_change : ℕ → ℕ
clear_port_reset_change portsc = Portsc.set_port_reset_change (bit_and portsc 0x0e01c3e0) 1

digit_of_reset :
    (k portsc : ℕ)
    → reset_word portsc / 2 ^ k % 2
      ≡ max (min (portsc / 2 ^ k % 2) (0x0e00c3e0 / 2 ^ k % 2)) (0x00020010 / 2 ^ k % 2)
unfolding reset_word
digit_of_reset k portsc =
    rw (bit_or-digit k (bit_and portsc 0x0e00c3e0) 0x00020010, bit_and-digit k portsc 0x0e00c3e0)
      refl

-- The change bits other than connect status change: a 1 written there acknowledges the change.
abbrev pub AcknowledgesNothingElse : ℕ → Type 0
AcknowledgesNothingElse w =
    (Portsc.port_enabled_disabled_change w ≡ 0)
    × (Portsc.warm_port_reset_change w ≡ 0)
    × (Portsc.over_current_change w ≡ 0)
    × (Portsc.port_reset_change w ≡ 0)
    × (Portsc.port_link_state_change w ≡ 0)
    × (Portsc.port_config_error_change w ≡ 0)

-- `Reset` writes 1 to the port reset bit and to connect status change, and keeps the port's power
-- and its three wake enables as they were read. It writes 0 to the enable bit, which a 1 would turn
-- off, and to the other six change bits, which a 1 would acknowledge.
pub reset_word_lem :
    (portsc : ℕ)
    → (Portsc.port_reset (reset_word portsc) ≡ 1)
      × (Portsc.connect_status_change (reset_word portsc) ≡ 1)
      × (Portsc.port_power (reset_word portsc) ≡ Portsc.port_power portsc)
      × (Portsc.wake_on_connect_enable (reset_word portsc) ≡ Portsc.wake_on_connect_enable portsc)
      × (Portsc.wake_on_disconnect_enable (reset_word portsc)
          ≡ Portsc.wake_on_disconnect_enable portsc)
      × (Portsc.wake_on_over_current_enable (reset_word portsc)
          ≡ Portsc.wake_on_over_current_enable portsc)
      × (Portsc.port_enabled_disabled (reset_word portsc) ≡ 0)
      × AcknowledgesNothingElse (reset_word portsc)
reset_word_lem portsc = (
  omega (arith, digit_of_reset 4 portsc),
  omega (arith, digit_of_reset 17 portsc),
  omega (arith, digit_of_reset 9 portsc),
  omega (arith, digit_of_reset 25 portsc),
  omega (arith, digit_of_reset 26 portsc),
  omega (arith, digit_of_reset 27 portsc),
  omega (arith, digit_of_reset 1 portsc),
  (
    omega (arith, digit_of_reset 18 portsc),
    omega (arith, digit_of_reset 19 portsc),
    omega (arith, digit_of_reset 20 portsc),
    omega (arith, digit_of_reset 21 portsc),
    omega (arith, digit_of_reset 22 portsc),
    omega (arith, digit_of_reset 23 portsc),
  ),
)

kept :
    (k portsc : ℕ)
    → bit_and portsc 0x0e01c3e0 / 2 ^ k % 2 ≡ min (portsc / 2 ^ k % 2) (0x0e01c3e0 / 2 ^ k % 2)
kept k portsc = bit_and-digit k portsc 0x0e01c3e0

-- `ClearConnectStatusChanged` acknowledges that change and no other, keeps the port's power, and
-- writes 0 to the enable bit and to the reset bit.
pub clear_connect_status_changed_lem :
    (portsc : ℕ)
    → (Portsc.connect_status_change (clear_connect_status_changed portsc) ≡ 1)
      × AcknowledgesNothingElse (clear_connect_status_changed portsc)
      × (Portsc.port_power (clear_connect_status_changed portsc) ≡ Portsc.port_power portsc)
      × (Portsc.port_enabled_disabled (clear_connect_status_changed portsc) ≡ 0)
      × (Portsc.port_reset (clear_connect_status_changed portsc) ≡ 0)
unfolding clear_connect_status_changed
clear_connect_status_changed_lem portsc = (
  omega (arith, kept 17 portsc),
  (
    omega (arith, kept 18 portsc),
    omega (arith, kept 19 portsc),
    omega (arith, kept 20 portsc),
    omega (arith, kept 21 portsc),
    omega (arith, kept 22 portsc),
    omega (arith, kept 23 portsc),
  ),
  omega (arith, kept 9 portsc),
  omega (arith, kept 1 portsc),
  omega (arith, kept 4 portsc),
)
