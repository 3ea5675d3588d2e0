-- ===== src/Context/SlotContext.antt =====
-- `union SlotContext` of kernel/usb/xhci/context.hpp, with its fields at their words and bits.
use mikanos_aarch.Prelude.{ℕ, get_or, set}
use mikanos_aarch.Bitfield.{get_bits, set_bits}
use mikanos_aarch.Context.{Words}

abbrev pub route_string : Words → ℕ
route_string c = get_bits (get_or c 0 0) 0 20

abbrev pub set_route_string : Words → ℕ → Words
set_route_string c v = set c 0 (set_bits (get_or c 0 0) 0 20 v)

abbrev pub speed : Words → ℕ
speed c = get_bits (get_or c 0 0) 20 4

abbrev pub set_speed : Words → ℕ → Words
set_speed c v = set c 0 (set_bits (get_or c 0 0) 20 4 v)

abbrev pub mtt : Words → ℕ
mtt c = get_bits (get_or c 0 0) 25 1

abbrev pub set_mtt : Words → ℕ → Words
set_mtt c v = set c 0 (set_bits (get_or c 0 0) 25 1 v)

abbrev pub hub : Words → ℕ
hub c = get_bits (get_or c 0 0) 26 1

abbrev pub set_hub : Words → ℕ → Words
set_hub c v = set c 0 (set_bits (get_or c 0 0) 26 1 v)

abbrev pub context_entries : Words → ℕ
context_entries c = get_bits (get_or c 0 0) 27 5

abbrev pub set_context_entries : Words → ℕ → Words
set_context_entries c v = set c 0 (set_bits (get_or c 0 0) 27 5 v)

abbrev pub max_exit_latency : Words → ℕ
max_exit_latency c = get_bits (get_or c 1 0) 0 16

abbrev pub set_max_exit_latency : Words → ℕ → Words
set_max_exit_latency c v = set c 1 (set_bits (get_or c 1 0) 0 16 v)

abbrev pub root_hub_port_num : Words → ℕ
root_hub_port_num c = get_bits (get_or c 1 0) 16 8

abbrev pub set_root_hub_port_num : Words → ℕ → Words
set_root_hub_port_num c v = set c 1 (set_bits (get_or c 1 0) 16 8 v)

abbrev pub num_ports : Words → ℕ
num_ports c = get_bits (get_or c 1 0) 24 8

abbrev pub set_num_ports : Words → ℕ → Words
set_num_ports c v = set c 1 (set_bits (get_or c 1 0) 24 8 v)

abbrev pub tt_hub_slot_id : Words → ℕ
tt_hub_slot_id c = get_bits (get_or c 2 0) 0 8

abbrev pub set_tt_hub_slot_id : Words → ℕ → Words
set_tt_hub_slot_id c v = set c 2 (set_bits (get_or c 2 0) 0 8 v)

abbrev pub tt_port_num : Words → ℕ
tt_port_num c = get_bits (get_or c 2 0) 8 8

abbrev pub set_tt_port_num : Words → ℕ → Words
set_tt_port_num c v = set c 2 (set_bits (get_or c 2 0) 8 8 v)

abbrev pub ttt : Words → ℕ
ttt c = get_bits (get_or c 2 0) 16 2

abbrev pub set_ttt : Words → ℕ → Words
set_ttt c v = set c 2 (set_bits (get_or c 2 0) 16 2 v)

abbrev pub interrupter_target : Words → ℕ
interrupter_target c = get_bits (get_or c 2 0) 22 10

abbrev pub set_interrupter_target : Words → ℕ → Words
set_interrupter_target c v = set c 2 (set_bits (get_or c 2 0) 22 10 v)

abbrev pub usb_device_address : Words → ℕ
usb_device_address c = get_bits (get_or c 3 0) 0 8

abbrev pub set_usb_device_address : Words → ℕ → Words
set_usb_device_address c v = set c 3 (set_bits (get_or c 3 0) 0 8 v)

abbrev pub slot_state : Words → ℕ
slot_state c = get_bits (get_or c 3 0) 27 5

abbrev pub set_slot_state : Words → ℕ → Words
set_slot_state c v = set c 3 (set_bits (get_or c 3 0) 27 5 v)
