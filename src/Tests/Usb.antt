-- ===== src/Tests/Usb.antt =====
-- Runs of the device manager, the host controller driver and the keyboard driver, and the theorems
-- about them at concrete inputs: kernel/usb/xhci/devmgr.cpp, kernel/usb/xhci/xhci.cpp and
-- kernel/usb/classdriver/keyboard.cpp.
use mikanos_aarch.Registers.ExtendedRegister.{capability_id}
use mikanos_aarch.Xhci.Ownership.{add_or_null, next_register, find_capability, register_at, Passed}
use mikanos_aarch.Xhci.Ownership
use mikanos_aarch.Main.{probe_ports}
use mikanos_aarch.Main.Probe.{Probed}
use mikanos_aarch.Main.Probe
use mikanos_aarch.Port.{wait_reset}
use mikanos_aarch.Prelude.{
  if◌then◌else◌, ◌==◌, to_bit, ◌||◌, ℕ, zero, suc, ◌+◌, ◌*◌, ◌^◌, ◌≤◌, ◌<◌, ◌≡◌, ◌≢◌, ◌⊎◌, ◌↔◌,
  refl, ap, sym, ◌∙◌, true, false, List, [], ◌∷◌, none, some, replicate, set, arith,
}
use mikanos_aarch.Prelude.Int.{pos, negsuc}
use mikanos_aarch.Error.{Error, success, invalid_slot_id, already_allocated}
use mikanos_aarch.Memory.{Allocator, nullptr, alloc_array, alloc_mem, bound, align, ceil}
use mikanos_aarch.Trb.{Trb, zero_trb}
use mikanos_aarch.Trb.PortStatusChangeEventTrb
use mikanos_aarch.Ring.{Ring, fresh}
use mikanos_aarch.EventRing.{front, pop}
use mikanos_aarch.Port.{reset_word, wait_reset}
use mikanos_aarch.Device.{Device, Layout, ReadsOf, Outcome}
use mikanos_aarch.Device.Transfers.{control_in}
use mikanos_aarch.Device.Initialize.{Defaults, start_initialize}
use mikanos_aarch.DeviceManager.{
  DeviceManager, initialize, find_by_slot, find_by_port, alloc_device, new_device, port_of,
}
use mikanos_aarch.DeviceManager.Find
use mikanos_aarch.DeviceManager.Invariant
use mikanos_aarch.DeviceManager.Steps
use mikanos_aarch.DeviceManager.Alloc
use mikanos_aarch.Hid.{contains, pushed_keys}
use mikanos_aarch.Hid.Keys
use mikanos_aarch.Hid.Keys.{Reported}
use mikanos_aarch.SetupData.{SetupData, read_setup_data}
use mikanos_aarch.Trb.{trb_type}
use mikanos_aarch.Trb.DataStageTrb
use mikanos_aarch.Ring.Slots.{IsValid}
use mikanos_aarch.Ring.Invariant.{fresh-IsValid}
use mikanos_aarch.Device.{holds_address, trb_of}
use mikanos_aarch.Device.Transfers.{push_with_data}
use mikanos_aarch.Device.RoundTrip
use mikanos_aarch.Xhci.{
  Controller, PortReads, Ports, not_connected, waiting_addressed, resetting_port, addressing_device,
  phase_number, configure_port,
}
use mikanos_aarch.Xhci.Contexts.{most_significant_bit}
use mikanos_aarch.Xhci.Events.{process_event}
use mikanos_aarch.Xhci.Msb
use mikanos_aarch.Xhci.Msb.{IsTopBit}
use mikanos_aarch.Xhci.Phases.{at}
use mikanos_aarch.Xhci.Exclusive.{IsExclusive}
use mikanos_aarch.Xhci.Protocol
use mikanos_aarch.Xhci.Reach
use mikanos_aarch.Xhci.Progress

-- A pool at 4 MiB, sizes of objects, and a manager as the controller has it before `Initialize`.
abbrev pool : Allocator
pool = record { memory_pool = 4194304; alloc_ptr = 4194304 }

abbrev layout : Layout
layout = record {
  size_of_device = 4096;
  device_buf = 256;
  device_ctx = 1024;
  device_input_ctx = 2048;
  size_of_ring = 64;
  size_of_keyboard = 2560;
  size_of_mouse = 2560;
  driver_buf = 64;
}

abbrev unread_manager : DeviceManager
unread_manager = record {
  device_context_pointers = [];
  device_contexts_at = 0;
  max_slots = 0;
  devices = [];
}

abbrev manager : DeviceManager
manager = (initialize unread_manager 2 pool).0

abbrev pool_left : Allocator
pool_left = (initialize unread_manager 2 pool).1

initialized : initialize unread_manager 2 pool ≡ (manager, pool_left, success)
unfolding initialize alloc_mem bound align ceil
initialized = refl

-- A device in slot 1, and what the manager holds then.
abbrev placed : DeviceManager
placed = record manager {
  devices =
      none ∷ some (new_device layout (alloc_array pool_left 4096 1 64 4096).1 1 4100) ∷ none ∷ [];
}

allocated :
    alloc_device layout manager pool_left 1 4100
    ≡ some (placed, (alloc_array pool_left 4096 1 64 4096).0, success)
unfolding alloc_device initialize alloc_mem bound align ceil
allocated = refl

manager-IsValid : Invariant.IsValid manager
manager-IsValid =
    Steps.initialize-Reach-IsValid layout unread_manager 2 pool manager pool_left manager
      initialized Steps.Reach.start

initialize-Reach-IsValid_example : Invariant.IsValid placed
initialize-Reach-IsValid_example =
    Steps.initialize-Reach-IsValid layout unread_manager 2 pool manager pool_left placed initialized
      (Steps.Reach.next Steps.Reach.start (
        Steps.Step.allocate manager pool_left 1 4100 placed (alloc_array pool_left 4096 1 64 4096).0
          success allocated))

room : (alloc_array pool_left 4096 1 64 4096).1 ≢ nullptr
unfolding initialize alloc_mem bound align ceil
room e = absurd (omega (arith, e))

alloc_device_lem_example :
    (m' : DeviceManager) × (a' : Allocator) × (e : Error) × (alloc_device layout manager pool_left 1
        4100
      ≡ some (m', a', e))
    × (((manager.max_slots < 1) × (e ≡ invalid_slot_id) × (m' ≡ manager) × (a' ≡ pool_left))
        ⊎ (((dev : Device) × (find_by_slot manager 1 ≡ some dev))
            × (e ≡ already_allocated)
            × (m' ≡ manager)
            × (a' ≡ pool_left))
        ⊎ ((find_by_slot manager 1 ≡ none)
            × (e ≡ success)
            × ((dev : Device) × (find_by_slot m' 1 ≡ some dev)
                × (dev.slot_id ≡ 1)
                × (dev.dbreg ≡ 4100))
            × ((i : ℕ) → 1 ≢ i → find_by_slot m' i ≡ find_by_slot manager i)))
alloc_device_lem_example =
    Alloc.alloc_device_lem layout manager pool_left 1 4100 manager-IsValid room

find_by_port-Found_example : Find.Found placed (λ dev. port_of dev ≡ 0) (find_by_port placed 0 7)
find_by_port-Found_example = Find.find_by_port-Found placed 0 7

-- A keyboard report with the keys 4 and 5, after one with the key 4.
abbrev report : List ℕ
report = 0 ∷ 0 ∷ 4 ∷ 5 ∷ 0 ∷ 0 ∷ 0 ∷ 0 ∷ []

abbrev report_before : List ℕ
report_before = 0 ∷ 0 ∷ 4 ∷ 0 ∷ 0 ∷ 0 ∷ 0 ∷ 0 ∷ []

only_5 : pushed_keys 6 2 report report_before ≡ 5 ∷ []
unfolding pushed_keys
only_5 = refl

contains-pushed_keys_example :
    (contains (pushed_keys 6 2 report report_before) 5 ≡ true)
    ↔ (◌≢◌ {A = ℕ} 5 0 × (contains report_before 5 ≡ false) × Reported 6 2 report 5)
contains-pushed_keys_example = Keys.contains-pushed_keys 6 2 report report_before 5

most_significant_bit_lem_example :
    ((most_significant_bit 10 ≡ negsuc 0) ↔ ◌≡◌ {A = ℕ} 10 0)
    × ((n : ℕ) → (most_significant_bit 10 ≡ pos n) ↔ IsTopBit 10 n)
most_significant_bit_lem_example = Msb.most_significant_bit_lem 10 (omega arith)

-- A controller at its start, and a port that is connected, whose first read after the reset finds
-- the reset over.
abbrev idle : Controller
idle = record {
  port_config_phase = replicate 256 not_connected;
  addressing_port = 0;
  devmgr = placed;
  cr = fresh 65536 32 (replicate 32 zero_trb);
  er = record {
    buf_ = 131072;
    trbs = replicate 32 zero_trb;
    buf_size = 32;
    state = true;
    erst_ = 196608;
    erst = record { ring_segment_base_address = 131072; ring_segment_size = 32 };
    interrupter = record { erstsz = 1; erstba = 196608; erdp = 131072 };
  };
  allocator = pool_left;
  doorbells_at = 4096;
  rung = [];
  port_writes = [];
}

abbrev plugged : PortReads
plugged = record {
  connected = 1;
  enabled = 2;
  reset_changed = 2 ^ 21;
  clearing = 0;
  speed = 0;
  resetting = 1;
  waiting = 0 ∷ [];
}

abbrev every_port : Ports
every_port port_id = plugged

abbrev port_3_started : Controller
port_3_started = record idle {
  port_config_phase = set (replicate 256 not_connected) 3 resetting_port;
  addressing_port = 3;
  port_writes = (3, reset_word 1) ∷ [];
}

port_3_starts : configure_port idle 3 plugged ≡ some (port_3_started, success)
unfolding configure_port wait_reset
port_3_starts = refl

abbrev port_5_queued : Controller
port_5_queued = record port_3_started {
  port_config_phase = set (set (replicate 256 not_connected) 3 resetting_port) 5 waiting_addressed;
}

port_5_waits : configure_port port_3_started 5 plugged ≡ some (port_5_queued, success)
unfolding configure_port wait_reset
port_5_waits = refl

abbrev no_observers : Defaults
no_observers = record { keyboard_observer = none; mouse_observer = none }

Reach-IsExclusive_example :
    IsExclusive port_5_queued.port_config_phase port_5_queued.addressing_port
Reach-IsExclusive_example =
    Reach.Reach-IsExclusive layout no_observers idle port_5_queued refl refl (
      Reach.Reach.next
        (Reach.Reach.next Reach.Reach.begin (
          Reach.Step.configure_call idle 3 plugged port_3_started success (omega arith, omega arith)
            port_3_starts))
        (Reach.Step.configure_call port_3_started 5 plugged port_5_queued success
          (omega arith, omega arith) port_5_waits))

Reach-Advances_example :
    phase_number (at idle.port_config_phase 3)
    ≤ phase_number (at port_3_started.port_config_phase 3)
Reach-Advances_example = Reach.Reach-Advances layout no_observers idle 3 (
    Reach.Reach.next Reach.Reach.begin (
      Reach.Step.configure_call idle 3 plugged port_3_started success (omega arith, omega arith)
        port_3_starts))

-- An event of port 3 at the front of the event ring.
abbrev port_event : Trb
port_event = record (PortStatusChangeEventTrb.set_port_id PortStatusChangeEventTrb.new 3) {
  data3 = 34 * 2 ^ 10 + 1;
}

abbrev notified : Controller
notified = record idle { er = record (idle.er) { trbs = port_event ∷ replicate 31 zero_trb } }

abbrev nothing_read : ReadsOf
nothing_read at = []

abbrev event_handled : Controller
event_handled = record port_3_started { er = pop notified.er }

event_runs :
    process_event layout no_observers nothing_read 0 notified every_port
    ≡ some (event_handled, success)
unfolding process_event wait_reset
event_runs = refl

port_named : PortStatusChangeEventTrb.port_id (front notified.er) ≡ 3
unfolding front
port_named = refl

process_event-Protocol_example :
    Protocol.Protocol notified.port_config_phase 0 event_handled.port_config_phase 3
    × IsExclusive event_handled.port_config_phase 3
process_event-Protocol_example =
    Protocol.process_event-Protocol layout no_observers nothing_read 0 notified every_port
      event_handled success
      (Reach.Reach-IsExclusive layout no_observers idle idle refl refl Reach.Reach.begin)
      (λ _. omega (arith, port_named)) event_runs

-- A device behind port 3 with a ring for its default pipe, when its address is set and port 5 waits.
abbrev addressed_device : Device
addressed_device = record (new_device layout 8192 1 4100) {
  ctx = record { slot_context = 0 ∷ 3 * 2 ^ 16 ∷ 0 ∷ 0 ∷ 0 ∷ 0 ∷ 0 ∷ 0 ∷ []; ep_contexts = [] };
  transfer_rings = some (fresh 12288 32 (replicate 32 zero_trb)) ∷ replicate 30 none;
}

abbrev addressing : Controller
addressing = record idle {
  port_config_phase =
      set (set (replicate 256 not_connected) 3 addressing_device) 5 waiting_addressed;
  addressing_port = 3;
  devmgr = record placed { devices = none ∷ some addressed_device ∷ none ∷ [] };
}

abbrev device_left : Outcome → Device
device_left none = addressed_device
device_left (some (dev, _)) = dev

starts :
    start_initialize addressed_device
    ≡ some (device_left (start_initialize addressed_device), success)
unfolding start_initialize new_device control_in
starts = refl

in_slot_1 : find_by_slot addressing.devmgr 1 ≡ some addressed_device
unfolding find_by_slot initialize alloc_mem bound align ceil
in_slot_1 = refl

reset_ends : (p : ℕ) → (w : ℕ) × (wait_reset (every_port p).waiting ≡ some w)
unfolding wait_reset
reset_ends p = (1, refl)

some_same : {x y : Device} → some x ≡ some y → x ≡ y
some_same e = cc

able :
    (dev : Device)
    → find_by_slot addressing.devmgr 1 ≡ some dev
    → (dev' : Device) × (e : Error) × (start_initialize dev ≡ some (dev', e))
able dev found = (
  device_left (start_initialize addressed_device),
  success,
  ap start_initialize (some_same (sym found ∙ in_slot_1)) ∙ starts,
)

on_addressed_lem_example : Progress.Addressed addressing 1 every_port
on_addressed_lem_example = Progress.on_addressed_lem addressing 1 every_port reset_ends able

-- The request for a device descriptor, on a ring that was not used yet.
abbrev get_device_descriptor : SetupData
get_device_descriptor = record {
  request_type = 128;
  request = 6;
  value = 256;
  index = 0;
  length = 256;
}

abbrev transfer_ring_32 : Ring
transfer_ring_32 = fresh 12288 32 (replicate 32 zero_trb)

push_with_data_lem_example :
    (r' : Ring) × (data_at : ℕ) × (setup_at : ℕ) × (push_with_data transfer_ring_32
        get_device_descriptor 3 8448 256 true false
      ≡ (r', data_at, setup_at))
    × IsValid r'
    × (holds_address r' data_at ≡ true)
    × (trb_type (trb_of r' data_at) ≡ DataStageTrb.type)
    × (DataStageTrb.pointer (trb_of r' data_at) ≡ 8448)
    × (DataStageTrb.trb_transfer_length (trb_of r' data_at) ≡ 256)
    × (holds_address r' setup_at ≡ true)
    × (read_setup_data (trb_of r' setup_at) ≡ get_device_descriptor)
push_with_data_lem_example =
    RoundTrip.push_with_data_lem transfer_ring_32 get_device_descriptor 3 8448 256 true false
      (fresh-IsValid 12288 32 (omega arith) (omega arith) (omega arith) (omega arith)) (omega arith)
      (record {
        request_type_byte = omega arith;
        request_byte = omega arith;
        value_word = omega arith;
        index_word = omega arith;
        length_word = omega arith;
      })
      (omega arith) (omega arith)

abbrev port_words : ℕ → ℕ
port_words p = to_bit (p == 1 || p == 4)

probe_ports_lem_example :
    (c' : Controller) × (errors : List Error) × (probe_ports idle 4 1 port_words every_port
      ≡ some (c', errors))
    × Probed port_words every_port c'.port_config_phase c'.addressing_port (1 + 4)
probe_ports_lem_example =
    Probe.probe_ports_lem port_words every_port idle 4 (omega arith) refl refl reset_ends

-- A list of two extended registers, the second of them USBLEGSUP.
abbrev extended_registers : ℕ → ℕ
extended_registers r = if r == 0x8000 then 0x402 else 0x1

second_at : next_register extended_registers 0x8000 ≡ 0x8010
unfolding next_register add_or_null
second_at = refl

end_after_second : next_register extended_registers 0x8010 ≡ 0
unfolding next_register add_or_null
end_after_second = refl

ended : (k : ℕ) → register_at extended_registers 0 k ≡ 0
unfolding register_at next_register
ended zero = refl
ended (suc k) = ended k

listed_below : (k : ℕ) → register_at extended_registers 0x8000 k < 0x10000
unfolding register_at
listed_below zero = omega arith
listed_below (suc zero) = omega (arith, second_at)
listed_below (suc (suc k)) = rw (second_at, end_after_second, ended k) (omega arith)

find_capability-Passed_example :
    (r : ℕ) × Passed extended_registers 1 0x8000 r
    × (((r ≡ 0) × (find_capability extended_registers 1 (suc 0x2000) 0x8000 ≡ some none))
        ⊎ ((r ≢ 0)
            × (capability_id (extended_registers r) ≡ 1)
            × (find_capability extended_registers 1 (suc 0x2000) 0x8000 ≡ some (some r))))
find_capability-Passed_example =
    Ownership.find_capability-Passed extended_registers 1 0x10000 0x2000 0x8000 listed_below
      (omega arith) (omega arith)

second_found : find_capability extended_registers 1 3 0x8000 ≡ some (some 0x8010)
unfolding find_capability next_register add_or_null
second_found = refl
