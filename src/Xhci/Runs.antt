-- ===== src/Xhci/Runs.antt =====
-- What the handler of a completed Address Device command in kernel/usb/xhci/xhci.cpp and the operations
-- that it calls return, branch by branch.
use mikanos_aarch.Prelude.{◌≡◌, ◌≢◌, refl, ◌∙◌, true, ◌∷◌, some, arith, false, ℕ, none}
use mikanos_aarch.Error.{Error, success, invalid_slot_id, invalid_phase}
use mikanos_aarch.Port.{is_connected, wait_reset, reset_word}
use mikanos_aarch.Device.{Device}
use mikanos_aarch.Device.Initialize.{start_initialize}
use mikanos_aarch.DeviceManager.{find_by_slot, port_of}
use mikanos_aarch.Xhci.{
  Controller, PortReads, Ports, waiting_addressed, resetting_port, addressing_device,
  initializing_device, phase_of, set_phase, port_reset, start_reset, reset_port, is_phase,
}
use mikanos_aarch.Xhci.Commands.{with_device, initialize_device}
use mikanos_aarch.Xhci.Events.{first_waiting, reset_waiting, on_addressed}

-- The next port, as its reset leaves the controller.
abbrev pub handed : Controller → ℕ → PortReads → Controller
handed c i reads = record (set_phase c i resetting_port) {
  addressing_port = i;
  port_writes = (i, reset_word reads.resetting) ∷ c.port_writes;
}

pub start_reset_run :
    (c : Controller) (i : ℕ) (reads : PortReads) (n : ℕ)
    → wait_reset reads.waiting ≡ some n
    → start_reset c i reads ≡ some (handed c i reads, success)
unfolding start_reset port_reset
start_reset_run c i reads n h = ground arith

pub reset_port_run :
    (c : Controller) (i : ℕ) (reads : PortReads)
    → c.addressing_port ≡ 0
    → phase_of c i ≡ waiting_addressed
    → is_connected reads.connected ≡ true
    → reset_port c i reads ≡ start_reset c i reads
unfolding reset_port
reset_port_run c i reads free w plugged = ground arith

pub reset_waiting_at :
    (c : Controller) (ports : Ports) (i : ℕ)
    → first_waiting c.port_config_phase 0 ≡ some i
    → reset_waiting c ports ≡ reset_port (record c { addressing_port = 0 }) i (ports i)
unfolding reset_waiting
reset_waiting_at c ports i e = ground arith

pub reset_waiting_run :
    (c : Controller) (ports : Ports) (i n : ℕ)
    → first_waiting c.port_config_phase 0 ≡ some i
    → phase_of c i ≡ waiting_addressed
    → is_connected (ports i).connected ≡ true
    → wait_reset (ports i).waiting ≡ some n
    → reset_waiting c ports ≡ some (handed c i (ports i), success)
reset_waiting_run c ports i n e w plugged ends =
    reset_waiting_at c ports i e
    ∙ reset_port_run (record c { addressing_port = 0 }) i (ports i) refl w plugged
    ∙ start_reset_run (record c { addressing_port = 0 }) i (ports i) n ends

pub initialize_device_run :
    (c : Controller) (port slot : ℕ) (dev dev' : Device) (e : Error)
    → find_by_slot c.devmgr slot ≡ some dev
    → start_initialize dev ≡ some (dev', e)
    → initialize_device c port slot
      ≡ some (with_device (set_phase c port initializing_device) slot dev', success)
unfolding initialize_device
initialize_device_run c port slot dev dev' e found started = ground arith

pub on_addressed_run :
    (c c1 : Controller) (slot : ℕ) (ports : Ports) (dev : Device)
    → find_by_slot c.devmgr slot ≡ some dev
    → port_of dev ≡ c.addressing_port
    → phase_of c c.addressing_port ≡ addressing_device
    → reset_waiting c ports ≡ some (c1, success)
    → on_addressed c slot ports ≡ initialize_device c1 c.addressing_port slot
unfolding on_addressed
on_addressed_run c c1 slot ports dev found same phase run = ground arith

pub reset_port_unplugged :
    (c : Controller) (i : ℕ) (reads : PortReads)
    → is_connected reads.connected ≡ false
    → reset_port c i reads ≡ some (c, success)
unfolding reset_port
reset_port_unplugged c i reads out = ground arith

-- No port is addressed.
abbrev pub freed : Controller → Controller
freed c = record c { addressing_port = 0 }

pub reset_waiting_idle :
    (c : Controller) (ports : Ports)
    → first_waiting c.port_config_phase 0 ≡ none
    → reset_waiting c ports ≡ some (freed c, success)
unfolding reset_waiting
reset_waiting_idle c ports e = ground arith

-- The handler's tests, where it goes no further.
pub on_addressed_no_device :
    (c : Controller) (slot : ℕ) (ports : Ports)
    → find_by_slot c.devmgr slot ≡ none
    → on_addressed c slot ports ≡ some (c, invalid_slot_id)
unfolding on_addressed
on_addressed_no_device c slot ports e = ground arith

pub on_addressed_other_port :
    (c : Controller) (slot : ℕ) (ports : Ports) (dev : Device)
    → find_by_slot c.devmgr slot ≡ some dev
    → port_of dev ≢ c.addressing_port
    → on_addressed c slot ports ≡ some (c, invalid_phase)
unfolding on_addressed
on_addressed_other_port c slot ports dev e h = ground arith

pub on_addressed_other_phase :
    (c : Controller) (slot : ℕ) (ports : Ports) (dev : Device)
    → find_by_slot c.devmgr slot ≡ some dev
    → port_of dev ≡ c.addressing_port
    → is_phase (phase_of c c.addressing_port) addressing_device ≡ false
    → on_addressed c slot ports ≡ some (c, invalid_phase)
unfolding on_addressed
on_addressed_other_phase c slot ports dev e same h = ground arith
