-- ===== src/Xhci.antt =====
-- The host controller driver, kernel/usb/xhci/xhci.hpp and xhci.cpp: the state that its event
-- handlers share, and the handling of ports up to the reset. The global `port_config_phase`, and
-- `addressing_port`, stand in the record of the controller, and so does the allocator.
pub mod Contexts
pub mod Commands
pub mod Events
pub mod Msb
pub mod Effects
pub mod Phases
pub mod Follow
pub mod Exclusive
pub mod Reach
pub mod Runs
pub mod Progress
pub mod Ownership
pub mod Protocol
use mikanos_aarch.Prelude.{
  ℕ, ◌+◌, ◌*◌, Bool, true, false, not, ◌&&◌, List, [], ◌∷◌, Option, none, some, get_or, set, ◌==◌,
  if◌then◌else◌,
}
use mikanos_aarch.Error.{Error, success, invalid_phase}
use mikanos_aarch.Memory.{Allocator}
use mikanos_aarch.Ring.{Ring, push}
use mikanos_aarch.EventRing.{EventRing}
use mikanos_aarch.Trb.{Trb}
use mikanos_aarch.Trb.EnableSlotCommandTrb
use mikanos_aarch.DeviceManager.{DeviceManager}
use mikanos_aarch.Port.{
  is_connected, is_enabled, is_port_reset_changed, reset_word, wait_reset, clear_port_reset_change,
}
use mikanos_aarch.Registers.Crcr

-- `ConfigPhase`.
pub data ConfigPhase : Type 0 where
  not_connected waiting_addressed resetting_port enabling_slot : ConfigPhase
  addressing_device initializing_device configuring_endpoints configured : ConfigPhase

-- The enumerator's number.
abbrev pub phase_number : ConfigPhase → ℕ
phase_number not_connected = 0
phase_number waiting_addressed = 1
phase_number resetting_port = 2
phase_number enabling_slot = 3
phase_number addressing_device = 4
phase_number initializing_device = 5
phase_number configuring_endpoints = 6
phase_number configured = 7

abbrev pub is_phase : ConfigPhase → ConfigPhase → Bool
is_phase p q = phase_number p == phase_number q

-- `kDeviceSize`.
abbrev pub device_size : ℕ
device_size = 8

-- `doorbells_at` is the address of the doorbell registers; `rung` has the writes to the first of
-- them, and `port_writes` those to the ports' PORTSC, with the port's number, the latest first.
pub record Controller : Type 0 where
  pub port_config_phase : List ConfigPhase
  pub addressing_port : ℕ
  pub devmgr : DeviceManager
  pub cr : Ring
  pub er : EventRing
  pub allocator : Allocator
  pub doorbells_at : ℕ
  pub rung : List ℕ
  pub port_writes : List (ℕ × ℕ)

-- What the reads of a port's PORTSC give while an event is handled: a word for each member function
-- of `Port`, none of which is called twice for a port, and those of the wait in `Reset`.
pub record PortReads : Type 0 where
  pub connected : ℕ
  pub enabled : ℕ
  pub reset_changed : ℕ
  pub clearing : ℕ
  pub speed : ℕ
  pub resetting : ℕ
  pub waiting : List ℕ

-- By the port's number.
abbrev pub Ports : Type 0
Ports = ℕ → PortReads

-- What a handler leaves and returns; none is undefined behaviour or a wait without end.
abbrev pub Outcome : Type 0
Outcome = Option (Controller × Error)

abbrev pub phase_of : Controller → ℕ → ConfigPhase
phase_of c port_id = get_or c.port_config_phase port_id not_connected

abbrev pub set_phase : Controller → ℕ → ConfigPhase → Controller
set_phase c port_id phase = record c { port_config_phase = set c.port_config_phase port_id phase }

-- `DoorbellRegisterAt`, whose registers have four bytes.
abbrev pub doorbell_register_at : Controller → ℕ → ℕ
doorbell_register_at c index = c.doorbells_at + 4 * index

-- A push to the command ring, and the ring of doorbell 0 that follows each.
unfoldable pub command : Controller → Trb → Controller
command c trb = record c { cr = (push c.cr trb).0; rung = 0 ∷ c.rung }

-- What `RegisterCommandRing` writes to CRCR, over the word that it reads.
unfoldable pub register_command_ring : Ring → ℕ → ℕ
register_command_ring ring crcr =
    let w1 = Crcr.set_ring_cycle_state crcr 1 in
    let w2 = Crcr.set_command_stop w1 0 in
    let w3 = Crcr.set_command_abort w2 0 in Crcr.set_pointer w3 ring.buf_

-- `Port::Reset`: the word that it writes; none is a reset that does not end.
unfoldable pub port_reset : PortReads → Option ℕ
port_reset reads = elim (wait_reset reads.waiting) [
  | none ↦ none
  | some _ ↦ some (reset_word reads.resetting)
]

-- `ResetPort` from where the port is taken for addressing.
unfoldable pub start_reset : Controller → ℕ → PortReads → Outcome
unfolding port_reset
start_reset c port reads =
    let taken : Controller = record (set_phase c port resetting_port) { addressing_port = port } in
    elim (port_reset reads) [
      | none ↦ none
      | some w ↦ some (record taken { port_writes = (port, w) ∷ c.port_writes }, success)
    ]

-- `ResetPort`.
unfoldable pub reset_port : Controller → ℕ → PortReads → Outcome
unfolding start_reset
reset_port c port reads =
    let phase = phase_of c port in
    if not (is_connected reads.connected)
    then some (c, success)
    else (if not (c.addressing_port == 0)
        then some (set_phase c port waiting_addressed, success)
        else (if not (is_phase phase not_connected) && not (is_phase phase waiting_addressed)
            then some (c, invalid_phase)
            else start_reset c port reads))

-- `EnableSlot`.
unfoldable pub enable_slot : Controller → ℕ → PortReads → Controller × Error
unfolding command
enable_slot c port reads =
    if is_enabled reads.enabled && is_port_reset_changed reads.reset_changed
    then (
      command
          (record (set_phase c port enabling_slot) {
            port_writes = (port, clear_port_reset_change reads.clearing) ∷ c.port_writes;
          })
          EnableSlotCommandTrb.new,
      success,
    )
    else (c, success)

-- `ConfigurePort`.
unfoldable pub configure_port : Controller → ℕ → PortReads → Outcome
unfolding reset_port
configure_port c port reads =
    if is_phase (phase_of c port) not_connected then reset_port c port reads else some (c, success)
