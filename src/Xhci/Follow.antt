-- ===== src/Xhci/Follow.antt =====
-- Every event handler of kernel/usb/xhci/xhci.cpp makes one change to the ports' phases: what that is.
pub mod PortEvents
pub mod HandOver
pub mod Commands
pub mod Events
use mikanos_aarch.Prelude.{
  ℕ, ◌+◌, ◌≤◌, ◌<◌, ◌≡◌, ◌≢◌, ◌⊎◌, inl, inr, refl, sym, ap, ◌∙◌, Bool, true, false, not, ◌&&◌, List,
  Option, none, some, get_or, set, ◌==◌, if◌then◌else◌, arith, ==_iff, Option-cases, Bool-cases,
  subst,
}
use mikanos_aarch.Error.{Error, success, invalid_phase, invalid_slot_id, not_implemented, is_error}
use mikanos_aarch.EventRing.{front, has_front, pop}
use mikanos_aarch.Trb.{Trb, trb_type, slot_id}
use mikanos_aarch.Trb.TransferEventTrb
use mikanos_aarch.Trb.PortStatusChangeEventTrb
use mikanos_aarch.Trb.CommandCompletionEventTrb
use mikanos_aarch.Device.{Device, Layout, ReadsOf}
use mikanos_aarch.Device.Initialize.{Defaults}
use mikanos_aarch.Device.Events.{on_transfer_event_received}
use mikanos_aarch.DeviceManager.{DeviceManager, find_by_slot, port_of}
use mikanos_aarch.Xhci.{
  Controller, ConfigPhase, PortReads, Ports, Outcome, not_connected, waiting_addressed,
  resetting_port, enabling_slot, addressing_device, initializing_device, configuring_endpoints,
  configured, is_phase, phase_of, set_phase, reset_port, enable_slot, configure_port,
}
use mikanos_aarch.Xhci.Commands.{
  with_device, address_device, initialize_device, complete_configuration, configure_endpoints,
}
use mikanos_aarch.Xhci.Events.{
  on_port_status_change_event, first_waiting, reset_waiting, on_addressed, on_endpoints,
  on_slot_enabled, issuer_type, on_command_completion_event, on_transfer_event, on_event,
  process_event,
}
use mikanos_aarch.Xhci.Effects.{
  Has, Same, ResetOf, unplugged, queued, refused, started, is_phase_iff, not_phase, outcome_of,
  reply_of, enable_slot-Has, address_device-Has, initialize_device-Has, complete_configuration-Has,
  configure_endpoints-Has, reset_port-ResetOf,
}
use mikanos_aarch.Xhci.Phases.{
  Change, at, IsFirstWaiting, NoneWaiting, stay, wait, start, enable, address, finish, hand_over,
  strand, configure, complete, first_waiting-some, first_waiting-none,
}

-- A change of the phases between the states of a controller.
abbrev pub Follows : Controller → Controller → Type 0
Follows c c' = Change c.port_config_phase c.addressing_port c'.port_config_phase c'.addressing_port

pub Follows-Has :
    (c c' : Controller) (phases : List ConfigPhase) (port : ℕ)
    → Has c' phases port
    → Change c.port_config_phase c.addressing_port phases port
    → Follows c c'
Follows-Has c c' phases port h s = rw (h.phases_are, h.port_is) s

pub Follows-Same : (c c' : Controller) → Same c c' → Follows c c'
Follows-Same c c' h = Follows-Has c c' c.port_config_phase c.addressing_port h stay

pub named : (p q : ConfigPhase) → is_phase p q ≡ true → p ≡ q
named p q = (is_phase_iff p q).0

-- A handler that leaves the controller as it is.
pub Follows-stay :
    (c c' : Controller) (e e' : Error)
    → ◌≡◌ {A = Outcome} (some (c, e)) (some (c', e'))
    → Follows c c'
Follows-stay c c' e e' h = (let same = outcome_of h in rw same stay)
