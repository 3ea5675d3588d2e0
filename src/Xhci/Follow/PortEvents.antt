-- ===== src/Xhci/Follow/PortEvents.antt =====
-- The port status change event of kernel/usb/xhci/xhci.cpp, and `ConfigurePort`, make one change to
-- the phases.
use mikanos_aarch.Prelude.{ℕ, ◌≤◌, ◌≡◌, ◌⊎◌, inl, inr, sym, ◌∙◌, true, some, set, arith}
use mikanos_aarch.Error.{Error, success, invalid_phase}
use mikanos_aarch.Trb.{Trb}
use mikanos_aarch.Trb.PortStatusChangeEventTrb
use mikanos_aarch.Xhci.{
  Controller, PortReads, Ports, not_connected, resetting_port, enabling_slot, is_phase, phase_of,
  reset_port, enable_slot, configure_port,
}
use mikanos_aarch.Xhci.Events.{on_port_status_change_event}
use mikanos_aarch.Xhci.Effects.{
  ResetOf, unplugged, queued, refused, started, enable_slot-Has, reset_port-ResetOf,
}
use mikanos_aarch.Xhci.Phases.{IsPort, stay, wait, start, enable}
use mikanos_aarch.Xhci.Follow.{Follows, Follows-Has, Follows-Same, Follows-stay, named}

reset_new-Follows :
    (c : Controller) (port : ℕ) (reads : PortReads) (c' : Controller) (e : Error)
    → IsPort port
    → phase_of c port ≡ not_connected
    → ResetOf c port reads c' e
    → Follows c c'
reset_new-Follows c port reads c' e lo new (unplugged _) = stay
reset_new-Follows c port reads c' e lo new (queued _ busy) = wait port lo new busy
reset_new-Follows c port reads c' e lo new (refused _ _ _ _) = stay
reset_new-Follows c port reads c' e lo new (started w _ free _) = start port lo new free

on_port_status_change_event_cases :
    (c : Controller) (trb : Trb) (ports : Ports)
    → ((phase_of c (PortStatusChangeEventTrb.port_id trb) ≡ not_connected)
        × (on_port_status_change_event c trb ports
            ≡ reset_port c
                (PortStatusChangeEventTrb.port_id trb)
                (ports (PortStatusChangeEventTrb.port_id trb))))
      ⊎ ((phase_of c (PortStatusChangeEventTrb.port_id trb) ≡ resetting_port)
          × (on_port_status_change_event c trb ports
              ≡ some (
                  enable_slot c
                    (PortStatusChangeEventTrb.port_id trb)
                    (ports (PortStatusChangeEventTrb.port_id trb)))))
      ⊎ (on_port_status_change_event c trb ports ≡ some (c, invalid_phase))
unfolding on_port_status_change_event
on_port_status_change_event_cases c trb ports = ground arith

enabled-Follows :
    (c : Controller) (port : ℕ) (reads : PortReads)
    → phase_of c port ≡ resetting_port
    → Follows c (enable_slot c port reads).0
enabled-Follows c port reads phase = elim (enable_slot-Has c port reads) [
  | inl h ↦ Follows-Same c (enable_slot c port reads).0 h
  | inr h ↦
      Follows-Has c (enable_slot c port reads).0 (set c.port_config_phase port enabling_slot)
        c.addressing_port h (enable port phase)
]

pub on_port_status_change_event-Follows :
    (c : Controller) (trb : Trb) (ports : Ports) (c' : Controller) (e : Error)
    → 1 ≤ PortStatusChangeEventTrb.port_id trb
    → on_port_status_change_event c trb ports ≡ some (c', e)
    → Follows c c'
on_port_status_change_event-Follows c trb ports c' e lo h =
    elim (on_port_status_change_event_cases c trb ports) [
      | inl (new, x) ↦
          reset_new-Follows c port (ports port) c' e (lo, omega arith) new
            (reset_port-ResetOf c port (ports port) c' e (sym x ∙ h))
      | inr (inl (phase, x)) ↦
          let same : c' ≡ (enable_slot c port (ports port)).0 = cc (sym x ∙ h) in
          rw same (enabled-Follows c port (ports port) phase)
      | inr (inr x) ↦ Follows-stay c c' invalid_phase e (sym x ∙ h)
    ]
  where
    port : ℕ
    port = PortStatusChangeEventTrb.port_id trb

configure_port_cases :
    (c : Controller) (port : ℕ) (reads : PortReads)
    → ((is_phase (phase_of c port) not_connected ≡ true)
        × (configure_port c port reads ≡ reset_port c port reads))
      ⊎ (configure_port c port reads ≡ some (c, success))
unfolding configure_port
configure_port_cases c port reads = ground arith

pub configure_port-Follows :
    (c : Controller) (port : ℕ) (reads : PortReads) (c' : Controller) (e : Error)
    → IsPort port
    → configure_port c port reads ≡ some (c', e)
    → Follows c c'
configure_port-Follows c port reads c' e lo h = elim (configure_port_cases c port reads) [
  | inl (new, x) ↦
      reset_new-Follows c port reads c' e lo (named (phase_of c port) not_connected new)
        (reset_port-ResetOf c port reads c' e (sym x ∙ h))
  | inr x ↦ Follows-stay c c' success e (sym x ∙ h)
]
