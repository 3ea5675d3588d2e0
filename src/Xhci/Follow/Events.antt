-- ===== src/Xhci/Follow/Events.antt =====
-- The transfer event of kernel/usb/xhci/xhci.cpp, and `ProcessEvent`, make one change to the phases.
use mikanos_aarch.Prelude.{
  ℕ, ◌≤◌, ◌≡◌, ◌⊎◌, inl, inr, refl, sym, ◌∙◌, true, ◌&&◌, none, some, set, arith, Option-cases,
  Bool-cases,
}
use mikanos_aarch.Error.{Error, success, invalid_slot_id, not_implemented, is_error}
use mikanos_aarch.EventRing.{front, has_front, pop}
use mikanos_aarch.Trb.{Trb, trb_type, slot_id}
use mikanos_aarch.Trb.PortStatusChangeEventTrb
use mikanos_aarch.Device.{Device, Layout, ReadsOf}
use mikanos_aarch.Device.Initialize.{Defaults}
use mikanos_aarch.Device.Events.{on_transfer_event_received}
use mikanos_aarch.DeviceManager.{find_by_slot, port_of}
use mikanos_aarch.Xhci.{
  Controller, Ports, initializing_device, configuring_endpoints, is_phase, phase_of,
}
use mikanos_aarch.Xhci.Commands.{with_device, configure_endpoints}
use mikanos_aarch.Xhci.Events.{
  on_port_status_change_event, on_command_completion_event, on_transfer_event, on_event,
  process_event,
}
use mikanos_aarch.Xhci.Effects.{Has, Same, outcome_of, configure_endpoints-Has}
use mikanos_aarch.Xhci.Phases.{stay, configure}
use mikanos_aarch.Memory.{Allocator}
use mikanos_aarch.Xhci.Follow.{Follows, Follows-Same, Follows-stay, named}
use mikanos_aarch.Xhci.Follow.PortEvents.{on_port_status_change_event-Follows}
use mikanos_aarch.Xhci.Follow.Commands.{on_command_completion_event-Follows}

-- A port status change names a port; root hub ports are numbered from 1 on.
abbrev pub NamesPort : Trb → Type 0
NamesPort trb =
    trb_type trb ≡ PortStatusChangeEventTrb.type → 1 ≤ PortStatusChangeEventTrb.port_id trb

configured-Follows :
    (c c1 : Controller) (dev : Device) (c' : Controller)
    → Same c c1
    → phase_of c (port_of dev) ≡ initializing_device
    → Same c1 c'
      ⊎ Has c' (set c1.port_config_phase (port_of dev) configuring_endpoints) c1.addressing_port
    → Follows c c'
configured-Follows c c1 dev c' same phase (inl k) =
    rw (k.phases_are, k.port_is, same.phases_are, same.port_is) stay
configured-Follows c c1 dev c' same phase (inr k) =
    rw (k.phases_are, k.port_is, same.phases_are, same.port_is) (configure (port_of dev) phase)

module _ (l : Layout) (o : Defaults) (memory : ReadsOf) (rounds : ℕ) where
  on_transfer_event_cases :
      (c : Controller) (trb : Trb) (ports : Ports)
      → (on_transfer_event l o memory rounds c trb ports ≡ none)
        ⊎ ((c' : Controller) × (e' : Error) × Same c c'
            × (on_transfer_event l o memory rounds c trb ports ≡ some (c', e')))
        ⊎ ((c1 : Controller) × (dev : Device) × Same c c1
            × (is_phase (phase_of c (port_of dev)) initializing_device ≡ true)
            × (on_transfer_event l o memory rounds c trb ports
                ≡ configure_endpoints l c1 (slot_id trb) dev ports))
  unfolding on_transfer_event
  on_transfer_event_cases c trb ports = elim (Option-cases (find_by_slot c.devmgr (slot_id trb))) [
    | inl x ↦
        inr (inl (c, invalid_slot_id, record { phases_are = refl; port_is = refl }, ground arith))
    | inr (dev, x) ↦
        elim (Option-cases (on_transfer_event_received l o memory rounds dev c.allocator trb)) [
          | inl y ↦ inl (ground arith)
          | inr ((dev', a, e), y) ↦ elim (Bool-cases (is_error e)) [
            | inl bad ↦ inr (
                inl (written dev' a, e, record { phases_are = refl; port_is = refl }, ground arith))
            | inr good ↦
                elim (Bool-cases (
                  dev'.is_initialized
                  && is_phase (phase_of c (port_of dev')) initializing_device)) [
                    | inl go ↦ inr (
                        inr (
                          written dev' a,
                          dev',
                          record { phases_are = refl; port_is = refl },
                          ground arith,
                          ground arith,
                        ))
                    | inr wait_on ↦ inr (
                        inl (
                          written dev' a,
                          success,
                          record { phases_are = refl; port_is = refl },
                          ground arith,
                        ))
                  ]
          ]
        ]
  ]
    where
      written : Device → Allocator → Controller
      written dev a = record (with_device c (slot_id trb) dev) { allocator = a }

  on_transfer_event-Follows :
      (c : Controller) (trb : Trb) (ports : Ports) (c' : Controller) (e : Error)
      → on_transfer_event l o memory rounds c trb ports ≡ some (c', e)
      → Follows c c'
  on_transfer_event-Follows c trb ports c' e h = elim (on_transfer_event_cases c trb ports) [
    | inl x ↦ absurd (cc (x, h))
    | inr (inl (c1, e1, same, x)) ↦
        (let eq = outcome_of (sym x ∙ h) in Follows-Same c c' (rw eq same))
    | inr (inr (c1, dev, same, phase, x)) ↦
        configured-Follows c c1 dev c' same
          (named (phase_of c (port_of dev)) initializing_device phase)
          (configure_endpoints-Has l c1 (slot_id trb) dev ports c' e (sym x ∙ h))
  ]

  on_event_cases :
      (c : Controller) (trb : Trb) (ports : Ports)
      → (on_event l o memory rounds c trb ports ≡ on_transfer_event l o memory rounds c trb ports)
        ⊎ ((trb_type trb ≡ PortStatusChangeEventTrb.type)
            × (on_event l o memory rounds c trb ports ≡ on_port_status_change_event c trb ports))
        ⊎ (on_event l o memory rounds c trb ports ≡ on_command_completion_event l c trb ports)
        ⊎ (on_event l o memory rounds c trb ports ≡ some (c, not_implemented))
  unfolding on_event
  on_event_cases c trb ports = ground arith

  on_event-Follows :
      (c : Controller) (trb : Trb) (ports : Ports) (c' : Controller) (e : Error)
      → NamesPort trb
      → on_event l o memory rounds c trb ports ≡ some (c', e)
      → Follows c c'
  on_event-Follows c trb ports c' e lo h = elim (on_event_cases c trb ports) [
    | inl x ↦ on_transfer_event-Follows c trb ports c' e (sym x ∙ h)
    | inr (inl (is, x)) ↦ on_port_status_change_event-Follows c trb ports c' e (lo is) (sym x ∙ h)
    | inr (inr (inl x)) ↦ on_command_completion_event-Follows l c trb ports c' e (sym x ∙ h)
    | inr (inr (inr x)) ↦ Follows-stay c c' not_implemented e (sym x ∙ h)
  ]

  process_event_cases :
      (c : Controller) (ports : Ports)
      → (process_event l o memory rounds c ports ≡ some (c, success))
        ⊎ (process_event l o memory rounds c ports ≡ none)
        ⊎ ((c1 : Controller) × (e1 : Error) × (on_event l o memory rounds c (front c.er) ports
              ≡ some (c1, e1))
            × (process_event l o memory rounds c ports ≡ some (record c1 { er = pop c1.er }, e1)))
  unfolding process_event
  process_event_cases c ports = elim (Bool-cases (has_front c.er)) [
    | inr idle ↦ inl (ground arith)
    | inl event ↦ elim (Option-cases (on_event l o memory rounds c (front c.er) ports)) [
      | inl x ↦ inr (inl (ground arith))
      | inr ((c1, e1), x) ↦ inr (inr (c1, e1, x, ground arith))
    ]
  ]

  -- Whatever event `ProcessEvent` handles, and whichever way it returns, the phases of the ports and
  -- the addressed port change by one `Change`, where the number of a port that a port
  -- status change event names is not 0.
  pub process_event-Follows :
      (c : Controller) (ports : Ports) (c' : Controller) (e : Error)
      → NamesPort (front c.er)
      → process_event l o memory rounds c ports ≡ some (c', e)
      → Follows c c'
  process_event-Follows c ports c' e lo h = elim (process_event_cases c ports) [
    | inl x ↦ Follows-stay c c' success e (sym x ∙ h)
    | inr (inl x) ↦ absurd (cc (x, h))
    | inr (inr (c1, e1, x, y)) ↦
        let eq = outcome_of (sym y ∙ h) in rw eq (on_event-Follows c (front c.er) ports c1 e1 lo x)
  ]
