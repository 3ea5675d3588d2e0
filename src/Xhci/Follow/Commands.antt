-- ===== src/Xhci/Follow/Commands.antt =====
-- The command completion event of kernel/usb/xhci/xhci.cpp makes one change to the phases.
use mikanos_aarch.Prelude.{
  ℕ, ◌≡◌, ◌⊎◌, inl, inr, sym, ap, ◌∙◌, Bool, true, none, some, set, ◌==◌, if◌then◌else◌, arith,
  ==_iff, Option-cases, Bool-cases, subst,
}
use mikanos_aarch.Error.{Error, invalid_phase, invalid_slot_id, is_error}
use mikanos_aarch.Trb.{Trb, slot_id}
use mikanos_aarch.Device.{Device, Layout}
use mikanos_aarch.DeviceManager.{DeviceManager, find_by_slot, port_of}
use mikanos_aarch.Xhci.{
  Controller, Ports, enabling_slot, addressing_device, initializing_device, configuring_endpoints,
  configured, is_phase, phase_of,
}
use mikanos_aarch.Xhci.Commands.{address_device, initialize_device, complete_configuration}
use mikanos_aarch.Xhci.Events.{
  reset_waiting, on_addressed, on_endpoints, on_slot_enabled, on_command_completion_event,
}
use mikanos_aarch.Xhci.Effects.{
  Has, address_device-Has, initialize_device-Has, complete_configuration-Has,
}
use mikanos_aarch.Xhci.Phases.{at, address, finish, hand_over, strand, complete}
use mikanos_aarch.Xhci.Follow.{Follows, Follows-Has, Follows-Same, Follows-stay, named}
use mikanos_aarch.Xhci.Follow.HandOver.{
  HandedOver, nobody, next_started, next_unplugged, reset_waiting-HandedOver, HandedOver-no_error,
  HandedOver-devmgr,
}

-- The phase of the old port is written last.
initialized-Follows :
    (c c1 c' : Controller) (e : Error)
    → at c.port_config_phase c.addressing_port ≡ addressing_device
    → HandedOver c c1 e
    → Has c' (set c1.port_config_phase c.addressing_port initializing_device) c1.addressing_port
    → Follows c c'
initialized-Follows c c1 c' e phase (nobody _ idle h _) k =
    rw (k.phases_are, k.port_is, h.phases_are, h.port_is) (finish phase idle)
initialized-Follows c c1 c' e phase (next_started i _ first h _) k =
    rw (k.phases_are, k.port_is, h.phases_are, h.port_is) (hand_over i phase first)
initialized-Follows c c1 c' e phase (next_unplugged i _ first h _) k =
    rw (k.phases_are, k.port_is, h.phases_are, h.port_is) (strand i phase first)

on_addressed_cases :
    (c : Controller) (slot : ℕ) (ports : Ports)
    → (on_addressed c slot ports ≡ some (c, invalid_slot_id))
      ⊎ (on_addressed c slot ports ≡ some (c, invalid_phase))
      ⊎ (on_addressed c slot ports ≡ none)
      ⊎ ((dev : Device) × (c1 : Controller) × (e1 : Error) × (find_by_slot c.devmgr slot ≡ some dev)
          × (port_of dev ≡ c.addressing_port)
          × (is_phase (phase_of c (port_of dev)) addressing_device ≡ true)
          × (reset_waiting c ports ≡ some (c1, e1))
          × (on_addressed c slot ports
              ≡ (if is_error e1 then some (c1, e1) else initialize_device c1 (port_of dev) slot)))
unfolding on_addressed
on_addressed_cases c slot ports = elim (Option-cases (find_by_slot c.devmgr slot)) [
  | inl x ↦ inl (ground arith)
  | inr (dev, x) ↦ elim (Bool-cases (port_of dev == c.addressing_port)) [
    | inr other ↦ inr (inl (ground arith))
    | inl same ↦ elim (Bool-cases (is_phase (phase_of c (port_of dev)) addressing_device)) [
      | inr other ↦ inr (inl (ground arith))
      | inl phase ↦ elim (Option-cases (reset_waiting c ports)) [
        | inl y ↦ inr (inr (inl (ground arith)))
        | inr ((c1, e1), y) ↦ inr (
            inr (
              inr (
                dev,
                c1,
                e1,
                x,
                (==_iff (port_of dev) c.addressing_port).0 same,
                phase,
                y,
                ground arith,
              )))
      ]
    ]
  ]
]

on_addressed-Follows :
    (c : Controller) (slot : ℕ) (ports : Ports) (c' : Controller) (e : Error)
    → on_addressed c slot ports ≡ some (c', e)
    → Follows c c'
on_addressed-Follows c slot ports c' e h = elim (on_addressed_cases c slot ports) [
  | inl x ↦ Follows-stay c c' invalid_slot_id e (sym x ∙ h)
  | inr (inl x) ↦ Follows-stay c c' invalid_phase e (sym x ∙ h)
  | inr (inr (inl x)) ↦ absurd (cc (x, h))
  | inr (inr (inr (dev, c1, e1, found, same, phase, y, x))) ↦
      let over = reset_waiting-HandedOver c ports c1 e1 y in
      let run : initialize_device c1 (port_of dev) slot ≡ some (c', e) =
        subst
          (λ (b : Bool).
            (if b then some (c1, e1) else initialize_device c1 (port_of dev) slot) ≡ some (c', e))
          (HandedOver-no_error over) (sym x ∙ h) in
      let done =
        initialize_device-Has c1 (port_of dev) slot dev c' e
          (ap (λ (m : DeviceManager). find_by_slot m slot) (HandedOver-devmgr over) ∙ found) run in
      initialized-Follows c c1 c' e1
        (ap (at c.port_config_phase) (sym same)
          ∙ named (phase_of c (port_of dev)) addressing_device phase)
        over
        (subst
          (λ (p : ℕ). Has c' (set c1.port_config_phase p initializing_device) c1.addressing_port)
          same done)
]

on_endpoints_cases :
    (c : Controller) (slot : ℕ)
    → (on_endpoints c slot ≡ some (c, invalid_slot_id))
      ⊎ (on_endpoints c slot ≡ some (c, invalid_phase))
      ⊎ ((dev : Device) × (find_by_slot c.devmgr slot ≡ some dev)
          × (is_phase (phase_of c (port_of dev)) configuring_endpoints ≡ true)
          × (on_endpoints c slot ≡ complete_configuration c (port_of dev) slot))
unfolding on_endpoints
on_endpoints_cases c slot = elim (Option-cases (find_by_slot c.devmgr slot)) [
  | inl x ↦ inl (ground arith)
  | inr (dev, x) ↦ elim (Bool-cases (is_phase (phase_of c (port_of dev)) configuring_endpoints)) [
    | inr other ↦ inr (inl (ground arith))
    | inl phase ↦ inr (inr (dev, x, phase, ground arith))
  ]
]

on_endpoints-Follows :
    (c : Controller) (slot : ℕ) (c' : Controller) (e : Error)
    → on_endpoints c slot ≡ some (c', e)
    → Follows c c'
on_endpoints-Follows c slot c' e h = elim (on_endpoints_cases c slot) [
  | inl x ↦ Follows-stay c c' invalid_slot_id e (sym x ∙ h)
  | inr (inl x) ↦ Follows-stay c c' invalid_phase e (sym x ∙ h)
  | inr (inr (dev, found, phase, x)) ↦
      Follows-Has c c' (set c.port_config_phase (port_of dev) configured) c.addressing_port
        (complete_configuration-Has c (port_of dev) slot dev c' e found (sym x ∙ h))
        (complete (port_of dev) (named (phase_of c (port_of dev)) configuring_endpoints phase))
]

module _ (l : Layout) where
  on_slot_enabled_cases :
      (c : Controller) (slot : ℕ) (ports : Ports)
      → (on_slot_enabled l c slot ports ≡ some (c, invalid_phase))
        ⊎ ((is_phase (phase_of c c.addressing_port) enabling_slot ≡ true)
            × (on_slot_enabled l c slot ports
                ≡ address_device l c c.addressing_port slot (ports c.addressing_port)))
  unfolding on_slot_enabled
  on_slot_enabled_cases c slot ports = ground arith

  on_slot_enabled-Follows :
      (c : Controller) (slot : ℕ) (ports : Ports) (c' : Controller) (e : Error)
      → on_slot_enabled l c slot ports ≡ some (c', e)
      → Follows c c'
  on_slot_enabled-Follows c slot ports c' e h = elim (on_slot_enabled_cases c slot ports) [
    | inl x ↦ Follows-stay c c' invalid_phase e (sym x ∙ h)
    | inr (phase, x) ↦
        elim (address_device-Has l c c.addressing_port slot (ports c.addressing_port) c' e
          (sym x ∙ h)) [
            | inl same ↦ Follows-Same c c' same
            | inr k ↦
                Follows-Has c c' (set c.port_config_phase c.addressing_port addressing_device)
                  c.addressing_port k
                  (address (named (phase_of c c.addressing_port) enabling_slot phase))
          ]
  ]

  on_command_completion_event_cases :
      (c : Controller) (trb : Trb) (ports : Ports)
      → (on_command_completion_event l c trb ports ≡ none)
        ⊎ (on_command_completion_event l c trb ports ≡ on_slot_enabled l c (slot_id trb) ports)
        ⊎ (on_command_completion_event l c trb ports ≡ on_addressed c (slot_id trb) ports)
        ⊎ (on_command_completion_event l c trb ports ≡ on_endpoints c (slot_id trb))
        ⊎ (on_command_completion_event l c trb ports ≡ some (c, invalid_phase))
  unfolding on_command_completion_event
  on_command_completion_event_cases c trb ports = ground arith

  pub on_command_completion_event-Follows :
      (c : Controller) (trb : Trb) (ports : Ports) (c' : Controller) (e : Error)
      → on_command_completion_event l c trb ports ≡ some (c', e)
      → Follows c c'
  on_command_completion_event-Follows c trb ports c' e h =
      elim (on_command_completion_event_cases c trb ports) [
        | inl x ↦ absurd (cc (x, h))
        | inr (inl x) ↦ on_slot_enabled-Follows c (slot_id trb) ports c' e (sym x ∙ h)
        | inr (inr (inl x)) ↦ on_addressed-Follows c (slot_id trb) ports c' e (sym x ∙ h)
        | inr (inr (inr (inl x))) ↦ on_endpoints-Follows c (slot_id trb) c' e (sym x ∙ h)
        | inr (inr (inr (inr x))) ↦ Follows-stay c c' invalid_phase e (sym x ∙ h)
      ]
