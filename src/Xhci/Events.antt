-- ===== src/Xhci/Events.antt =====
-- kernel/usb/xhci/xhci.cpp: the three `OnEvent` and `ProcessEvent`.
use mikanos_aarch.Prelude.{
  ℕ, ◌+◌, ◌==◌, not, List, [], ◌∷◌, Option, none, some, ◌&&◌, if◌then◌else◌,
}
use mikanos_aarch.Error.{success, invalid_slot_id, invalid_phase, not_implemented, is_error}
use mikanos_aarch.EventRing.{front, has_front, pop}
use mikanos_aarch.Trb.{Trb, trb_type, slot_id}
use mikanos_aarch.Trb.EnableSlotCommandTrb
use mikanos_aarch.Trb.AddressDeviceCommandTrb
use mikanos_aarch.Trb.ConfigureEndpointCommandTrb
use mikanos_aarch.Trb.TransferEventTrb
use mikanos_aarch.Trb.CommandCompletionEventTrb
use mikanos_aarch.Trb.PortStatusChangeEventTrb
use mikanos_aarch.Device.{Layout, ReadsOf, holds_address, trb_of}
use mikanos_aarch.Device.Initialize.{Defaults}
use mikanos_aarch.Device.Events.{on_transfer_event_received}
use mikanos_aarch.DeviceManager.{find_by_slot, port_of}
use mikanos_aarch.Xhci.{
  Controller, ConfigPhase, Ports, Outcome, not_connected, waiting_addressed, resetting_port,
  enabling_slot, addressing_device, initializing_device, configuring_endpoints, phase_of, is_phase,
  reset_port, enable_slot,
}
use mikanos_aarch.Xhci.Commands.{
  with_device, address_device, initialize_device, complete_configuration, configure_endpoints,
}

-- `OnEvent` of a port status change.
unfoldable pub on_port_status_change_event : Controller → Trb → Ports → Outcome
unfolding reset_port enable_slot
on_port_status_change_event c trb ports =
    let port_id = PortStatusChangeEventTrb.port_id trb in
    elim (phase_of c port_id) [
      | not_connected ↦ reset_port c port_id (ports port_id)
      | resetting_port ↦ some (enable_slot c port_id (ports port_id))
      | _ ↦ some (c, invalid_phase)
    ]

-- The loop for a port that waits: the lowest number from `i` on.
unfoldable pub first_waiting : List ConfigPhase → ℕ → Option ℕ
first_waiting [] i = none
first_waiting (phase ∷ phases) i =
    let later = first_waiting phases (i + 1) in
    if is_phase phase waiting_addressed then some i else later

-- The hand-over: no port is being addressed, and the lowest port that waits is reset.
unfoldable pub reset_waiting : Controller → Ports → Outcome
unfolding first_waiting reset_port
reset_waiting c ports =
    let released : Controller = record c { addressing_port = 0 } in
    elim (first_waiting c.port_config_phase 0) [
      | none ↦ some (released, success)
      | some i ↦ reset_port released i (ports i)
    ]

-- The part of `OnEvent` for a completed Address Device command.
unfoldable pub on_addressed : Controller → ℕ → Ports → Outcome
unfolding find_by_slot reset_waiting initialize_device
on_addressed c slot ports = elim (find_by_slot c.devmgr slot) [
  | none ↦ some (c, invalid_slot_id)
  | some dev ↦
      let port_id = port_of dev in
      if not (port_id == c.addressing_port)
      then some (c, invalid_phase)
      else (if not (is_phase (phase_of c port_id) addressing_device)
          then some (c, invalid_phase)
          else elim (reset_waiting c ports) [
            | none ↦ none
            | some (c', e) ↦ if is_error e then some (c', e) else initialize_device c' port_id slot
          ])
]

-- The part for a completed Configure Endpoint command.
unfoldable pub on_endpoints : Controller → ℕ → Outcome
unfolding find_by_slot complete_configuration
on_endpoints c slot = elim (find_by_slot c.devmgr slot) [
  | none ↦ some (c, invalid_slot_id)
  | some dev ↦
      let port_id = port_of dev in
      if not (is_phase (phase_of c port_id) configuring_endpoints)
      then some (c, invalid_phase)
      else complete_configuration c port_id slot
]

module _ (l : Layout) where
  -- The part for a completed Enable Slot command.
  unfoldable pub on_slot_enabled : Controller → ℕ → Ports → Outcome
  unfolding address_device
  on_slot_enabled c slot ports =
      if not (is_phase (phase_of c c.addressing_port) enabling_slot)
      then some (c, invalid_phase)
      else address_device l c c.addressing_port slot (ports c.addressing_port)

  -- The type of the TRB that a command completion event points at, which is in the command ring; the
  -- model does not say what a read elsewhere gives.
  abbrev pub issuer_type : Controller → Trb → Option ℕ
  issuer_type c trb =
      let at = CommandCompletionEventTrb.pointer trb in
      if holds_address c.cr at then some (trb_type (trb_of c.cr at)) else none

  -- `OnEvent` of a command completion.
  unfoldable pub on_command_completion_event : Controller → Trb → Ports → Outcome
  unfolding on_slot_enabled on_addressed on_endpoints
  on_command_completion_event c trb ports = elim (issuer_type c trb) [
    | none ↦ none
    | some issuer ↦
        if issuer == EnableSlotCommandTrb.type
        then on_slot_enabled c (slot_id trb) ports
        else (if issuer == AddressDeviceCommandTrb.type
            then on_addressed c (slot_id trb) ports
            else (if issuer == ConfigureEndpointCommandTrb.type
                then on_endpoints c (slot_id trb)
                else some (c, invalid_phase)))
  ]

  module _ (o : Defaults) (memory : ReadsOf) (rounds : ℕ) where
    -- `OnEvent` of a transfer.
    unfoldable pub on_transfer_event : Controller → Trb → Ports → Outcome
    unfolding find_by_slot on_transfer_event_received configure_endpoints
    on_transfer_event c trb ports = elim (find_by_slot c.devmgr (slot_id trb)) [
      | none ↦ some (c, invalid_slot_id)
      | some dev ↦ elim (on_transfer_event_received l o memory rounds dev c.allocator trb) [
        | none ↦ none
        | some (dev', a, e) ↦
            let c' : Controller = record (with_device c (slot_id trb) dev') { allocator = a } in
            if is_error e
            then some (c', e)
            else (if dev'.is_initialized && is_phase (phase_of c (port_of dev')) initializing_device
                then configure_endpoints l c' (slot_id trb) dev' ports
                else some (c', success))
      ]
    ]

    -- The dispatch of `ProcessEvent` on the type of the TRB at the front.
    unfoldable pub on_event : Controller → Trb → Ports → Outcome
    unfolding on_transfer_event on_port_status_change_event on_command_completion_event
    on_event c trb ports =
        if TransferEventTrb.type == trb_type trb
        then on_transfer_event c trb ports
        else (if PortStatusChangeEventTrb.type == trb_type trb
            then on_port_status_change_event c trb ports
            else (if CommandCompletionEventTrb.type == trb_type trb
                then on_command_completion_event c trb ports
                else some (c, not_implemented)))

    -- `ProcessEvent`.
    unfoldable pub process_event : Controller → Ports → Outcome
    unfolding front has_front pop on_event
    process_event c ports =
        if has_front c.er
        then elim (on_event c (front c.er) ports) [
          | none ↦ none
          | some (c', e) ↦ some (record c' { er = pop c'.er }, e)
        ]
        else some (c, success)
