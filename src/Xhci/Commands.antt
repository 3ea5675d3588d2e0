-- ===== src/Xhci/Commands.antt =====
-- kernel/usb/xhci/xhci.cpp: the steps that follow a completed command. A device is read and written
-- through the device manager, by its slot.
use mikanos_aarch.Prelude.{ℕ, Option, none, some, if◌then◌else◌}
use mikanos_aarch.Error.{Error, success, invalid_slot_id, is_error}
use mikanos_aarch.Trb.AddressDeviceCommandTrb
use mikanos_aarch.Trb.ConfigureEndpointCommandTrb
use mikanos_aarch.Port
use mikanos_aarch.Device.{Device, Layout}
use mikanos_aarch.Device.Initialize.{start_initialize}
use mikanos_aarch.Device.Drivers.{on_endpoints_configured}
use mikanos_aarch.DeviceManager.{find_by_slot, alloc_device, load_dcbaa, write_device, port_of}
use mikanos_aarch.Xhci.{
  Controller, Ports, PortReads, Outcome, addressing_device, initializing_device,
  configuring_endpoints, configured, set_phase, command, doorbell_register_at,
}
use mikanos_aarch.Xhci.Contexts.{address_context, endpoint_contexts}

-- A write through a pointer to the device of a slot.
abbrev pub with_device : Controller → ℕ → Device → Controller
with_device c slot_id dev = record c { devmgr = write_device c.devmgr slot_id dev }

-- `AddressDevice` once the device is there.
unfoldable pub address_slot : Layout → Controller → ℕ → ℕ → PortReads → Device → Outcome
unfolding address_context load_dcbaa command
address_slot l c port_id slot_id reads dev =
    elim (address_context l dev c.allocator port_id (Port.speed reads.speed)) [
      | none ↦ none
      | some (dev', b) ↦ elim (load_dcbaa (write_device c.devmgr slot_id dev') slot_id) [
        | none ↦ none
        | some (m, _) ↦ some (
          command (set_phase (record c { devmgr = m; allocator = b }) port_id addressing_device)
              (AddressDeviceCommandTrb.new dev'.input_ctx_at slot_id),
          success,
        )
      ]
    ]

-- `AddressDevice`; what `AllocDevice` returns is not looked at.
unfoldable pub address_device : Layout → Controller → ℕ → ℕ → PortReads → Outcome
unfolding alloc_device find_by_slot address_slot
address_device l c port_id slot_id reads =
    elim (alloc_device l c.devmgr c.allocator slot_id (doorbell_register_at c slot_id)) [
      | none ↦ none
      | some (m, a, _) ↦
          let c' : Controller = record c { devmgr = m; allocator = a } in
          elim (find_by_slot m slot_id) [
            | none ↦ some (c', invalid_slot_id)
            | some dev ↦ address_slot l c' port_id slot_id reads dev
          ]
    ]

-- A member function of a device that the caller does not look at the result of.
abbrev pub device_call : Controller → ℕ → Option (Device × Error) → Outcome
device_call c slot_id none = none
device_call c slot_id (some (dev, _)) = some (with_device c slot_id dev, success)

-- `InitializeDevice`.
unfoldable pub initialize_device : Controller → ℕ → ℕ → Outcome
unfolding find_by_slot start_initialize
initialize_device c port_id slot_id = elim (find_by_slot c.devmgr slot_id) [
  | none ↦ some (c, invalid_slot_id)
  | some dev ↦ device_call (set_phase c port_id initializing_device) slot_id (start_initialize dev)
]

-- `CompleteConfiguration`.
unfoldable pub complete_configuration : Controller → ℕ → ℕ → Outcome
unfolding find_by_slot on_endpoints_configured
complete_configuration c port_id slot_id = elim (find_by_slot c.devmgr slot_id) [
  | none ↦ some (c, invalid_slot_id)
  | some dev ↦ elim (on_endpoints_configured dev) [
    | none ↦ none
    | some (dev', _) ↦ some (set_phase (with_device c slot_id dev') port_id configured, success)
  ]
]

-- `ConfigureEndpoints`; `dev` is the device of the slot.
unfoldable pub configure_endpoints : Layout → Controller → ℕ → Device → Ports → Outcome
unfolding endpoint_contexts command
configure_endpoints l c slot_id dev ports =
    let port_id = port_of dev in
    elim (endpoint_contexts l dev c.allocator (Port.speed (ports port_id).speed)) [
      | none ↦ none
      | some (dev', a, e) ↦
          let c' : Controller = record (with_device c slot_id dev') { allocator = a } in
          if is_error e
          then some (c', e)
          else some (
            command (set_phase c' port_id configuring_endpoints)
                (ConfigureEndpointCommandTrb.new dev'.input_ctx_at dev'.slot_id),
            success,
          )
    ]
