-- ===== src/Device/Events.antt =====
-- What a device does with a transfer event: `OnControlCompleted` and `OnInterruptCompleted` of
-- kernel/usb/device.cpp, and `OnTransferEventReceived` of kernel/usb/xhci/device.cpp.
use mikanos_aarch.Prelude.{ℕ, ◌+◌, ◌-◌, ◌%◌, ◌^◌, none, some, get_elem?, ◌==◌, ◌||◌, if◌then◌else◌}
use mikanos_aarch.Error.{
  no_waiter, invalid_phase, not_implemented, transfer_failed, no_corresponding_setup_stage,
}
use mikanos_aarch.Memory.{Allocator, nullptr}
use mikanos_aarch.ArrayMap.{get, delete}
use mikanos_aarch.Endpoint.{number}
use mikanos_aarch.SetupData.{SetupData, equals, read_setup_data}
use mikanos_aarch.SetupData.Request
use mikanos_aarch.Descriptor.{Bytes, descriptor_dynamic_cast}
use mikanos_aarch.Descriptor.DeviceDescriptor
use mikanos_aarch.Descriptor.ConfigurationDescriptor
use mikanos_aarch.Trb.{Trb, trb_dynamic_cast}
use mikanos_aarch.Trb.NormalTrb
use mikanos_aarch.Trb.DataStageTrb
use mikanos_aarch.Trb.StatusStageTrb
use mikanos_aarch.Trb.TransferEventTrb
use mikanos_aarch.Device.{Device, Layout, ReadsOf, Outcome, PoolOutcome, with_pool, trb_at}
use mikanos_aarch.Device.Drivers.{hid_on_control_completed, hid_on_interrupt_completed}
use mikanos_aarch.Device.Initialize.{
  Defaults, initialize_phase1, initialize_phase2, initialize_phase3,
}

-- A difference of an `int` and a `uint32_t`.
abbrev pub sub32 : ℕ → ℕ → ℕ
sub32 a b = (a + 2 ^ 32 - b) % 2 ^ 32

-- `OnInterruptCompleted`.
unfoldable pub on_interrupt_completed : Device → ℕ → ℕ → Outcome
unfolding number
on_interrupt_completed dev ep_id len = elim (get_elem? dev.class_drivers (number ep_id)) [
  | none ↦ none
  | some none ↦ some (dev, no_waiter)
  | some (some i) ↦ hid_on_interrupt_completed dev i ep_id len
]

module _ (l : Layout) (o : Defaults) (memory : ReadsOf) (rounds : ℕ) where
  -- A descriptor of a type at the buffer, where the request asked for one; reading it through
  -- nullptr is none.
  abbrev pub when_descriptor :
      Device → Allocator → SetupData → ℕ → ℕ → (Bytes → PoolOutcome) → PoolOutcome
  when_descriptor dev a setup_data type buf phase =
      if setup_data.request == Request.get_descriptor
      then (if buf == nullptr then none else elim (descriptor_dynamic_cast type (memory buf) 0) [
        | none ↦ some (dev, a, invalid_phase)
        | some _ ↦ phase (memory buf)
      ])
      else some (dev, a, invalid_phase)

  -- `OnControlCompleted`.
  unfoldable pub on_control_completed : Device → Allocator → SetupData → ℕ → ℕ → PoolOutcome
  unfolding descriptor_dynamic_cast get
  on_control_completed dev a setup_data buf len =
      if dev.is_initialized
      then elim (get equals dev.event_waiters setup_data) [
        | none ↦ some (dev, a, no_waiter)
        | some waiter ↦ with_pool a (hid_on_control_completed dev waiter)
      ]
      else (if dev.initialize_phase == 1
          then when_descriptor dev a setup_data DeviceDescriptor.type buf
              (λ b. with_pool a (initialize_phase1 dev b))
          else (if dev.initialize_phase == 2
              then when_descriptor dev a setup_data ConfigurationDescriptor.type buf
                  (λ b. initialize_phase2 l o rounds dev a b len)
              else (if dev.initialize_phase == 3
                  then (if setup_data.request == Request.set_configuration
                      then with_pool a (initialize_phase3 dev)
                      else some (dev, a, invalid_phase))
                  else some (dev, a, not_implemented))))

  -- What follows once the setup stage is known: the buffer and the length that were transferred.
  unfoldable pub complete_control : Device → Allocator → Trb → SetupData → ℕ → PoolOutcome
  unfolding on_control_completed
  complete_control dev a issuer setup_data residual =
      elim (trb_dynamic_cast DataStageTrb.type issuer) [
        | some t ↦
            on_control_completed dev a setup_data (DataStageTrb.pointer t)
              (sub32 (DataStageTrb.trb_transfer_length t) residual)
        | none ↦ elim (trb_dynamic_cast StatusStageTrb.type issuer) [
          | some _ ↦ on_control_completed dev a setup_data nullptr 0
          | none ↦ some (dev, a, not_implemented)
        ]
      ]

  -- `OnTransferEventReceived`. An issuer, or a setup stage, that is at none of the device's rings is
  -- none: the model does not say what such a read gives.
  unfoldable pub on_transfer_event_received : Device → Allocator → Trb → PoolOutcome
  unfolding complete_control trb_at get
  on_transfer_event_received dev a event =
      let code = TransferEventTrb.completion_code event in
      let residual = TransferEventTrb.trb_transfer_length event in
      let at = TransferEventTrb.pointer event in
      if code == 1 || code == 13
      then elim (trb_at dev.transfer_rings at) [
        | none ↦ none
        | some issuer ↦ elim (trb_dynamic_cast NormalTrb.type issuer) [
          | some normal ↦ with_pool a (
              on_interrupt_completed dev (TransferEventTrb.endpoint_id event)
                (sub32 (NormalTrb.trb_transfer_length normal) residual))
          | none ↦ elim (get ◌==◌ dev.setup_stage_map at) [
            | none ↦ some (dev, a, no_corresponding_setup_stage)
            | some setup_at ↦
                let dev' = record dev { setup_stage_map = delete ◌==◌ dev.setup_stage_map at } in
                elim (trb_at dev.transfer_rings setup_at) [
                  | none ↦ none
                  | some setup_trb ↦
                      complete_control dev' a issuer (read_setup_data setup_trb) residual
                ]
          ]
        ]
      ]
      else some (dev, a, transfer_failed)
