-- ===== src/Device/Drivers.antt =====
-- What the class drivers of kernel/usb/classdriver/hid.cpp ask of their device. A driver is given by
-- its place in the device's `drivers`.
use mikanos_aarch.Prelude.{
  ℕ, List, [], ◌∷◌, ◌++◌, Option, none, some, get_elem?, set, ◌==◌, if◌then◌else◌,
}
use mikanos_aarch.Error.{success, not_implemented, is_error}
use mikanos_aarch.Endpoint.{default_control_pipe_id, endpoint_id, is_in}
use mikanos_aarch.SetupData.{SetupData, set_recipient, set_type, set_direction}
use mikanos_aarch.SetupData.RequestType
use mikanos_aarch.SetupData.Request
use mikanos_aarch.Hid.{Driver, on_data_received, save_report}
use mikanos_aarch.Device.{Device, Outcome}
use mikanos_aarch.Device.Transfers.{control_out, interrupt_in}

-- `SetupData setup_data{}` with its request type.
abbrev pub setup_of : ℕ → ℕ → ℕ → ℕ → ℕ → ℕ → ℕ → SetupData
setup_of direction type recipient request value index length =
    set_recipient
      (set_type
        (set_direction
          (record {
            request_type = 0;
            request = request;
            value = value;
            index = index;
            length = length;
          })
          direction)
        type)
      recipient

-- A call through a pointer to a driver; none is a pointer to no driver.
abbrev pub with_driver : Device → ℕ → (Driver → Outcome) → Outcome
with_driver dev i call = elim (get_elem? dev.drivers i) [ none ↦ none | some d ↦ call d ]

abbrev pub write_driver : Device → ℕ → Driver → Device
write_driver dev i d = record dev { drivers = set dev.drivers i d }

-- The request that `OnEndpointsConfigured` issues: the boot protocol.
abbrev pub set_boot_protocol : ℕ → SetupData
set_boot_protocol interface_index =
    setup_of RequestType.out_direction RequestType.class RequestType.interface Request.set_protocol
      0 interface_index 0

-- `HIDBaseDriver::OnEndpointsConfigured`.
unfoldable pub hid_on_endpoints_configured : Device → ℕ → Outcome
unfolding endpoint_id
hid_on_endpoints_configured dev i = with_driver dev i λ d.
    control_out (write_driver dev i (record d { initialize_phase = 1 })) default_control_pipe_id
      (set_boot_protocol d.interface_index) 0 0 (some i)

-- `HIDBaseDriver::OnControlCompleted`.
unfoldable pub hid_on_control_completed : Device → ℕ → Outcome
hid_on_control_completed dev i = with_driver dev i λ d.
    if d.initialize_phase == 1
    then interrupt_in (write_driver dev i (record d { initialize_phase = 2 })) d.ep_interrupt_in
        d.buf_at d.in_packet_size
    else some (dev, not_implemented)

-- `HIDBaseDriver::OnInterruptCompleted`; the observers are called first.
unfoldable pub hid_on_interrupt_completed : Device → ℕ → ℕ → ℕ → Outcome
unfolding on_data_received save_report is_in
hid_on_interrupt_completed dev i ep_id len = with_driver dev i λ d.
    if is_in ep_id
    then elim (save_report d len) [
      | none ↦ none
      | some d' ↦
          interrupt_in
            (record (write_driver dev i d') { noticed = dev.noticed ++ on_data_received d })
            d.ep_interrupt_in d.buf_at d.in_packet_size
    ]
    else some (dev, not_implemented)

-- The loop of `usb::Device::OnEndpointsConfigured`, over the rest of `class_drivers_`.
unfoldable pub configure_drivers : Device → List (Option ℕ) → Outcome
configure_drivers dev [] = some (dev, success)
configure_drivers dev (none ∷ pointers) = configure_drivers dev pointers
configure_drivers dev (some i ∷ pointers) = elim (hid_on_endpoints_configured dev i) [
  | none ↦ none
  | some (dev', e) ↦ if is_error e then some (dev', e) else configure_drivers dev' pointers
]

unfoldable pub on_endpoints_configured : Device → Outcome
unfolding configure_drivers
on_endpoints_configured dev = configure_drivers dev dev.class_drivers
