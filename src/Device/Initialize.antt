-- ===== src/Device/Initialize.antt =====
-- kernel/usb/device.cpp: the phases in which a device is asked for its descriptors and its class
-- driver is made.
use mikanos_aarch.Prelude.{
  ℕ, zero, suc, ◌+◌, ◌*◌, ◌^◌, Bool, true, false, ◌&&◌, List, [], ◌∷◌, ◌++◌, Option, none, some,
  get_elem?, length, set, take, ltb, bit_or, ◌==◌, if◌then◌else◌,
}
use mikanos_aarch.Error.{success, invalid_descriptor}
use mikanos_aarch.Memory.{Allocator, alloc_mem, nullptr}
use mikanos_aarch.Endpoint.{EndpointConfig, default_control_pipe_id, endpoint_id, number}
use mikanos_aarch.SetupData.RequestType
use mikanos_aarch.SetupData.Request
use mikanos_aarch.Descriptor.{Bytes, descriptor_dynamic_cast}
use mikanos_aarch.Descriptor.DeviceDescriptor
use mikanos_aarch.Descriptor.ConfigurationDescriptor
use mikanos_aarch.Descriptor.InterfaceDescriptor
use mikanos_aarch.Descriptor.EndpointDescriptor
use mikanos_aarch.Descriptor.Reader.{next, next_as, make_ep_config}
use mikanos_aarch.Hid.{Driver, Kind, keyboard, mouse, subscribe, set_endpoint}
use mikanos_aarch.Hid
use mikanos_aarch.Device.{Device, Layout, Outcome, PoolOutcome, with_pool}
use mikanos_aarch.Device.Transfers.{control_in, control_out}
use mikanos_aarch.Device.Drivers.{setup_of}

-- `buf_.size()`.
abbrev pub buf_size : ℕ
buf_size = 256

-- `GetDescriptor`.
unfoldable pub get_descriptor : Device → ℕ → ℕ → ℕ → ℕ → ℕ → Outcome
get_descriptor dev ep_id desc_type desc_index buf len =
    control_in dev ep_id
      (setup_of RequestType.in_direction RequestType.standard RequestType.device
        Request.get_descriptor (bit_or (desc_type * 2 ^ 8) desc_index) 0 len)
      buf len none

-- `SetConfiguration`.
unfoldable pub set_configuration : Device → ℕ → ℕ → Outcome
set_configuration dev ep_id config_value =
    control_out dev ep_id
      (setup_of RequestType.out_direction RequestType.standard RequestType.device
        Request.set_configuration config_value 0 0)
      0 0 none

-- `StartInitialize`.
unfoldable pub start_initialize : Device → Outcome
unfolding get_descriptor endpoint_id
start_initialize dev =
    get_descriptor (record dev { is_initialized = false; initialize_phase = 1 })
      default_control_pipe_id DeviceDescriptor.type 0 dev.buf buf_size

-- `InitializePhase1`, over the device descriptor.
unfoldable pub initialize_phase1 : Device → Bytes → Outcome
unfolding get_descriptor endpoint_id
initialize_phase1 dev b =
    get_descriptor
      (record dev {
        num_configurations = DeviceDescriptor.num_configurations b 0;
        config_index = 0;
        initialize_phase = 2;
      })
      default_control_pipe_id ConfigurationDescriptor.type 0 dev.buf buf_size

-- `HIDKeyboardDriver::default_observer` and that of the mouse; none is an empty function.
pub record Defaults : Type 0 where
  pub keyboard_observer : Option ℕ
  pub mouse_observer : Option ℕ

module _ (l : Layout) (o : Defaults) where
  -- `new` of a driver, and its default observer; none is a constructor run at nullptr.
  unfoldable pub make_driver :
      Kind → ℕ → Option ℕ → Allocator → ℕ → Option (Allocator × Option Driver)
  unfolding subscribe
  make_driver kind size observer a interface_number =
      let (a', p) = alloc_mem a size 0 0 in
      let made = Hid.new kind (p + l.driver_buf) interface_number in
      if p == nullptr then none else elim observer [
        | none ↦ some (a', some made)
        | some watcher ↦ elim (subscribe made watcher) [ none ↦ none | some d ↦ some (a', some d) ]
      ]

  -- `NewClassDriver`: an inner none is nullptr, for an interface that is not supported.
  unfoldable pub new_class_driver : Allocator → Bytes → ℕ → Option (Allocator × Option Driver)
  unfolding make_driver
  new_class_driver a b if_desc =
      let protocol = InterfaceDescriptor.interface_protocol b if_desc in
      let interface_number = InterfaceDescriptor.interface_number b if_desc in
      if (InterfaceDescriptor.interface_class b if_desc == 3)
        && (InterfaceDescriptor.interface_sub_class b if_desc == 1)
      then (if protocol == 1
          then make_driver keyboard l.size_of_keyboard o.keyboard_observer a interface_number
          else (if protocol == 2
              then make_driver mouse l.size_of_mouse o.mouse_observer a interface_number
              else some (a, none)))
      else some (a, none)

  -- The body of the loop over an interface's endpoints, at the descriptor that `Next` returned; none
  -- is a write past `ep_configs_`.
  unfoldable pub read_endpoint : Device → Bytes → ℕ → ℕ → Option Device
  unfolding descriptor_dynamic_cast make_ep_config number
  read_endpoint dev b desc i = elim (descriptor_dynamic_cast EndpointDescriptor.type b desc) [
    | none ↦ some dev
    | some ep_desc ↦
        let conf = make_ep_config b ep_desc in
        if ltb dev.num_ep_configs 16
        then some (record dev {
          ep_configs = set dev.ep_configs dev.num_ep_configs conf;
          num_ep_configs = dev.num_ep_configs + 1;
          class_drivers = set dev.class_drivers (number conf.ep_id) (some i);
        })
        else none
  ]

  -- The loop until `wanted` endpoints are configured, with the rounds it may make. `Next` returns
  -- nullptr behind the last descriptor, which is then read: none, as for rounds that are used up.
  unfoldable pub read_endpoints : ℕ → Bytes → ℕ → ℕ → ℕ → ℕ → Device → Option Device
  unfolding read_endpoint next
  read_endpoints zero b len p wanted i dev = none
  read_endpoints (suc rounds) b len p wanted i dev =
      let (q, n) = next b len p in
      let step : Option Device = elim n [
        | none ↦ none
        | some desc ↦ elim (read_endpoint dev b desc i) [
          | none ↦ none
          | some dev' ↦ read_endpoints rounds b len q wanted i dev'
        ]
      ] in
      if ltb dev.num_ep_configs wanted then step else some dev

  -- The loop over the interfaces, and the endpoints of the first that is supported; a last none is
  -- `class_driver == nullptr`.
  unfoldable pub read_interfaces :
      ℕ → ℕ → Bytes → ℕ → ℕ → Device → Allocator → Option (Device × Allocator × Bool)
  unfolding new_class_driver read_endpoints
  read_interfaces zero rounds b len p dev a = none
  read_interfaces (suc tries) rounds b len p dev a =
      elim (next_as rounds InterfaceDescriptor.type b len p) [
        | none ↦ none
        | some (q, none) ↦ some (dev, a, false)
        | some (q, some if_desc) ↦ elim (new_class_driver a b if_desc) [
          | none ↦ none
          | some (a', none) ↦ read_interfaces tries rounds b len q dev a'
          | some (a', some d) ↦
              elim (read_endpoints rounds b len q (InterfaceDescriptor.num_endpoints b if_desc)
                (length dev.drivers)
                (record dev { drivers = dev.drivers ++ (d ∷ []); num_ep_configs = 0 })) [
                  | none ↦ none
                  | some dev' ↦ some (dev', a', true)
                ]
        ]
      ]

  -- `InitializePhase2`, over the configuration descriptor and what follows it.
  unfoldable pub initialize_phase2 : ℕ → Device → Allocator → Bytes → ℕ → PoolOutcome
  unfolding descriptor_dynamic_cast read_interfaces endpoint_id
  initialize_phase2 rounds dev a b len =
      elim (descriptor_dynamic_cast ConfigurationDescriptor.type b 0) [
        | none ↦ some (dev, a, invalid_descriptor)
        | some conf_desc ↦ elim (read_interfaces rounds rounds b len 0 dev a) [
          | none ↦ none
          | some (dev', a', false) ↦ some (dev', a', success)
          | some (dev', a', true) ↦ with_pool a' (
              set_configuration (record dev' { initialize_phase = 3 }) default_control_pipe_id
                (ConfigurationDescriptor.configuration_value b conf_desc))
        ]
      ]

-- The loop of `InitializePhase3`; none is an endpoint without a class driver.
unfoldable pub set_endpoints : Device → List EndpointConfig → Option Device
unfolding number set_endpoint
set_endpoints dev [] = some dev
set_endpoints dev (conf ∷ configs) = elim (get_elem? dev.class_drivers (number conf.ep_id)) [
  | none ↦ none
  | some none ↦ none
  | some (some i) ↦ elim (get_elem? dev.drivers i) [
    | none ↦ none
    | some d ↦
        set_endpoints (record dev { drivers = set dev.drivers i (set_endpoint d conf) }) configs
  ]
]

-- `InitializePhase3`.
unfoldable pub initialize_phase3 : Device → Outcome
unfolding set_endpoints
initialize_phase3 dev = elim (set_endpoints dev (take dev.num_ep_configs dev.ep_configs)) [
  | none ↦ none
  | some dev' ↦ some (record dev' { initialize_phase = 4; is_initialized = true }, success)
]
