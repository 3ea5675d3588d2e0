-- ===== src/DeviceManager.antt =====
-- kernel/usb/xhci/devmgr.hpp and devmgr.cpp: the devices by slot, and the array of device context
-- pointers that the controller reads. A pointer to a device is the device itself where it is read,
-- and its slot where it is written; none is nullptr.
pub mod Find
pub mod Invariant
pub mod Steps
pub mod Alloc
use mikanos_aarch.Prelude.{
  ℕ, ◌+◌, Bool, List, [], ◌∷◌, Option, none, some, get_or, get_elem?, length, set, take, drop,
  replicate, ltb, ◌==◌, if◌then◌else◌,
}
use mikanos_aarch.Error.{Error, success, no_enough_memory, invalid_slot_id, already_allocated}
use mikanos_aarch.Memory.{Allocator, nullptr, alloc_array, free_mem}
use mikanos_aarch.ArrayMap.{empty_map}
use mikanos_aarch.Context.{zero_words}
use mikanos_aarch.Context.SlotContext
use mikanos_aarch.Endpoint.{EndpointConfig, control}
use mikanos_aarch.SetupData.{SetupData}
use mikanos_aarch.Device.{Device, State, Layout, blank, invalid}

-- `device_contexts_at` is the address of the array `device_context_pointers_`.
pub record DeviceManager : Type 0 where
  pub device_context_pointers : List ℕ
  pub device_contexts_at : ℕ
  pub max_slots : ℕ
  pub devices : List (Option Device)

abbrev pub size_of_pointer : ℕ
size_of_pointer = 8

-- `Initialize`. A list is empty where the array is nullptr or was not written.
unfoldable pub initialize : DeviceManager → ℕ → Allocator → DeviceManager × Allocator × Error
initialize m max_slots a =
    let (b, p) = alloc_array a size_of_pointer (max_slots + 1) 0 0 in
    let (c, q) = alloc_array b size_of_pointer (max_slots + 1) 64 4096 in
    if p == nullptr
    then (record m { max_slots = max_slots; devices = [] }, b, no_enough_memory)
    else (if q == nullptr
        then (
          record {
            device_context_pointers = [];
            device_contexts_at = q;
            max_slots = max_slots;
            devices = [];
          },
          free_mem c p,
          no_enough_memory,
        )
        else (
          record {
            device_context_pointers = replicate (max_slots + 1) nullptr;
            device_contexts_at = q;
            max_slots = max_slots;
            devices = replicate (max_slots + 1) none;
          },
          c,
          success,
        ))

-- The loops over the slots from 1 on: the first slot whose device passes the test.
unfoldable pub find_slot : (Device → Bool) → List (Option Device) → ℕ → Option ℕ
find_slot test [] slot_id = none
find_slot test (none ∷ devices) slot_id = find_slot test devices (slot_id + 1)
find_slot test (some dev ∷ devices) slot_id =
    let later = find_slot test devices (slot_id + 1) in if test dev then some slot_id else later

-- `devices_[1]` to `devices_[max_slots_]`.
abbrev pub slots_from_1 : DeviceManager → List (Option Device)
slots_from_1 m = take m.max_slots (drop 1 m.devices)

-- The port of a device: `DeviceContext()->slot_context.bits.root_hub_port_num`.
abbrev pub port_of : Device → ℕ
port_of dev = SlotContext.root_hub_port_num dev.ctx.slot_context

-- `FindByPort`; the route string is not looked at.
unfoldable pub find_by_port : DeviceManager → ℕ → ℕ → Option ℕ
unfolding find_slot
find_by_port m port_num route_string = find_slot (λ dev. port_of dev == port_num) (slots_from_1 m) 1

-- The enumerator's number.
abbrev pub state_number : State → ℕ
state_number State.invalid = 0
state_number State.blank = 1
state_number State.slot_assigning = 2
state_number State.slot_assigned = 3

-- `FindByState`.
unfoldable pub find_by_state : DeviceManager → State → Option ℕ
unfolding find_slot
find_by_state m state =
    find_slot (λ dev. state_number dev.state == state_number state) (slots_from_1 m) 1

-- `FindBySlot`.
unfoldable pub find_by_slot : DeviceManager → ℕ → Option Device
find_by_slot m slot_id = if ltb m.max_slots slot_id then none else get_or m.devices slot_id none

-- `Device(slot_id, dbreg)` at an address. The members without an initializer are those of memory of
-- the pool that nothing wrote to: zero, as the allocator hands out no block twice.
abbrev pub unread_config : EndpointConfig
unread_config = record { ep_id = 0; ep_type = control; max_packet_size = 0; interval = 0 }

abbrev pub no_setup_data : SetupData
no_setup_data = record { request_type = 0; request = 0; value = 0; index = 0; length = 0 }

unfoldable pub new_device : Layout → ℕ → ℕ → ℕ → Device
new_device l at slot_id dbreg = record {
  class_drivers = replicate 16 none;
  buf = at + l.device_buf;
  num_configurations = 0;
  config_index = 0;
  is_initialized = Bool.false;
  initialize_phase = 0;
  ep_configs = replicate 16 unread_config;
  num_ep_configs = 0;
  event_waiters = empty_map 4 0;
  ctx = record { slot_context = zero_words; ep_contexts = replicate 31 zero_words };
  ctx_at = at + l.device_ctx;
  input_ctx = record {
    input_control_context = record {
      drop_context_flags = 0;
      add_context_flags = 0;
      configuration_value = 0;
      interface_number = 0;
      alternate_setting = 0;
    };
    slot_context = zero_words;
    ep_contexts = replicate 31 zero_words;
  };
  input_ctx_at = at + l.device_input_ctx;
  slot_id = slot_id;
  dbreg = dbreg;
  state = invalid;
  transfer_rings = replicate 31 none;
  setup_stage_map = empty_map 16 0;
  drivers = [];
  rung = [];
  noticed = [];
}

-- `usb::xhci::Device::Initialize` and `SelectForSlotAssignment`.
abbrev pub initialize_device : Device → Device × Error
initialize_device dev = (record dev { state = blank }, success)

abbrev pub select_for_slot_assignment : Device → Device
select_for_slot_assignment dev = record dev { state = State.slot_assigning }

-- `AllocDevice`; none is a device that is constructed at nullptr.
unfoldable pub alloc_device :
    Layout → DeviceManager → Allocator → ℕ → ℕ → Option (DeviceManager × Allocator × Error)
unfolding new_device
alloc_device l m a slot_id dbreg =
    let (b, p) = alloc_array a l.size_of_device 1 64 4096 in
    if ltb m.max_slots slot_id
    then some (m, a, invalid_slot_id)
    else elim (get_or m.devices slot_id none) [
      | some _ ↦ some (m, a, already_allocated)
      | none ↦
          if p == nullptr
          then none
          else some (
            record m { devices = set m.devices slot_id (some (new_device l p slot_id dbreg)) },
            b,
            success,
          )
    ]

-- `LoadDCBAA`; none is the device context of nullptr.
unfoldable pub load_dcbaa : DeviceManager → ℕ → Option (DeviceManager × Error)
load_dcbaa m slot_id =
    if ltb m.max_slots slot_id
    then some (m, invalid_slot_id)
    else elim (get_or m.devices slot_id none) [
      | none ↦ none
      | some dev ↦ some (
        record m { device_context_pointers = set m.device_context_pointers slot_id dev.ctx_at },
        success,
      )
    ]

-- `Remove`; none is a slot outside of the arrays, which it does not test for.
unfoldable pub remove : DeviceManager → ℕ → Option (DeviceManager × Error)
remove m slot_id =
    if ltb m.max_slots slot_id
    then none
    else some (
      record m {
        device_context_pointers = set m.device_context_pointers slot_id nullptr;
        devices = set m.devices slot_id none;
      },
      success,
    )

-- A write through a pointer to the device of a slot.
abbrev pub write_device : DeviceManager → ℕ → Device → DeviceManager
write_device m slot_id dev = record m { devices = set m.devices slot_id (some dev) }
