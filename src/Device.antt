-- ===== src/Device.antt =====
-- A USB device behind the xHC: kernel/usb/xhci/device.hpp, which extends kernel/usb/device.hpp. The
-- objects that a device points at stand in its record: its transfer rings and its class drivers. A
-- pointer to a driver is its place in `drivers`; none is nullptr, as for a ring.
pub mod Transfers
pub mod Drivers
pub mod Initialize
pub mod Events
pub mod RoundTrip
use mikanos_aarch.Prelude.{
  ℕ, zero, ◌+◌, ◌-◌, ◌*◌, ◌/◌, ◌≤◌, ◌<◌, Bool, true, false, ◌&&◌, List, [], ◌∷◌, ◌++◌, Option, none,
  some, get_or, get_elem?, replicate, length, leb, ltb, ◌==◌, if◌then◌else◌,
}
use mikanos_aarch.Error.{Error}
use mikanos_aarch.Memory.{Allocator}
use mikanos_aarch.ArrayMap.{ArrayMap, empty_map}
use mikanos_aarch.Context.{DeviceContext, InputContext, InputControlContext, Words, zero_words}
use mikanos_aarch.Endpoint.{EndpointConfig}
use mikanos_aarch.SetupData.{SetupData}
use mikanos_aarch.Ring.{Ring, size_of_trb}
use mikanos_aarch.Trb.{Trb, zero_trb, trb_type}
use mikanos_aarch.Hid.{Driver, Notice}
use mikanos_aarch.Descriptor.{Bytes}

-- `Device::State`.
pub data State : Type 0 where
  invalid blank slot_assigning slot_assigned : State

pub record Device : Type 0 where
  -- members of `usb::Device`
  pub class_drivers : List (Option ℕ)
  pub buf : ℕ
  pub num_configurations : ℕ
  pub config_index : ℕ
  pub is_initialized : Bool
  pub initialize_phase : ℕ
  pub ep_configs : List EndpointConfig
  pub num_ep_configs : ℕ
  pub event_waiters : ArrayMap SetupData ℕ
  -- members of `usb::xhci::Device`; `input_ctx_at` and `ctx_at` are the addresses of the contexts
  pub ctx : DeviceContext
  pub ctx_at : ℕ
  pub input_ctx : InputContext
  pub input_ctx_at : ℕ
  pub slot_id : ℕ
  pub dbreg : ℕ
  pub state : State
  pub transfer_rings : List (Option Ring)
  pub setup_stage_map : ArrayMap ℕ ℕ
  -- the class drivers, and the targets written to the doorbell so far, the latest first
  pub drivers : List Driver
  pub rung : List ℕ
  -- the calls of observers so far, the latest last
  pub noticed : List Notice

-- Sizes of objects and places of members in them, which the compiler chooses.
pub record Layout : Type 0 where
  pub size_of_device : ℕ
  pub device_buf : ℕ
  pub device_ctx : ℕ
  pub device_input_ctx : ℕ
  pub size_of_ring : ℕ
  pub size_of_keyboard : ℕ
  pub size_of_mouse : ℕ
  pub driver_buf : ℕ

-- The memory that the controller writes to, when an event is handled: the bytes from an address on.
abbrev pub ReadsOf : Type 0
ReadsOf = ℕ → Bytes

-- What a member function leaves and returns; none is undefined behaviour, such as a read through
-- nullptr or past an array.
abbrev pub Outcome : Type 0
Outcome = Option (Device × Error)

-- The same for functions that may allocate from the pool.
abbrev pub PoolOutcome : Type 0
PoolOutcome = Option (Device × Allocator × Error)

abbrev pub with_pool : Allocator → Outcome → PoolOutcome
with_pool a none = none
with_pool a (some (dev, e)) = some (dev, a, e)

-- The transfer ring of an endpoint: `transfer_rings_[dci.value - 1]`; an outer none is an index
-- outside the array.
unfoldable pub transfer_ring : Device → ℕ → Option (Option Ring)
transfer_ring dev ep_id = if ep_id == 0 then none else get_elem? dev.transfer_rings (ep_id - 1)

-- Whether an address is that of one of the ring's slots.
abbrev pub holds_address : Ring → ℕ → Bool
holds_address r at = leb r.buf_ at && ltb at (r.buf_ + size_of_trb * r.buf_size)

-- The TRB at an address of a ring.
abbrev pub trb_of : Ring → ℕ → Trb
trb_of r at = get_or r.trbs ((at - r.buf_) / size_of_trb) zero_trb

-- The TRB at an address, read through the rings of the device; none is any other memory.
unfoldable pub trb_at : List (Option Ring) → ℕ → Option Trb
trb_at [] at = none
trb_at (none ∷ rings) at = trb_at rings at
trb_at (some r ∷ rings) at = if holds_address r at then some (trb_of r at) else trb_at rings at
