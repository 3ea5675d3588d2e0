-- ===== src/Context.antt =====
-- kernel/usb/xhci/context.hpp: the contexts that the driver shares with the xHC.
pub mod SlotContext
pub mod EndpointContext
use mikanos_aarch.Prelude.{
  ℕ, ◌+◌, ◌*◌, ◌-◌, ◌%◌, ◌^◌, Bool, true, false, bit_or, to_bit, List, replicate, set, get_or, ◌==◌,
  if◌then◌else◌,
}

-- A context is its eight words.
abbrev pub Words : Type 0
Words = List ℕ

abbrev pub zero_words : Words
zero_words = replicate 8 0

-- `DeviceContextIndex` of an endpoint number and a direction.
abbrev pub device_context_index : ℕ → Bool → ℕ
device_context_index ep_num dir_in = 2 * ep_num + (if ep_num == 0 then 1 else to_bit dir_in)

-- `DeviceContext`.
pub record DeviceContext : Type 0 where
  pub slot_context : Words
  pub ep_contexts : List Words

-- `InputControlContext`.
pub record InputControlContext : Type 0 where
  pub drop_context_flags : ℕ
  pub add_context_flags : ℕ
  pub configuration_value : ℕ
  pub interface_number : ℕ
  pub alternate_setting : ℕ

-- `InputContext`.
pub record InputContext : Type 0 where
  pub input_control_context : InputControlContext
  pub slot_context : Words
  pub ep_contexts : List Words

-- `EnableSlotContext`.
unfoldable pub enable_slot_context : InputContext → InputContext
enable_slot_context c = record c {
  input_control_context = record (c.input_control_context) {
    add_context_flags = bit_or c.input_control_context.add_context_flags 1;
  };
}

-- `EnableEndpoint`, with the index of the endpoint context that it returns.
unfoldable pub enable_endpoint : InputContext → ℕ → InputContext × ℕ
enable_endpoint c dci = (
  record c {
    input_control_context = record (c.input_control_context) {
      add_context_flags = bit_or c.input_control_context.add_context_flags (1 * 2 ^ dci % 2 ^ 32);
    };
  },
  dci - 1,
)
