-- ===== src/Xhci/Contexts.antt =====
-- The contexts that kernel/usb/xhci/xhci.cpp fills in for a device, and the transfer rings that
-- `AllocTransferRing` of kernel/usb/xhci/device.cpp makes.
use mikanos_aarch.Prelude.{
  ℕ, zero, suc, ◌+◌, ◌-◌, ◌/◌, ◌%◌, ◌^◌, false, ◌||◌, List, [], ◌∷◌, Option, none, some, get_or,
  set, take, bit_and, ltb, ◌==◌, if◌then◌else◌,
}
use mikanos_aarch.Prelude.Int.{ℤ, pos, negsuc, ◌+ℤ◌}
use mikanos_aarch.Error.{Error, success, unknown_xhci_speed_id}
use mikanos_aarch.Memory.{Allocator, nullptr, alloc_array}
use mikanos_aarch.Context.{
  Words, InputContext, zero_words, device_context_index, enable_slot_context, enable_endpoint,
}
use mikanos_aarch.Context.SlotContext
use mikanos_aarch.Context.EndpointContext
use mikanos_aarch.Endpoint.{
  EndpointConfig, EndpointType, control, isochronous, bulk, interrupt, is_in,
}
use mikanos_aarch.Speed.{full_speed, low_speed, super_speed_plus}
use mikanos_aarch.Ring.{Ring}
use mikanos_aarch.Ring
use mikanos_aarch.Device.{Device, Layout}

-- `InitializeSlotContext`, with what `Number` and `Speed` of the port give.
unfoldable pub initialize_slot_context : Words → ℕ → ℕ → Words
initialize_slot_context ctx port_number port_speed =
    let c1 = SlotContext.set_route_string ctx 0 in
    let c2 = SlotContext.set_root_hub_port_num c1 port_number in
    let c3 = SlotContext.set_context_entries c2 1 in SlotContext.set_speed c3 port_speed

-- `DetermineMaxPacketSizeForControlPipe`.
unfoldable pub determine_max_packet_size_for_control_pipe : ℕ → ℕ
determine_max_packet_size_for_control_pipe slot_speed =
    if slot_speed == 4 then 512 else (if slot_speed == 3 then 64 else 8)

-- The loop of `MostSignificantBit`, with the rounds left.
unfoldable pub msb_loop : ℕ → ℕ → ℕ → ℕ → ℕ
msb_loop zero i value msb_index = msb_index
msb_loop (suc rounds) i value msb_index =
    msb_loop rounds (i + 1) (value / 2) (if bit_and value 1 == 0 then msb_index else i)

-- `MostSignificantBit`.
unfoldable pub most_significant_bit : ℕ → ℤ
unfolding msb_loop
most_significant_bit value = if value == 0 then negsuc 0 else pos (msb_loop 32 0 value 0)

-- `InitializeEP0Context`, with the buffer of the ring.
unfoldable pub initialize_ep0_context : Words → ℕ → ℕ → Words
initialize_ep0_context ctx buffer max_packet_size =
    let c1 = EndpointContext.set_ep_type ctx 4 in
    let c2 = EndpointContext.set_max_packet_size c1 max_packet_size in
    let c3 = EndpointContext.set_max_burst_size c2 0 in
    let c4 = EndpointContext.set_transfer_ring_buffer c3 buffer in
    let c5 = EndpointContext.set_dequeue_cycle_state c4 1 in
    let c6 = EndpointContext.set_interval c5 0 in
    let c7 = EndpointContext.set_max_primary_streams c6 0 in
    let c8 = EndpointContext.set_mult c7 0 in EndpointContext.set_error_count c8 3

-- A ring in memory of the pool that nothing wrote to.
abbrev pub unread_ring : Ring
unread_ring = record { buf_ = nullptr; trbs = []; buf_size = 0; cycle_bit = false; write_index = 0 }

-- `AllocTransferRing`; a ring that is not there is none, and none outside is an index outside of
-- `transfer_rings_`. The ring's own error is not looked at.
unfoldable pub alloc_transfer_ring :
    Layout → Device → Allocator → ℕ → ℕ → Option (Device × Allocator × Option Ring)
alloc_transfer_ring l dev a index buf_size =
    let (b, p) = alloc_array a l.size_of_ring 1 64 4096 in
    let (tr, c, _) = Ring.initialize unread_ring buf_size b in
    if (index == 0) || ltb 31 index
    then none
    else (if p == nullptr
        then some (record dev { transfer_rings = set dev.transfer_rings (index - 1) none }, b, none)
        else some (
          record dev { transfer_rings = set dev.transfer_rings (index - 1) (some tr) },
          c,
          some tr,
        ))

-- `memset` of the input control context.
abbrev pub clear_control_context : InputContext → InputContext
clear_control_context c = record c {
  input_control_context = record {
    drop_context_flags = 0;
    add_context_flags = 0;
    configuration_value = 0;
    interface_number = 0;
    alternate_setting = 0;
  };
}

abbrev pub write_ep_context : InputContext → ℕ → Words → InputContext
write_ep_context c i w = record c { ep_contexts = set c.ep_contexts i w }

-- The part of `AddressDevice` that sets up the device's input context and its default pipe; none is
-- a default pipe without a ring.
unfoldable pub address_context : Layout → Device → Allocator → ℕ → ℕ → Option (Device × Allocator)
unfolding enable_slot_context enable_endpoint initialize_slot_context alloc_transfer_ring
    initialize_ep0_context determine_max_packet_size_for_control_pipe
address_context l dev a port_number port_speed =
    let ep0_dci = device_context_index 0 false in
    let (enabled, i) =
      enable_endpoint (enable_slot_context (clear_control_context dev.input_ctx)) ep0_dci in
    let slot_ctx = initialize_slot_context enabled.slot_context port_number port_speed in
    let input : InputContext = record enabled { slot_context = slot_ctx } in
    elim (alloc_transfer_ring l (record dev { input_ctx = input }) a ep0_dci 32) [
      | none ↦ none
      | some (_, _, none) ↦ none
      | some (dev', b, some tr) ↦ some (
        record dev' {
          input_ctx = write_ep_context input i (
              initialize_ep0_context (get_or input.ep_contexts i zero_words) tr.buf_
                (determine_max_packet_size_for_control_pipe (SlotContext.speed slot_ctx)));
        },
        b,
      )
    ]

-- An `int` as the value of an 8-bit field.
abbrev pub to_uint8 : ℤ → ℕ
to_uint8 (pos n) = n % 2 ^ 8
to_uint8 (negsuc n) = 255 - n % 2 ^ 8

-- `convert_interval`, for a port speed.
unfoldable pub convert_interval : ℕ → EndpointType → ℕ → ℤ
unfolding most_significant_bit
convert_interval port_speed type interval =
    if (port_speed == full_speed) || (port_speed == low_speed)
    then elim type [ isochronous ↦ pos (interval + 2) | _ ↦ most_significant_bit interval +ℤ pos 3 ]
    else pos interval +ℤ negsuc 0

-- The `switch` on the type of an endpoint.
unfoldable pub ep_type_of : EndpointConfig → ℕ
unfolding is_in
ep_type_of config = elim config.ep_type [
  | control ↦ 4
  | isochronous ↦ if is_in config.ep_id then 5 else 1
  | bulk ↦ if is_in config.ep_id then 6 else 2
  | interrupt ↦ if is_in config.ep_id then 7 else 3
]

-- The body of the loop of `ConfigureEndpoints`, without the ring that it makes.
unfoldable pub endpoint_context : Words → ℕ → EndpointConfig → ℕ → Words
unfolding convert_interval ep_type_of
endpoint_context ctx port_speed config buffer =
    let c1 = EndpointContext.set_ep_type ctx (ep_type_of config) in
    let c2 = EndpointContext.set_max_packet_size c1 config.max_packet_size in
    let c3 =
      EndpointContext.set_interval c2
        (to_uint8 (convert_interval port_speed config.ep_type config.interval)) in
    let c4 = EndpointContext.set_average_trb_length c3 1 in
    let c5 = EndpointContext.set_transfer_ring_buffer c4 buffer in
    let c6 = EndpointContext.set_dequeue_cycle_state c5 1 in
    let c7 = EndpointContext.set_max_primary_streams c6 0 in
    let c8 = EndpointContext.set_mult c7 0 in EndpointContext.set_error_count c8 3

-- The loop of `ConfigureEndpoints`; none is an endpoint without a ring, or with an index outside.
unfoldable pub add_endpoints :
    Layout → Device → Allocator → ℕ → List EndpointConfig → Option (Device × Allocator)
unfolding enable_endpoint endpoint_context alloc_transfer_ring
add_endpoints l dev a port_speed [] = some (dev, a)
add_endpoints l dev a port_speed (config ∷ configs) =
    let (enabled, i) = enable_endpoint dev.input_ctx config.ep_id in
    elim (alloc_transfer_ring l (record dev { input_ctx = enabled }) a config.ep_id 32) [
      | none ↦ none
      | some (_, _, none) ↦ none
      | some (dev', b, some tr) ↦
          add_endpoints l
            (record dev' {
              input_ctx = write_ep_context enabled i (
                  endpoint_context (get_or enabled.ep_contexts i zero_words) port_speed config
                    tr.buf_);
            })
            b port_speed configs
    ]

-- The input context of `ConfigureEndpoints` before the loop.
abbrev pub configure_context : Device → InputContext
configure_context dev =
    let copied : InputContext = record (clear_control_context dev.input_ctx) {
      slot_context = dev.ctx.slot_context;
    } in
    let enabled = enable_slot_context copied in
    record enabled { slot_context = SlotContext.set_context_entries enabled.slot_context 31 }

-- `ConfigureEndpoints` up to the command, with the speed of the device's port.
unfoldable pub endpoint_contexts :
    Layout → Device → Allocator → ℕ → Option (Device × Allocator × Error)
unfolding add_endpoints
endpoint_contexts l dev a port_speed =
    let started : Device = record dev { input_ctx = configure_context dev } in
    if (port_speed == 0) || ltb super_speed_plus port_speed
    then some (started, a, unknown_xhci_speed_id)
    else elim (add_endpoints l started a port_speed (take dev.num_ep_configs dev.ep_configs)) [
      | none ↦ none
      | some (dev', b) ↦ some (dev', b, success)
    ]
