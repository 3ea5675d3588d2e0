-- ===== src/Hid.antt =====
-- kernel/usb/classdriver: base.hpp, hid.cpp, hid.hpp, keyboard.cpp and mouse.cpp. A class driver's
-- own members and what it does to them; what it asks of its device is in Device/Drivers.
pub mod Keys
use mikanos_aarch.Prelude.{
  ℕ, zero, suc, ◌+◌, ◌^◌, Bool, true, false, ◌||◌, List, [], ◌∷◌, ◌++◌, map, Option, none, some,
  length, get_or, take, drop, replicate, ltb, leb, ◌==◌, if◌then◌else◌,
}
use mikanos_aarch.Prelude.Int.{ℤ, int8}
use mikanos_aarch.Endpoint.{
  EndpointConfig, EndpointType, control, isochronous, bulk, interrupt, is_in,
}

-- The class of the object: `HIDKeyboardDriver` or `HIDMouseDriver`.
pub data Kind : Type 0 where
  keyboard mouse : Kind

-- `kBufferSize`.
abbrev pub buffer_size : ℕ
buffer_size = 1024

-- `HIDBaseDriver` and `observers_` of the class below it. An observer is a number that stands for
-- the function subscribed.
pub record Driver : Type 0 where
  pub kind : Kind
  pub buf_at : ℕ
  pub interface_index : ℕ
  pub in_packet_size : ℕ
  pub initialize_phase : ℕ
  pub ep_interrupt_in : ℕ
  pub ep_interrupt_out : ℕ
  pub buf : List ℕ
  pub previous_buf : List ℕ
  pub observers : List ℕ

-- The constructors, with the address of `buf_`.
abbrev pub new : Kind → ℕ → ℕ → Driver
new k buf_at interface_index = record {
  kind = k;
  buf_at = buf_at;
  interface_index = interface_index;
  in_packet_size = elim k [ keyboard ↦ 8 | mouse ↦ 3 ];
  initialize_phase = 0;
  ep_interrupt_in = 0;
  ep_interrupt_out = 0;
  buf = replicate buffer_size 0;
  previous_buf = replicate buffer_size 0;
  observers = [];
}

-- `SubscribeKeyPush` and `SubscribeMouseMove`; none is a write past the array of four.
unfoldable pub subscribe : Driver → ℕ → Option Driver
subscribe d observer =
    if ltb (length d.observers) 4
    then some (record d { observers = d.observers ++ (observer ∷ []) })
    else none

-- `SetEndpoint`.
unfoldable pub set_endpoint : Driver → EndpointConfig → Driver
set_endpoint d config = elim config.ep_type [
  | interrupt ↦
      if is_in config.ep_id
      then record d { ep_interrupt_in = config.ep_id }
      else record d { ep_interrupt_out = config.ep_id }
  | _ ↦ d
]

-- A call of an observer.
pub data Notice : Type 0 where
  key_push : ℕ → ℕ → Notice
  mouse_move : ℕ → ℤ → ℤ → Notice

-- `std::find(...) != end`.
unfoldable pub contains : List ℕ → ℕ → Bool
contains [] key = false
contains (b ∷ bs) key = b == key || contains bs key

-- The keys that the loop of `HIDKeyboardDriver::OnDataReceived` notifies, over `n` bytes from `i`.
unfoldable pub pushed_keys : ℕ → ℕ → List ℕ → List ℕ → List ℕ
unfolding contains
pushed_keys zero i buf previous = []
pushed_keys (suc n) i buf previous =
    let key = get_or buf i 0 in
    let rest = pushed_keys n (i + 1) buf previous in
    if key == 0 then rest else (if contains previous key then rest else key ∷ rest)

-- `NotifyKeyPush` for each key in turn.
unfoldable pub notify_keys : List ℕ → List ℕ → List Notice
notify_keys observers [] = []
notify_keys observers (key ∷ keys) =
    map (λ o. key_push o key) observers ++ notify_keys observers keys

-- `OnDataReceived`.
unfoldable pub on_data_received : Driver → List Notice
unfolding notify_keys pushed_keys
on_data_received d = elim d.kind [
  | keyboard ↦ notify_keys d.observers (pushed_keys 6 2 d.buf d.previous_buf)
  | mouse ↦ map (λ o. mouse_move o (int8 (get_or d.buf 1 0)) (int8 (get_or d.buf 2 0))) d.observers
]

-- `std::copy_n(buf_.begin(), len, previous_buf_.begin())` with `len` an `int` in 32 bits: nothing
-- where it is negative, and none where it is past the arrays.
unfoldable pub save_report : Driver → ℕ → Option Driver
save_report d len =
    if leb (2 ^ 31) len
    then some d
    else (if leb len buffer_size
        then some (record d { previous_buf = take len d.buf ++ drop len d.previous_buf })
        else none)
