-- ===== src/Endpoint.antt =====
-- kernel/usb/endpoint.hpp: endpoint identifiers.
use mikanos_aarch.Prelude.{
  ℕ, ◌+◌, ◌*◌, ◌/◌, ◌^◌, ◌≤◌, ◌<◌, ◌≡◌, ◌⊎◌, inl, inr, Bool, true, false, bit_and, bit_or, to_bit,
  ◌==◌, if◌then◌else◌, arith, bit_or-shifted, bit_and-ones,
}
use mikanos_aarch.Context.{device_context_index}

-- `EndpointType`.
pub data EndpointType : Type 0 where
  control isochronous bulk interrupt : EndpointType

-- `EndpointID(ep_num, dir_in)`; an identifier is its `addr_`.
unfoldable pub endpoint_id : ℕ → Bool → ℕ
endpoint_id ep_num dir_in = bit_or (ep_num * 2 ^ 1) (to_bit dir_in)

-- `Number`.
unfoldable pub number : ℕ → ℕ
number addr = addr / 2 ^ 1

-- `IsIn`.
unfoldable pub is_in : ℕ → Bool
is_in addr = if bit_and addr 1 == 0 then false else true

-- `kDefaultControlPipeID`.
abbrev pub default_control_pipe_id : ℕ
default_control_pipe_id = endpoint_id 0 true

-- `EndpointConfig`.
pub record EndpointConfig : Type 0 where
  pub ep_id : ℕ
  pub ep_type : EndpointType
  pub max_packet_size : ℕ
  pub interval : ℕ

endpoint_id_sum : (n : ℕ) (d : Bool) → endpoint_id n d ≡ 2 * n + to_bit d
unfolding endpoint_id
endpoint_id_sum n true = omega (arith, bit_or-shifted 1 n 1 (omega arith))
endpoint_id_sum n false = omega (arith, bit_or-shifted 1 n 0 (omega arith))

-- For an endpoint number up to 15, and the direction in where the number is 0: number and direction
-- of the endpoint identifier are those it was made of, the identifier is the device context index of
-- the endpoint, and it is between 1 and 31, so that it names one of the 31 endpoint contexts.
pub endpoint_id_lem :
    (n : ℕ) (d : Bool)
    → n < 16
    → (0 < n) ⊎ (d ≡ true)
    → (number (endpoint_id n d) ≡ n)
      × (is_in (endpoint_id n d) ≡ d)
      × (device_context_index n d ≡ endpoint_id n d)
      × (1 ≤ endpoint_id n d)
      × (endpoint_id n d ≤ 31)
unfolding number is_in
endpoint_id_lem n true h c = (
  omega (arith, endpoint_id_sum n true),
  ground (arith, endpoint_id_sum n true, bit_and-ones 1 (endpoint_id n true)),
  ground (arith, endpoint_id_sum n true),
  omega (arith, endpoint_id_sum n true),
  omega (arith, endpoint_id_sum n true),
)
endpoint_id_lem n false h (inl c) = (
  omega (arith, endpoint_id_sum n false),
  ground (arith, endpoint_id_sum n false, bit_and-ones 1 (endpoint_id n false)),
  ground (arith, endpoint_id_sum n false),
  omega (arith, endpoint_id_sum n false),
  omega (arith, endpoint_id_sum n false),
)
endpoint_id_lem n false h (inr c) = cc
