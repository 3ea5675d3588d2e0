-- ===== src/SetupData.antt =====
-- kernel/usb/setupdata.hpp: the setup packet of a control transfer, and the setup stage TRB that
-- kernel/usb/xhci/device.cpp makes of it (MakeSetupStageTRB) and reads it from again when the
-- transfer has completed (Device::OnTransferEventReceived).
pub mod RequestType
pub mod Request
pub mod DescriptorType
use mikanos_aarch.Prelude.{ℕ, Bool, false, ◌^◌, ◌<◌, ◌≡◌, ◌==◌, if◌then◌else◌, arith}
use mikanos_aarch.Bitfield.{get_bits, set_bits}
use mikanos_aarch.Trb.{Trb, trb_type}
use mikanos_aarch.Trb.SetupStageTrb

-- `request_type.data` holds the byte.
pub record SetupData : Type 0 where
  pub request_type : ℕ
  pub request : ℕ
  pub value : ℕ
  pub index : ℕ
  pub length : ℕ

-- The widths of the fields.
pub record IsSetupData (d : SetupData) : Type 0 where
  pub request_type_byte : d.request_type < 2 ^ 8
  pub request_byte : d.request < 2 ^ 8
  pub value_word : d.value < 2 ^ 16
  pub index_word : d.index < 2 ^ 16
  pub length_word : d.length < 2 ^ 16

-- The bits of `request_type`.
abbrev pub recipient : SetupData → ℕ
recipient d = get_bits d.request_type 0 5

abbrev pub set_recipient : SetupData → ℕ → SetupData
set_recipient d v = record d { request_type = set_bits d.request_type 0 5 v }

abbrev pub type : SetupData → ℕ
type d = get_bits d.request_type 5 2

abbrev pub set_type : SetupData → ℕ → SetupData
set_type d v = record d { request_type = set_bits d.request_type 5 2 v }

abbrev pub direction : SetupData → ℕ
direction d = get_bits d.request_type 7 1

abbrev pub set_direction : SetupData → ℕ → SetupData
set_direction d v = record d { request_type = set_bits d.request_type 7 1 v }

-- `operator ==`.
unfoldable pub equals : SetupData → SetupData → Bool
equals lhs rhs =
    if lhs.request_type == rhs.request_type
    then (if lhs.request == rhs.request
        then (if lhs.value == rhs.value
            then (if lhs.index == rhs.index then lhs.length == rhs.length else false)
            else false)
        else false)
    else false

-- `MakeSetupStageTRB`.
unfoldable pub make_setup_stage_trb : SetupData → ℕ → Trb
make_setup_stage_trb d transfer_type =
    let t0 = SetupStageTrb.set_request_type SetupStageTrb.new d.request_type in
    let t1 = SetupStageTrb.set_request t0 d.request in
    let t2 = SetupStageTrb.set_value t1 d.value in
    let t3 = SetupStageTrb.set_index t2 d.index in
    let t4 = SetupStageTrb.set_length t3 d.length in
    SetupStageTrb.set_transfer_type t4 transfer_type

-- What `OnTransferEventReceived` fills `setup_data` with.
unfoldable pub read_setup_data : Trb → SetupData
read_setup_data t = record {
  request_type = SetupStageTrb.request_type t;
  request = SetupStageTrb.request t;
  value = SetupStageTrb.value t;
  index = SetupStageTrb.index t;
  length = SetupStageTrb.length t;
}

-- The setup packet that is read from the TRB when the transfer completes is the one that the TRB
-- was made of, when its fields have their widths; and the TRB is a setup stage TRB that carries its
-- data itself, eight bytes of it.
pub read_setup_data-make_setup_stage_trb :
    (d : SetupData) (transfer_type : ℕ)
    → IsSetupData d
    → (read_setup_data (make_setup_stage_trb d transfer_type) ≡ d)
      × (trb_type (make_setup_stage_trb d transfer_type) ≡ SetupStageTrb.type)
      × (SetupStageTrb.immediate_data (make_setup_stage_trb d transfer_type) ≡ 1)
      × (SetupStageTrb.trb_transfer_length (make_setup_stage_trb d transfer_type) ≡ 8)
unfolding read_setup_data make_setup_stage_trb
read_setup_data-make_setup_stage_trb d transfer_type h =
    (same, omega arith, omega arith, omega arith)
  where
    e0 : (read_setup_data (make_setup_stage_trb d transfer_type)).request_type ≡ d.request_type
    e0 = omega arith

    e1 : (read_setup_data (make_setup_stage_trb d transfer_type)).request ≡ d.request
    e1 = omega arith

    e2 : (read_setup_data (make_setup_stage_trb d transfer_type)).value ≡ d.value
    e2 = omega arith

    e3 : (read_setup_data (make_setup_stage_trb d transfer_type)).index ≡ d.index
    e3 = omega arith

    e4 : (read_setup_data (make_setup_stage_trb d transfer_type)).length ≡ d.length
    e4 = omega arith

    same : read_setup_data (make_setup_stage_trb d transfer_type) ≡ d
    same = λ i. record {
      request_type = e0 i;
      request = e1 i;
      value = e2 i;
      index = e3 i;
      length = e4 i;
    }
