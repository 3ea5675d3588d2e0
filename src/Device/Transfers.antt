-- ===== src/Device/Transfers.antt =====
-- kernel/usb/xhci/device.cpp: the transfers that a device issues. `usb::Device::ControlIn` and
-- `ControlOut`, which these call first, enter the issuer and never fail.
use mikanos_aarch.Prelude.{
  ℕ, ◌-◌, Bool, true, false, ◌∷◌, Option, none, some, ltb, set, ◌==◌, if◌then◌else◌,
}
use mikanos_aarch.Error.{success, invalid_endpoint_number, transfer_ring_not_set, not_implemented}
use mikanos_aarch.ArrayMap.{put}
use mikanos_aarch.Endpoint.{number}
use mikanos_aarch.SetupData.{SetupData, make_setup_stage_trb}
use mikanos_aarch.Ring.{Ring, push}
use mikanos_aarch.Trb.{Trb, trb_type}
use mikanos_aarch.Trb.SetupStageTrb
use mikanos_aarch.Trb.DataStageTrb
use mikanos_aarch.Trb.StatusStageTrb
use mikanos_aarch.Trb.NormalTrb
use mikanos_aarch.Device.{Device, Outcome, transfer_ring, trb_of}

-- `MakeDataStageTRB`.
unfoldable pub make_data_stage_trb : ℕ → ℕ → Bool → Trb
make_data_stage_trb buf len dir_in =
    let t0 = DataStageTrb.set_pointer DataStageTrb.new buf in
    let t1 = DataStageTrb.set_trb_transfer_length t0 len in
    let t2 = DataStageTrb.set_td_size t1 0 in DataStageTrb.set_direction t2 dir_in

-- `TRBDynamicCast<SetupStageTRB>` of an address that `Push` returned; 0 is nullptr.
unfoldable pub setup_stage_cast : Ring → ℕ → ℕ
setup_stage_cast r at = if SetupStageTrb.type == trb_type (trb_of r at) then at else 0

-- `event_waiters_.Put(setup_data, issuer)` for an issuer that is not nullptr.
unfoldable pub await : Device → SetupData → Option ℕ → Device
await dev setup_data none = dev
await dev setup_data (some issuer) = record dev {
  event_waiters = put dev.event_waiters setup_data issuer;
}

-- The pushes of a transfer with a data stage, and `setup_stage_map_.Put`: the ring, the address of
-- the data stage TRB, and that of the setup stage TRB.
unfoldable pub push_with_data : Ring → SetupData → ℕ → ℕ → ℕ → Bool → Bool → Ring × ℕ × ℕ
unfolding setup_stage_cast make_data_stage_trb
push_with_data tr setup_data transfer_type buf len dir_in status_in =
    let (r1, setup_at) = push tr (make_setup_stage_trb setup_data transfer_type) in
    let setup_position = setup_stage_cast r1 setup_at in
    let status =
      if status_in
      then StatusStageTrb.set_direction StatusStageTrb.new true
      else StatusStageTrb.new in
    let (r2, data_at) =
      push r1
        (DataStageTrb.set_interrupt_on_completion (make_data_stage_trb buf len dir_in) true) in
    let (r3, _) = push r2 status in (r3, data_at, setup_position)

-- The pushes of a transfer without: the address of the status stage TRB in place of the data's.
unfoldable pub push_without_data : Ring → SetupData → Ring × ℕ × ℕ
unfolding setup_stage_cast
push_without_data tr setup_data =
    let (r1, setup_at) = push tr (make_setup_stage_trb setup_data SetupStageTrb.no_data_stage) in
    let setup_position = setup_stage_cast r1 setup_at in
    let status = StatusStageTrb.set_direction StatusStageTrb.new true in
    let (r2, status_at) = push r1 (StatusStageTrb.set_interrupt_on_completion status true) in
    (r2, status_at, setup_position)

-- The ring is written back, the map has the completing TRB's address, and the doorbell is rung.
abbrev pub issued : Device → ℕ → Ring × ℕ × ℕ → Device
issued dev ep_id (r, position, setup_position) = record dev {
  transfer_rings = set dev.transfer_rings (ep_id - 1) (some r);
  setup_stage_map = put dev.setup_stage_map position setup_position;
  rung = ep_id ∷ dev.rung;
}

-- What `ControlIn` and `ControlOut` do after their call of the base class, over what they push.
unfoldable pub on_control_ring : Device → ℕ → (Ring → Ring × ℕ × ℕ) → Outcome
unfolding transfer_ring number
on_control_ring dev ep_id pushes =
    if ltb 15 (number ep_id)
    then some (dev, invalid_endpoint_number)
    else elim (transfer_ring dev ep_id) [
      | none ↦ none
      | some none ↦ some (dev, transfer_ring_not_set)
      | some (some tr) ↦ some (issued dev ep_id (pushes tr), success)
    ]

-- `Device::ControlIn`; a null `buf` is 0.
unfoldable pub control_in : Device → ℕ → SetupData → ℕ → ℕ → Option ℕ → Outcome
unfolding await on_control_ring push_with_data push_without_data
control_in dev ep_id setup_data buf len issuer =
    on_control_ring (await dev setup_data issuer) ep_id λ tr.
      if buf == 0
      then push_without_data tr setup_data
      else push_with_data tr setup_data SetupStageTrb.in_data_stage buf len true false

-- `Device::ControlOut`.
unfoldable pub control_out : Device → ℕ → SetupData → ℕ → ℕ → Option ℕ → Outcome
unfolding await on_control_ring push_with_data push_without_data
control_out dev ep_id setup_data buf len issuer =
    on_control_ring (await dev setup_data issuer) ep_id λ tr.
      if buf == 0
      then push_without_data tr setup_data
      else push_with_data tr setup_data SetupStageTrb.out_data_stage buf len false true

-- The TRB that `InterruptIn` pushes.
unfoldable pub normal_trb : ℕ → ℕ → Trb
normal_trb buf len =
    let t0 = NormalTrb.set_pointer NormalTrb.new buf in
    let t1 = NormalTrb.set_trb_transfer_length t0 len in
    let t2 = NormalTrb.set_interrupt_on_short_packet t1 true in
    NormalTrb.set_interrupt_on_completion t2 true

-- `Device::InterruptIn`.
unfoldable pub interrupt_in : Device → ℕ → ℕ → ℕ → Outcome
unfolding transfer_ring normal_trb
interrupt_in dev ep_id buf len = elim (transfer_ring dev ep_id) [
  | none ↦ none
  | some none ↦ some (dev, transfer_ring_not_set)
  | some (some tr) ↦ some (
    record dev {
      transfer_rings = set dev.transfer_rings (ep_id - 1) (some (push tr (normal_trb buf len)).0);
      rung = ep_id ∷ dev.rung;
    },
    success,
  )
]

-- `Device::InterruptOut`.
abbrev pub interrupt_out : Device → ℕ → ℕ → ℕ → Outcome
interrupt_out dev ep_id buf len = some (dev, not_implemented)
