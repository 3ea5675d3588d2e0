-- ===== src/Device/RoundTrip.antt =====
-- What `ControlIn` and `ControlOut` of kernel/usb/xhci/device.cpp leave in a transfer ring is what
-- `OnTransferEventReceived` reads back from the addresses in the setup stage map.
use mikanos_aarch.Prelude.{
  ℕ, ◌+◌, ◌*◌, ◌^◌, ◌≤◌, ◌<◌, ◌≡◌, ◌≢◌, ◌⊎◌, inl, inr, refl, sym, ap, ◌∙◌, Bool, true, false,
  if◌then◌else◌, arith,
}
use mikanos_aarch.SetupData.{
  SetupData, IsSetupData, make_setup_stage_trb, read_setup_data,
  read_setup_data-make_setup_stage_trb,
}
use mikanos_aarch.Trb.{Trb, trb_type}
use mikanos_aarch.Trb.LinkTrb
use mikanos_aarch.Trb.SetupStageTrb
use mikanos_aarch.Trb.DataStageTrb
use mikanos_aarch.Trb.StatusStageTrb
use mikanos_aarch.Ring.{Ring, push}
use mikanos_aarch.Ring.Consumer.{slot}
use mikanos_aarch.Ring.Slots.{
  IsValid, push_cases, stamp, trb_type-stamp, slot-push_self, slot-push_ne, push_fixed,
  push_inside_state, push_turn_state,
}
use mikanos_aarch.Ring.Invariant.{push-IsValid, push-address}
use mikanos_aarch.Device.{holds_address, trb_of}
use mikanos_aarch.Device.Transfers.{make_data_stage_trb, setup_stage_cast, push_with_data}

-- The slot at an address of the buffer.
trb_of-slot : (r : Ring) (b i : ℕ) → b ≡ r.buf_ → trb_of r (b + 16 * i) ≡ slot r i
trb_of-slot r b i e = ap (λ (k : ℕ). slot r k) (omega arith)

holds_slot :
    (r : Ring) (b i : ℕ) → b ≡ r.buf_ → i < r.buf_size → holds_address r (b + 16 * i) ≡ true
holds_slot r b i e h = ground arith

-- Where the next push goes.
next_index :
    (r : Ring) (t : Trb)
    → IsValid r
    → ((r.write_index + 2 < r.buf_size) × ((push r t).0.write_index ≡ r.write_index + 1))
      ⊎ ((r.write_index + 2 ≡ r.buf_size) × ((push r t).0.write_index ≡ 0))
next_index r t v = elim (push_cases r v) [
  | inl h ↦ inl (h, (push_inside_state r t v h).0)
  | inr h ↦ inr (h, (push_turn_state r t v h).0)
]

-- Three pushes to a ring with three slots and its link: where each TRB is, and that it still is there
-- after those behind it.
module _ (r : Ring) (t1 t2 t3 : Trb) (v : IsValid r) (long : 4 ≤ r.buf_size)
    (p1 : trb_type t1 ≢ LinkTrb.type) (p2 : trb_type t2 ≢ LinkTrb.type)
    (p3 : trb_type t3 ≢ LinkTrb.type) where
  abbrev r1 : Ring
  r1 = (push r t1).0

  abbrev r2 : Ring
  r2 = (push r1 t2).0

  abbrev r3 : Ring
  r3 = (push r2 t3).0

  v1 : IsValid r1
  v1 = push-IsValid r t1 v p1

  v2 : IsValid r2
  v2 = push-IsValid r1 t2 v1 p2

  v3 : IsValid r3
  v3 = push-IsValid r2 t3 v2 p3

  same_buffer :
      (r3.buf_ ≡ r.buf_)
      × (r3.buf_size ≡ r.buf_size)
      × (r1.buf_ ≡ r.buf_)
      × (r1.buf_size ≡ r.buf_size)
  same_buffer = (
    (push_fixed r2 t3 v2).0 ∙ (push_fixed r1 t2 v1).0 ∙ (push_fixed r t1 v).0,
    (push_fixed r2 t3 v2).1 ∙ (push_fixed r1 t2 v1).1 ∙ (push_fixed r t1 v).1,
    (push_fixed r t1 v).0,
    (push_fixed r t1 v).1,
  )

  second_size : r2.buf_size ≡ r.buf_size
  second_size = (push_fixed r1 t2 v1).1 ∙ (push_fixed r t1 v).1

  apart :
      (r1.write_index ≢ r.write_index)
      × (r2.write_index ≢ r.write_index)
      × (r2.write_index ≢ r1.write_index)
  apart = ground (arith, long, next_index r t1 v, next_index r1 t2 v1, same_buffer, v.inside)

  first_kept : slot r3 r.write_index ≡ stamp r.cycle_bit t1
  first_kept =
      slot-push_ne r2 t3 r.write_index v2 (apart.1) (omega (arith, second_size, v.inside))
      ∙ slot-push_ne r1 t2 r.write_index v1 (apart.0) (omega (arith, same_buffer, v.inside))
      ∙ slot-push_self r t1 v

  second_kept : slot r3 r1.write_index ≡ stamp r1.cycle_bit t2
  second_kept =
      slot-push_ne r2 t3 r1.write_index v2 (apart.2)
        (omega (arith, second_size, same_buffer, v1.inside))
      ∙ slot-push_self r1 t2 v1

  -- At the addresses that the pushes returned.
  first_at : trb_of r3 (push r t1).1 ≡ stamp r.cycle_bit t1
  first_at =
      ap (trb_of r3) (push-address r t1 v).0
      ∙ trb_of-slot r3 r.buf_ r.write_index (sym same_buffer.0)
      ∙ first_kept

  second_at : trb_of r3 (push r1 t2).1 ≡ stamp r1.cycle_bit t2
  second_at =
      ap (trb_of r3) (push-address r1 t2 v1).0
      ∙ trb_of-slot r3 r1.buf_ r1.write_index (same_buffer.2 ∙ sym same_buffer.0)
      ∙ second_kept

  first_inside : holds_address r3 (push r t1).1 ≡ true
  first_inside =
      ap (holds_address r3) (push-address r t1 v).0
      ∙ holds_slot r3 r.buf_ r.write_index (sym same_buffer.0)
          (omega (arith, same_buffer, v.inside))

  second_inside : holds_address r3 (push r1 t2).1 ≡ true
  second_inside =
      ap (holds_address r3) (push-address r1 t2 v1).0
      ∙ holds_slot r3 r1.buf_ r1.write_index (same_buffer.2 ∙ sym same_buffer.0)
          (omega (arith, same_buffer, v1.inside))

  first_at_once : trb_of r1 (push r t1).1 ≡ stamp r.cycle_bit t1
  first_at_once =
      ap (trb_of r1) (push-address r t1 v).0
      ∙ trb_of-slot r1 r.buf_ r.write_index (sym (same_buffer.2))
      ∙ slot-push_self r t1 v

-- The TRBs of a transfer with a data stage.
abbrev data_trb : ℕ → ℕ → Bool → Trb
data_trb buf len dir_in =
    DataStageTrb.set_interrupt_on_completion (make_data_stage_trb buf len dir_in) true

abbrev status_trb : Bool → Trb
status_trb status_in =
    if status_in then StatusStageTrb.set_direction StatusStageTrb.new true else StatusStageTrb.new

status_type : (b : Bool) → trb_type (status_trb b) ≡ StatusStageTrb.type
status_type true = omega arith
status_type false = omega arith

data_fields :
    (buf len : ℕ) (dir_in : Bool)
    → buf < 2 ^ 64
    → len < 2 ^ 17
    → (trb_type (data_trb buf len dir_in) ≡ DataStageTrb.type)
      × (DataStageTrb.pointer (data_trb buf len dir_in) ≡ buf)
      × (DataStageTrb.trb_transfer_length (data_trb buf len dir_in) ≡ len)
unfolding make_data_stage_trb
data_fields buf len true hb hl = (omega arith, omega arith, omega arith)
data_fields buf len false hb hl = (omega arith, omega arith, omega arith)

read_setup_data-stamp : (c : Bool) (t : Trb) → read_setup_data (stamp c t) ≡ read_setup_data t
unfolding read_setup_data
read_setup_data-stamp c t = refl

setup_stage_cast_self :
    (r : Ring) (at : ℕ) → trb_type (trb_of r at) ≡ SetupStageTrb.type → setup_stage_cast r at ≡ at
unfolding setup_stage_cast
setup_stage_cast_self r at e = ground arith

module _ (r : Ring) (d : SetupData) (transfer_type buf len : ℕ) (dir_in status_in : Bool) where
  abbrev setup_trb : Trb
  setup_trb = make_setup_stage_trb d transfer_type

  push_with_data_run : push_with_data r d transfer_type buf len dir_in status_in ≡ (
    (push (push (push r setup_trb).0 (data_trb buf len dir_in)).0 (status_trb status_in)).0,
    (push (push r setup_trb).0 (data_trb buf len dir_in)).1,
    setup_stage_cast (push r setup_trb).0 (push r setup_trb).1,
  )
  unfolding push_with_data
  push_with_data_run = refl

  -- For a control transfer with a data stage on a valid ring of four slots or more, wherever in the
  -- lap it stands, the two addresses that go into the setup stage map lead back to what the transfer
  -- was issued with: that of the data stage is inside the ring's buffer and holds a data stage TRB with
  -- the transfer's buffer and length, that of the setup stage is inside too, and the setup packet read
  -- there is the transfer's. The TRBs pushed in between have overwritten neither.
  pub push_with_data_lem :
      IsValid r
      → 4 ≤ r.buf_size
      → IsSetupData d
      → buf < 2 ^ 64
      → len < 2 ^ 17
      → (r' : Ring) × (data_at : ℕ) × (setup_at : ℕ) × (push_with_data r d transfer_type buf len
            dir_in status_in
          ≡ (r', data_at, setup_at))
        × IsValid r'
        × (holds_address r' data_at ≡ true)
        × (trb_type (trb_of r' data_at) ≡ DataStageTrb.type)
        × (DataStageTrb.pointer (trb_of r' data_at) ≡ buf)
        × (DataStageTrb.trb_transfer_length (trb_of r' data_at) ≡ len)
        × (holds_address r' setup_at ≡ true)
        × (read_setup_data (trb_of r' setup_at) ≡ d)
  push_with_data_lem v long h hb hl =
      let (same, is_setup, _, _) = read_setup_data-make_setup_stage_trb d transfer_type h in
      let (is_data, at_buf, of_len) = data_fields buf len dir_in hb hl in
      let p1 : trb_type setup_trb ≢ LinkTrb.type = λ e. absurd (omega (arith, is_setup, e)) in
      let p2 : trb_type (data_trb buf len dir_in) ≢ LinkTrb.type =
        λ e. absurd (omega (arith, is_data, e)) in
      let p3 : trb_type (status_trb status_in) ≢ LinkTrb.type =
        λ e. absurd (omega (arith, status_type status_in, e)) in
      let at2 =
        second_at r setup_trb (data_trb buf len dir_in) (status_trb status_in) v long p1 p2 p3 in
      let at1 =
        first_at r setup_trb (data_trb buf len dir_in) (status_trb status_in) v long p1 p2 p3 in
      let c1 = (push r setup_trb).0.cycle_bit in
      (
        r3 r setup_trb (data_trb buf len dir_in) (status_trb status_in) v long p1 p2 p3,
        (push (push r setup_trb).0 (data_trb buf len dir_in)).1,
        (push r setup_trb).1,
        push_with_data_run
            ∙ ap
                (λ (at : ℕ). (
                  (push (push (push r setup_trb).0 (data_trb buf len dir_in)).0
                      (status_trb status_in)).0,
                  (push (push r setup_trb).0 (data_trb buf len dir_in)).1,
                  at,
                ))
                (setup_stage_cast_self (push r setup_trb).0 (push r setup_trb).1 (
                  ap trb_type (
                    first_at_once r setup_trb (data_trb buf len dir_in) (status_trb status_in) v
                      long p1 p2 p3)
                  ∙ trb_type-stamp r.cycle_bit setup_trb
                  ∙ is_setup)),
        v3 r setup_trb (data_trb buf len dir_in) (status_trb status_in) v long p1 p2 p3,
        second_inside r setup_trb (data_trb buf len dir_in) (status_trb status_in) v long p1 p2 p3,
        ap trb_type at2 ∙ trb_type-stamp c1 (data_trb buf len dir_in) ∙ is_data,
        ap DataStageTrb.pointer at2 ∙ at_buf,
        ap DataStageTrb.trb_transfer_length at2 ∙ of_len,
        first_inside r setup_trb (data_trb buf len dir_in) (status_trb status_in) v long p1 p2 p3,
        ap read_setup_data at1 ∙ read_setup_data-stamp r.cycle_bit setup_trb ∙ same,
      )
