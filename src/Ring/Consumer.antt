-- ===== src/Ring/Consumer.antt =====
-- The other side of a command or transfer ring, as the xHCI specification (4.9.2) has it: the
-- controller takes the TRB at its dequeue index while the cycle bit there equals its consumer cycle
-- state, and at a link TRB goes on at the segment that the link names, toggling the state if the
-- link says so. This is the contract that `class Ring` of kernel/usb/xhci/ring.cpp is written for.
use mikanos_aarch.Prelude.{
  ℕ, ◌+◌, ◌-◌, ◌/◌, Bool, not, Option, none, some, to_bit, get_or, if◌then◌else◌, ◌==◌,
}
use mikanos_aarch.Trb.{Trb, zero_trb, cycle_bit, trb_type}
use mikanos_aarch.Trb.LinkTrb
use mikanos_aarch.Ring.{Ring, size_of_trb}

pub record Consumer : Type 0 where
  pub dequeue : ℕ
  pub cycle_state : Bool

abbrev pub slot : Ring → ℕ → Trb
slot r i = get_or r.trbs i zero_trb

-- Where a link leads, as an index into the ring's own segment.
abbrev pub follow : Ring → Consumer → Trb → Consumer
follow r c t = record {
  dequeue = (LinkTrb.pointer t - r.buf_) / size_of_trb;
  cycle_state = if LinkTrb.toggle_cycle t == 1 then not c.cycle_state else c.cycle_state;
}

-- One TRB that is no link, or nothing if the producer has not filled the slot.
unfoldable pub take_slot : Ring → Consumer → Option (Trb × Consumer)
take_slot r c =
    if cycle_bit (slot r c.dequeue) == to_bit c.cycle_state
    then some (slot r c.dequeue, record c { dequeue = c.dequeue + 1 })
    else none

-- The same past a link, if the consumer stands at one that is valid; `t` is the TRB at its index.
unfoldable pub fetch_at : Ring → Consumer → Trb → Option (Trb × Consumer)
fetch_at r c t =
    if cycle_bit t == to_bit c.cycle_state
    then (if trb_type t == LinkTrb.type then take_slot r (follow r c t) else take_slot r c)
    else none

unfoldable pub fetch : Ring → Consumer → Option (Trb × Consumer)
unfolding fetch_at
fetch r c = fetch_at r c (slot r c.dequeue)
