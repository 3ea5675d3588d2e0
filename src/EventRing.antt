-- ===== src/EventRing.antt =====
-- kernel/usb/xhci/ring.hpp and ring.cpp, `class EventRing`: the consumer's side of the event ring,
-- whose buffer the controller fills. A register of the interrupter holds the value last written to it.
pub mod Laps
use mikanos_aarch.Prelude.{
  ℕ, ◌+◌, ◌-◌, ◌*◌, ◌/◌, ◌%◌, ◌^◌, Bool, true, not, List, [], to_bit, get_or, replicate,
  if◌then◌else◌, ◌==◌,
}
use mikanos_aarch.Error.{Error, success, no_enough_memory}
use mikanos_aarch.Memory.{Allocator, nullptr, add64, alloc_array, free_mem}
use mikanos_aarch.Trb.{Trb, zero_trb, cycle_bit}
use mikanos_aarch.Ring.{size_of_trb}
use mikanos_aarch.Registers.Erdp
use mikanos_aarch.Registers.Erstsz
use mikanos_aarch.Registers.Erstba

-- The registers of `InterrupterRegisterSet` that the ring uses.
pub record Interrupter : Type 0 where
  pub erstsz : ℕ
  pub erstba : ℕ
  pub erdp : ℕ

-- `EventRingSegmentTableEntry`.
pub record SegmentTableEntry : Type 0 where
  pub ring_segment_base_address : ℕ
  pub ring_segment_size : ℕ

abbrev pub size_of_entry : ℕ
size_of_entry = 16

pub record EventRing : Type 0 where
  pub buf_ : ℕ
  pub trbs : List Trb
  pub buf_size : ℕ
  pub state : Bool
  pub erst_ : ℕ
  pub erst : SegmentTableEntry
  pub interrupter : Interrupter

-- `ReadDequeuePointer`.
abbrev pub read_dequeue_pointer : EventRing → ℕ
read_dequeue_pointer e = Erdp.pointer e.interrupter.erdp

-- `WriteDequeuePointer`.
unfoldable pub write_dequeue_pointer : EventRing → ℕ → EventRing
write_dequeue_pointer e p = record e {
  interrupter = record (e.interrupter) { erdp = Erdp.set_pointer e.interrupter.erdp p };
}

-- `Front`: the TRB at the dequeue pointer, which points into the ring's buffer.
unfoldable pub front : EventRing → Trb
front e = get_or e.trbs ((read_dequeue_pointer e - e.buf_) / size_of_trb) zero_trb

-- `HasFront`.
unfoldable pub has_front : EventRing → Bool
unfolding front
has_front e = cycle_bit (front e) == to_bit e.state

-- `Pop`; pointer arithmetic is in steps of a TRB.
abbrev pub segment_end : EventRing → ℕ
segment_end e = add64 e.erst.ring_segment_base_address (size_of_trb * e.erst.ring_segment_size)

unfoldable pub pop : EventRing → EventRing
pop e =
    let p = add64 (read_dequeue_pointer e) size_of_trb in
    if p == segment_end e
    then write_dequeue_pointer (record e { state = not e.state }) e.erst.ring_segment_base_address
    else write_dequeue_pointer e p

-- The writes to the registers, in the order of `Initialize`, once the buffers are there.
unfoldable pub register : EventRing → EventRing
unfolding write_dequeue_pointer
register e =
    let sized : EventRing = record e {
      interrupter = record (e.interrupter) {
        erstsz = Erstsz.set_event_ring_segment_table_size e.interrupter.erstsz 1;
      };
    } in
    let pointed = write_dequeue_pointer sized e.buf_ in
    record pointed {
      interrupter = record (pointed.interrupter) {
        erstba = Erstba.set_pointer pointed.interrupter.erstba e.erst_;
      };
    }

-- `Initialize`. A ring without its segment table gives its buffer back.
unfoldable pub initialize : EventRing → ℕ → Interrupter → Allocator → EventRing × Allocator × Error
unfolding register
initialize e size i a =
    let (b, p) = alloc_array (free_mem a e.buf_) size_of_trb size 64 (64 * 1024) in
    let (c, q) = alloc_array b size_of_entry 1 64 (64 * 1024) in
    let reset : EventRing = record e {
      buf_ = p;
      trbs = [];
      buf_size = size;
      state = true;
      interrupter = i;
    } in
    let filled : EventRing = record reset { trbs = replicate size zero_trb; erst_ = q } in
    let entry : SegmentTableEntry = record {
      ring_segment_base_address = p;
      ring_segment_size = size % 2 ^ 16;
    } in
    if p == nullptr
    then (reset, b, no_enough_memory)
    else (if q == nullptr
        then (filled, free_mem c p, no_enough_memory)
        else (register (record filled { erst = entry }), c, success))
