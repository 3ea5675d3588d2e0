-- ===== src/Ring.antt =====
-- kernel/usb/xhci/ring.hpp and ring.cpp, `class Ring`: the producer's side of a command or transfer
-- ring. The ring owns its buffer, so the TRBs of the buffer are a field beside its address.
pub mod Consumer
pub mod Slots
pub mod Invariant
pub mod Refine
pub mod Fetch
pub mod Run
pub mod Torn
use mikanos_aarch.Prelude.{
  ℕ, ◌+◌, ◌-◌, ◌*◌, ◌%◌, ◌^◌, Bool, true, false, not, List, [], to_bit, bit_and, bit_or, set,
  get_or, ltb, replicate, if◌then◌else◌, ◌==◌,
}
use mikanos_aarch.Error.{Error, success, no_enough_memory}
use mikanos_aarch.Memory.{Allocator, nullptr, add64, sub64, alloc_array, free_mem}
use mikanos_aarch.Trb.{Trb, zero_trb}
use mikanos_aarch.Trb.LinkTrb

-- `sizeof(TRB)`.
abbrev pub size_of_trb : ℕ
size_of_trb = 16

pub record Ring : Type 0 where
  pub buf_ : ℕ
  pub trbs : List Trb
  pub buf_size : ℕ
  pub cycle_bit : Bool
  pub write_index : ℕ

-- A slot as the loop of `CopyToLast` leaves it after `n` of its three rounds: the words of `old`
-- from word `n` on, and those of `t` before.
abbrev pub first_words : ℕ → Trb → Trb → Trb
first_words n old t = record old {
  data0 = if ltb 0 n then t.data0 else old.data0;
  data1 = if ltb 1 n then t.data1 else old.data1;
  data2 = if ltb 2 n then t.data2 else old.data2;
}

-- The last word, with the producer's cycle state in bit 0.
abbrev pub last_word : Bool → Trb → ℕ
last_word c t = bit_or (bit_and t.data3 0xfffffffe) (to_bit c)

-- The memory after `n` rounds of the loop, and after the write of the last word.
unfoldable pub copy_words : ℕ → Ring → Trb → Ring
copy_words n r t = record r {
  trbs = set r.trbs r.write_index (first_words n (get_or r.trbs r.write_index zero_trb) t);
}

-- `CopyToLast`.
unfoldable pub copy_to_last : Ring → Trb → Ring
unfolding copy_words
copy_to_last r t =
    let s = copy_words 3 r t in
    let old = get_or s.trbs s.write_index zero_trb in
    record s { trbs = set s.trbs s.write_index (record old { data3 = last_word s.cycle_bit t }) }

-- The link TRB with which `Push` closes a lap.
abbrev pub closing_link : Ring → Trb
closing_link r = LinkTrb.set_toggle_cycle (LinkTrb.new r.buf_) true

-- `++write_index_`, and what follows when it reaches the last slot.
unfoldable pub advance : Ring → Ring
advance r =
    let moved : Ring = record r { write_index = add64 r.write_index 1 } in
    if moved.write_index == sub64 r.buf_size 1
    then record (copy_to_last moved (closing_link r)) {
      write_index = 0;
      cycle_bit = not r.cycle_bit;
    }
    else moved

-- `Push` returns the address of the slot that it filled.
unfoldable pub push : Ring → Trb → Ring × ℕ
push r t = (advance (copy_to_last r t), add64 r.buf_ (size_of_trb * r.write_index))

-- The members as `Initialize` sets them, over a buffer.
abbrev pub fresh : ℕ → ℕ → List Trb → Ring
fresh p size ts = record { buf_ = p; trbs = ts; buf_size = size; cycle_bit = true; write_index = 0 }

-- `Initialize`; `memset` zeroes the new buffer.
unfoldable pub initialize : Ring → ℕ → Allocator → Ring × Allocator × Error
initialize r size a =
    let (a', p) = alloc_array (free_mem a r.buf_) size_of_trb size 64 (64 * 1024) in
    if p == nullptr
    then (fresh p size [], a', no_enough_memory)
    else (fresh p size (replicate size zero_trb), a', success)
