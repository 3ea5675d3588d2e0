-- ===== src/Registers/Pointers.antt =====
-- The registers of kernel/usb/xhci/registers.hpp that hold addresses: what `SetPointer` keeps of an
-- address.
use mikanos_aarch.Prelude.{ℕ, ◌%◌, ◌^◌, ◌<◌, ◌≡◌, arith}
use mikanos_aarch.Registers.Crcr
use mikanos_aarch.Registers.Dcbaap
use mikanos_aarch.Registers.Erstba
use mikanos_aarch.Registers.Erdp

-- An address in 64 bits that is aligned as its register wants (16 bytes for ERDP, 64 bytes for
-- CRCR and ERSTBA) is read back as it was set, whatever the register held, and the bits of the
-- register below the address keep what they held: in ERDP the segment index and the busy flag, in
-- CRCR the ring cycle state.
pub set_pointer_lem :
    (w p : ℕ)
    → w < 2 ^ 64
    → p < 2 ^ 64
    → p % 64 ≡ 0
    → (Crcr.pointer (Crcr.set_pointer w p) ≡ p)
      × (Crcr.ring_cycle_state (Crcr.set_pointer w p) ≡ Crcr.ring_cycle_state w)
      × (Erstba.pointer (Erstba.set_pointer w p) ≡ p)
      × (Erdp.pointer (Erdp.set_pointer w p) ≡ p)
      × (Erdp.event_handler_busy (Erdp.set_pointer w p) ≡ Erdp.event_handler_busy w)
      × (Erdp.dequeue_erst_segment_index (Erdp.set_pointer w p) ≡ Erdp.dequeue_erst_segment_index w)
set_pointer_lem w p hw hp a =
    (omega arith, omega arith, omega arith, omega arith, omega arith, omega arith)

-- A device context base address array pointer register that held 0 takes only the low 32 bits of a
-- 64-byte aligned address.
pub dcbaap_set_pointer_lem :
    (p : ℕ) → p < 2 ^ 64 → p % 64 ≡ 0 → (Dcbaap.set_pointer 0 p ≡ p % 2 ^ 32)
dcbaap_set_pointer_lem p hp a = omega arith
