-- ===== src/DeviceManager/Alloc.antt =====
-- What `AllocDevice` of kernel/usb/xhci/devmgr.cpp does on each branch.
use mikanos_aarch.Prelude.{
  ℕ, ◌≤◌, ◌<◌, ◌≡◌, ◌≢◌, ◌⊎◌, inl, inr, refl, ◌∙◌, none, some, get_or, get_or-set_self,
  get_or-set_ne, arith, ℕ_discrete,
}
use mikanos_aarch.Error.{Error, success, invalid_slot_id, already_allocated}
use mikanos_aarch.Memory.{Allocator, nullptr, alloc_array}
use mikanos_aarch.Device.{Device, Layout}
use mikanos_aarch.DeviceManager.{
  DeviceManager, find_by_slot, new_device, alloc_device, write_device,
}
use mikanos_aarch.DeviceManager.Invariant.{IsValid, alloc_device_cases, new_device-slot_id}
use mikanos_aarch.DeviceManager.Steps.{find_by_slot_cases}

new_device-dbreg : (l : Layout) (p slot_id dbreg : ℕ) → (new_device l p slot_id dbreg).dbreg ≡ dbreg
unfolding new_device
new_device-dbreg l p slot_id dbreg = refl

-- What `FindBySlot` gives after a device was put into a slot.
find_by_slot-write_device :
    (m : DeviceManager) (k : ℕ) (dev : Device) (i : ℕ)
    → IsValid m
    → k ≤ m.max_slots
    → ((k ≡ i) × (find_by_slot (write_device m k dev) i ≡ some dev))
      ⊎ ((k ≢ i) × (find_by_slot (write_device m k dev) i ≡ find_by_slot m i))
unfolding find_by_slot
find_by_slot-write_device m k dev i v inside = elim (ℕ_discrete k i) [
  | yes same ↦ inl (
    same,
    rw (← same) (
        ground
          (arith, get_or-set_self m.devices k (some dev) none (omega (arith, v.devices_length)))),
  )
  | no ne ↦ inr (ne, rw (get_or-set_ne m.devices k i (some dev) none ne) refl)
]

-- `AllocDevice` of a valid manager, where the pool has room for a device: the slot is above the
-- largest, and the call fails with kInvalidSlotID; or it has a device, and the call fails with
-- kAlreadyAllocated, and either way nothing is changed; or the call succeeds, and `FindBySlot` then
-- gives the new device, whose slot and doorbell are those asked for, and the other slots' as before.
pub alloc_device_lem :
    (l : Layout) (m : DeviceManager) (a : Allocator) (slot_id dbreg : ℕ)
    → IsValid m
    → (alloc_array a l.size_of_device 1 64 4096).1 ≢ nullptr
    → (m' : DeviceManager) × (a' : Allocator) × (e : Error) × (alloc_device l m a slot_id dbreg
        ≡ some (m', a', e))
      × (((m.max_slots < slot_id) × (e ≡ invalid_slot_id) × (m' ≡ m) × (a' ≡ a))
          ⊎ (((dev : Device) × (find_by_slot m slot_id ≡ some dev))
              × (e ≡ already_allocated)
              × (m' ≡ m)
              × (a' ≡ a))
          ⊎ ((find_by_slot m slot_id ≡ none)
              × (e ≡ success)
              × ((dev : Device) × (find_by_slot m' slot_id ≡ some dev)
                  × (dev.slot_id ≡ slot_id)
                  × (dev.dbreg ≡ dbreg))
              × ((i : ℕ) → slot_id ≢ i → find_by_slot m' i ≡ find_by_slot m i)))
alloc_device_lem l m a slot_id dbreg v room = elim (alloc_device_cases l m a slot_id dbreg) [
  | inl (above, x) ↦ (m, a, invalid_slot_id, x, inl (above, refl, refl, refl))
  | inr (inl (inside, (dev, at), x)) ↦
      (m, a, already_allocated, x, inr (inl ((dev, read m slot_id inside ∙ at), refl, refl, refl)))
  | inr (inr (inl (_, _, z, _))) ↦ absurd (room z)
  | inr (inr (inr (inside, free, x))) ↦ (
    write_device m slot_id (made slot_id),
    (alloc_array a l.size_of_device 1 64 4096).0,
    success,
    x,
    inr (
        inr (
          read m slot_id inside ∙ free,
          refl,
          (
            made slot_id,
            there inside,
            new_device-slot_id l block slot_id dbreg,
            new_device-dbreg l block slot_id dbreg,
          ),
          λ i ne. elsewhere inside i ne,
        )),
  )
]
  where
    block : ℕ
    block = (alloc_array a l.size_of_device 1 64 4096).1

    made : ℕ → Device
    made k = new_device l block k dbreg

    read :
        (m : DeviceManager) (i : ℕ) → i ≤ m.max_slots → find_by_slot m i ≡ get_or m.devices i none
    read m i h = elim (find_by_slot_cases m i) [
      | inl (_, x) ↦ x
      | inr (above, _) ↦ absurd (omega arith)
    ]

    there :
        slot_id ≤ m.max_slots
        → find_by_slot (write_device m slot_id (made slot_id)) slot_id ≡ some (made slot_id)
    there h = elim (find_by_slot-write_device m slot_id (made slot_id) slot_id v h) [
      | inl (_, x) ↦ x
      | inr (ne, _) ↦ absurd (ne refl)
    ]

    elsewhere :
        slot_id ≤ m.max_slots
        → (i : ℕ) → slot_id ≢ i
        → find_by_slot (write_device m slot_id (made slot_id)) i ≡ find_by_slot m i
    elsewhere h i ne = elim (find_by_slot-write_device m slot_id (made slot_id) i v h) [
      | inl (same, _) ↦ absurd (ne same)
      | inr (_, x) ↦ x
    ]
