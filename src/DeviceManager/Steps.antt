-- ===== src/DeviceManager/Steps.antt =====
-- Sequences of calls of a device manager (kernel/usb/xhci/devmgr.cpp).
use mikanos_aarch.Prelude.{
  ℕ, ◌+◌, ◌≤◌, ◌<◌, ◌≡◌, ◌⊎◌, inl, inr, sym, ◌∙◌, Option, none, some, get_or, set, length-replicate,
  get_or-replicate, replicate, arith, dec_lt, ℕ_discrete, subst, Option-cases,
}
use mikanos_aarch.Error.{Error, success, invalid_slot_id}
use mikanos_aarch.Memory.{Allocator, nullptr, alloc_array}
use mikanos_aarch.Device.{Device, Layout}
use mikanos_aarch.DeviceManager.{
  DeviceManager, initialize, find_by_slot, new_device, alloc_device, load_dcbaa, remove,
  write_device, size_of_pointer,
}
use mikanos_aarch.DeviceManager.Invariant.{
  IsValid, alloc_device_cases, new_device-slot_id, placed-IsValid, written-IsValid, loaded-IsValid,
  removed-IsValid,
}

abbrev no_device : Option Device
no_device = none

-- A manager as `Initialize` leaves it.
initialized-IsValid :
    (n q : ℕ)
    → IsValid (record {
      device_context_pointers = replicate (n + 1) nullptr;
      device_contexts_at = q;
      max_slots = n;
      devices = replicate (n + 1) none;
    })
initialized-IsValid n q = record {
  devices_length = omega (arith, length-replicate (n + 1) no_device);
  pointers_length = omega (arith, length-replicate (n + 1) nullptr);
  slots = λ i dev e. absurd (cc (e, get_or-replicate (n + 1) i no_device));
  pointers = λ i lo. inl (get_or-replicate (n + 1) i nullptr);
}

initialize-IsValid :
    (m : DeviceManager) (n : ℕ) (a : Allocator) (m' : DeviceManager) (a' : Allocator)
    → initialize m n a ≡ (m', a', success)
    → IsValid m'
unfolding initialize
initialize-IsValid m n a m' a' e =
    elim (ℕ_discrete (alloc_array a size_of_pointer (n + 1) 0 0).1 nullptr) [
      | yes z ↦ absurd (ground arith)
      | no z ↦
          elim (ℕ_discrete
            (alloc_array (alloc_array a size_of_pointer (n + 1) 0 0).0 size_of_pointer (n + 1) 64
              4096).1
            nullptr) [
              | yes y ↦ absurd (ground arith)
              | no y ↦ subst IsValid (ground arith) (
                  initialized-IsValid n
                    (alloc_array (alloc_array a size_of_pointer (n + 1) 0 0).0 size_of_pointer
                      (n + 1) 64 4096).1)
            ]
    ]

-- The calls that change a device manager. A device that a slot points at may change between them,
-- but for its slot and the place of its context, which it keeps from its construction.
pub data Step (l : Layout) : DeviceManager → DeviceManager → Type 0 where
  allocate :
      (m : DeviceManager) (a : Allocator) (slot_id dbreg : ℕ) (m' : DeviceManager) (a' : Allocator)
      (e : Error)
      → alloc_device l m a slot_id dbreg ≡ some (m', a', e)
      → Step l m m'
  load :
      (m : DeviceManager) (slot_id : ℕ) (m' : DeviceManager) (e : Error)
      → load_dcbaa m slot_id ≡ some (m', e)
      → Step l m m'
  take_out :
      (m : DeviceManager) (slot_id : ℕ) (m' : DeviceManager) (e : Error)
      → remove m slot_id ≡ some (m', e)
      → Step l m m'
  change :
      (m : DeviceManager) (slot_id : ℕ) (old new : Device)
      → find_by_slot m slot_id ≡ some old
      → new.slot_id ≡ old.slot_id
      → new.ctx_at ≡ old.ctx_at
      → Step l m (write_device m slot_id new)

-- Any number of them.
pub data Reach (l : Layout) (m : DeviceManager) : DeviceManager → Type 0 where
  start : Reach l m m
  next : {m' m'' : DeviceManager} → Reach l m m' → Step l m' m'' → Reach l m m''

outcome-injective :
    {m m' : DeviceManager} {a a' : Allocator} {e e' : Error}
    → ◌≡◌ {A = Option (DeviceManager × Allocator × Error)} (some (m, a, e)) (some (m', a', e'))
    → (m' ≡ m) × (a' ≡ a) × (e' ≡ e)
outcome-injective h = (cc h, cc h, cc h)

reply-injective :
    {m m' : DeviceManager} {e e' : Error}
    → ◌≡◌ {A = Option (DeviceManager × Error)} (some (m, e)) (some (m', e'))
    → m' ≡ m
reply-injective h = cc h

-- The slots as `FindBySlot` reads them.
pub find_by_slot_cases :
    (m : DeviceManager) (i : ℕ)
    → ((i ≤ m.max_slots) × (find_by_slot m i ≡ get_or m.devices i none))
      ⊎ ((m.max_slots < i) × (find_by_slot m i ≡ none))
unfolding find_by_slot
find_by_slot_cases m i = ground arith

alloc_device-IsValid :
    (l : Layout) (m : DeviceManager) (a : Allocator) (slot_id dbreg : ℕ) (m' : DeviceManager)
    (a' : Allocator) (e : Error)
    → IsValid m
    → alloc_device l m a slot_id dbreg ≡ some (m', a', e)
    → IsValid m'
alloc_device-IsValid l m a slot_id dbreg m' a' e v h =
    elim (alloc_device_cases l m a slot_id dbreg) [
      | inl (_, x) ↦ rw (outcome-injective (sym x ∙ h)).0 v
      | inr (inl (_, _, x)) ↦ rw (outcome-injective (sym x ∙ h)).0 v
      | inr (inr (inl (_, _, _, x))) ↦ absurd (cc (x, h))
      | inr (inr (inr (inside, free, x))) ↦ rw (outcome-injective (sym x ∙ h)).0 (
          placed-IsValid m v slot_id
            (new_device l (alloc_array a l.size_of_device 1 64 4096).1 slot_id dbreg) inside free
            (new_device-slot_id l (alloc_array a l.size_of_device 1 64 4096).1 slot_id dbreg))
    ]

load_dcbaa_cases :
    (m : DeviceManager) (slot_id : ℕ)
    → ((m.max_slots < slot_id) × (load_dcbaa m slot_id ≡ some (m, invalid_slot_id)))
      ⊎ ((slot_id ≤ m.max_slots)
          × (get_or m.devices slot_id none ≡ none)
          × (load_dcbaa m slot_id ≡ none))
      ⊎ ((slot_id ≤ m.max_slots)
          × ((dev : Device) × (get_or m.devices slot_id none ≡ some dev)
              × (load_dcbaa m slot_id
                  ≡ some (
                    record m {
                      device_context_pointers = set m.device_context_pointers slot_id dev.ctx_at;
                    },
                    success,
                  ))))
unfolding load_dcbaa
load_dcbaa_cases m slot_id = elim (dec_lt m.max_slots slot_id) [
  | yes h ↦ inl (h, ground arith)
  | no h ↦ elim (Option-cases (get_or m.devices slot_id none)) [
    | inl e ↦ inr (inl (omega arith, e, ground arith))
    | inr (dev, e) ↦ inr (inr (omega arith, (dev, e, ground arith)))
  ]
]

remove_cases :
    (m : DeviceManager) (slot_id : ℕ)
    → ((m.max_slots < slot_id) × (remove m slot_id ≡ none))
      ⊎ ((slot_id ≤ m.max_slots)
          × (remove m slot_id
              ≡ some (
                record m {
                  device_context_pointers = set m.device_context_pointers slot_id nullptr;
                  devices = set m.devices slot_id none;
                },
                success,
              )))
unfolding remove
remove_cases m slot_id = ground arith

Step-IsValid : (l : Layout) {m m' : DeviceManager} → Step l m m' → IsValid m → IsValid m'
Step-IsValid l (allocate m a slot_id dbreg m' a' e h) v =
    alloc_device-IsValid l m a slot_id dbreg m' a' e v h
Step-IsValid l (load m slot_id m' e h) v = elim (load_dcbaa_cases m slot_id) [
  | inl (_, x) ↦ rw (reply-injective (sym x ∙ h)) v
  | inr (inl (_, _, x)) ↦ absurd (cc (x, h))
  | inr (inr (inside, (dev, at, x))) ↦
      rw (reply-injective (sym x ∙ h)) (loaded-IsValid m v slot_id dev inside at)
]
Step-IsValid l (take_out m slot_id m' e h) v = elim (remove_cases m slot_id) [
  | inl (_, x) ↦ absurd (cc (x, h))
  | inr (inside, x) ↦ rw (reply-injective (sym x ∙ h)) (removed-IsValid m slot_id v inside)
]
Step-IsValid l (change m slot_id old new at slot ctx) v = elim (find_by_slot_cases m slot_id) [
  | inl (inside, x) ↦ written-IsValid m v slot_id new inside old (sym x ∙ at) slot ctx
  | inr (_, x) ↦ absurd (cc (x, at))
]

Reach-IsValid :
    (l : Layout) (m : DeviceManager) {m' : DeviceManager} → Reach l m m' → IsValid m → IsValid m'
Reach-IsValid l m start v = v
Reach-IsValid l m (next r s) v = Step-IsValid l s (Reach-IsValid l m r v)

-- After `Initialize` and any sequence of `AllocDevice`, `LoadDCBAA`, `Remove` and changes to the
-- devices themselves, both arrays have a place for each slot, each device knows the slot it is in,
-- and from slot 1 on the pointer that the controller reads is nullptr or the context of the device
-- in that slot.
pub initialize-Reach-IsValid :
    (l : Layout) (m : DeviceManager) (n : ℕ) (a : Allocator) (m0 : DeviceManager) (a0 : Allocator)
    (m' : DeviceManager)
    → initialize m n a ≡ (m0, a0, success)
    → Reach l m0 m'
    → IsValid m'
initialize-Reach-IsValid l m n a m0 a0 m' e r =
    Reach-IsValid l m0 r (initialize-IsValid m n a m0 a0 e)
