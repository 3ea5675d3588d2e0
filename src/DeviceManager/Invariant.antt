-- ===== src/DeviceManager/Invariant.antt =====
-- The device manager keeps its arrays and its devices together: kernel/usb/xhci/devmgr.cpp.
use mikanos_aarch.Prelude.{
  ℕ, suc, ◌≤◌, ◌<◌, ◌≡◌, ◌≢◌, ◌⊎◌, inl, inr, refl, sym, ap, ◌∙◌, List, Option, none, some, get_or,
  set, length, length-set, get_or-set_self, get_or-set_ne, arith, dec_lt, ℕ_discrete, Option-cases,
}
use mikanos_aarch.Error.{success, invalid_slot_id, already_allocated}
use mikanos_aarch.Memory.{Allocator, nullptr, alloc_array}
use mikanos_aarch.Device.{Device, Layout}
use mikanos_aarch.DeviceManager.{DeviceManager, new_device, alloc_device, write_device}

-- Both arrays have a place for each slot. A device knows its slot, and the pointer that the
-- controller reads for a slot is nullptr or the context of the slot's device; slot 0 is no device's,
-- and its pointer is that of the scratchpad buffers.
pub record IsValid (m : DeviceManager) : Type 0 where
  pub devices_length : length m.devices ≡ suc m.max_slots
  pub pointers_length : length m.device_context_pointers ≡ suc m.max_slots
  pub slots : (i : ℕ) (dev : Device) → get_or m.devices i none ≡ some dev → dev.slot_id ≡ i
  pub pointers :
      (i : ℕ)
      → 1 ≤ i
      → (get_or m.device_context_pointers i nullptr ≡ nullptr)
        ⊎ ((dev : Device) × (get_or m.devices i none ≡ some dev)
            × (get_or m.device_context_pointers i nullptr ≡ dev.ctx_at))

-- The slots after a write to `devices_`.
slots_after :
    (ds : List (Option Device)) (k : ℕ) (o : Option Device)
    → ((i : ℕ) (dev : Device) → get_or ds i none ≡ some dev → dev.slot_id ≡ i)
    → ((dev : Device) → o ≡ some dev → dev.slot_id ≡ k)
    → k < length ds
    → (i : ℕ) (dev : Device) → get_or (set ds k o) i none ≡ some dev
    → dev.slot_id ≡ i
slots_after ds k o old new inside i dev e = elim (ℕ_discrete k i) [
  | yes same ↦
      new dev (
        sym (get_or-set_self ds k o none inside)
        ∙ ap (λ (j : ℕ). get_or (set ds k o) j none) same
        ∙ e)
      ∙ same
  | no ne ↦ old i dev (sym (get_or-set_ne ds k i o none ne) ∙ e)
]

-- A pointer of `ps` is nullptr or the context of the device in its slot.
abbrev Backed : List ℕ → List (Option Device) → ℕ → Type 0
Backed ps ds i =
    (get_or ps i nullptr ≡ nullptr)
    ⊎ ((dev : Device) × (get_or ds i none ≡ some dev) × (get_or ps i nullptr ≡ dev.ctx_at))

-- Writes to one slot of either array leave the others backed.
Backed-elsewhere :
    (ps : List ℕ) (ds : List (Option Device)) (k p : ℕ) (o : Option Device) (i : ℕ)
    → k ≢ i
    → Backed ps ds i
    → Backed (set ps k p) (set ds k o) i
Backed-elsewhere ps ds k p o i ne b =
    rw (get_or-set_ne ps k i p nullptr ne, get_or-set_ne ds k i o none ne) b

Backed-devices :
    (ps : List ℕ) (ds : List (Option Device)) (k : ℕ) (o : Option Device) (i : ℕ)
    → k ≢ i
    → Backed ps ds i
    → Backed ps (set ds k o) i
Backed-devices ps ds k o i ne b = rw (get_or-set_ne ds k i o none ne) b

Backed-pointers :
    (ps : List ℕ) (ds : List (Option Device)) (k p i : ℕ)
    → k ≢ i
    → Backed ps ds i
    → Backed (set ps k p) ds i
Backed-pointers ps ds k p i ne b = rw (get_or-set_ne ps k i p nullptr ne) b

-- A free slot has no context.
free_slot :
    (m : DeviceManager) (i : ℕ)
    → IsValid m
    → 1 ≤ i
    → get_or m.devices i none ≡ none
    → get_or m.device_context_pointers i nullptr ≡ nullptr
free_slot m i v lo e = elim (v.pointers i lo) [ inl h ↦ h | inr (dev, at, _) ↦ absurd (cc (e, at)) ]

pub record Fresh (m m' : DeviceManager) (l : Layout) (slot_id dbreg p : ℕ) : Type 0 where
  pub state :
      m' ≡ record m { devices = set m.devices slot_id (some (new_device l p slot_id dbreg)) }
  pub free : get_or m.devices slot_id none ≡ none
  pub inside : slot_id ≤ m.max_slots

-- What `AllocDevice` does, branch by branch.
pub alloc_device_cases :
    (l : Layout) (m : DeviceManager) (a : Allocator) (slot_id dbreg : ℕ)
    → ((m.max_slots < slot_id) × (alloc_device l m a slot_id dbreg ≡ some (m, a, invalid_slot_id)))
      ⊎ ((slot_id ≤ m.max_slots)
          × ((dev : Device) × (get_or m.devices slot_id none ≡ some dev))
          × (alloc_device l m a slot_id dbreg ≡ some (m, a, already_allocated)))
      ⊎ ((slot_id ≤ m.max_slots)
          × (get_or m.devices slot_id none ≡ none)
          × ((alloc_array a l.size_of_device 1 64 4096).1 ≡ nullptr)
          × (alloc_device l m a slot_id dbreg ≡ none))
      ⊎ ((slot_id ≤ m.max_slots)
          × (get_or m.devices slot_id none ≡ none)
          × (alloc_device l m a slot_id dbreg
              ≡ some (
                record m {
                  devices = set m.devices slot_id (
                      some
                        (new_device l (alloc_array a l.size_of_device 1 64 4096).1 slot_id dbreg));
                },
                (alloc_array a l.size_of_device 1 64 4096).0,
                success,
              )))
unfolding alloc_device
alloc_device_cases l m a slot_id dbreg = elim (dec_lt m.max_slots slot_id) [
  | yes h ↦ inl (h, ground arith)
  | no h ↦ elim (Option-cases (get_or m.devices slot_id none)) [
    | inr (dev, e) ↦ inr (inl (omega arith, (dev, e), ground arith))
    | inl e ↦ elim (ℕ_discrete (alloc_array a l.size_of_device 1 64 4096).1 nullptr) [
      | yes z ↦ inr (inr (inl (omega arith, e, z, ground arith)))
      | no z ↦ inr (inr (inr (omega arith, e, ground arith)))
    ]
  ]
]

pub new_device-slot_id :
    (l : Layout) (p slot_id dbreg : ℕ) → (new_device l p slot_id dbreg).slot_id ≡ slot_id
unfolding new_device
new_device-slot_id l p slot_id dbreg = refl

-- A device put into a free slot.
module _ (m : DeviceManager) (v : IsValid m) (k : ℕ) (dev : Device) (inside : k ≤ m.max_slots) where
  pub placed-IsValid :
      get_or m.devices k none ≡ none → dev.slot_id ≡ k → IsValid (write_device m k dev)
  placed-IsValid free knows = record {
    devices_length = length-set m.devices k (some dev) ∙ v.devices_length;
    pointers_length = v.pointers_length;
    slots =
        slots_after m.devices k (some dev) v.slots (λ d e. cc (e, knows))
          (omega (arith, v.devices_length));
    pointers = λ i lo. elim (ℕ_discrete k i) [
      | yes same ↦
          inl (free_slot m i v lo (ap (λ (j : ℕ). get_or m.devices j none) (sym same) ∙ free))
      | no ne ↦
          Backed-devices m.device_context_pointers m.devices k (some dev) i ne (v.pointers i lo)
    ];
  }

  -- A device written back over itself, with its slot and its context where they were.
  pub written-IsValid :
      (old : Device)
      → get_or m.devices k none ≡ some old
      → dev.slot_id ≡ old.slot_id
      → dev.ctx_at ≡ old.ctx_at
      → IsValid (write_device m k dev)
  written-IsValid old at slot ctx = record {
    devices_length = length-set m.devices k (some dev) ∙ v.devices_length;
    pointers_length = v.pointers_length;
    slots =
        slots_after m.devices k (some dev) v.slots (λ d e. cc (e, slot, v.slots k old at))
          (omega (arith, v.devices_length));
    pointers = λ i lo. elim (ℕ_discrete k i) [
      | yes same ↦ rw (← same) (still (v.pointers k (omega arith)))
      | no ne ↦
          Backed-devices m.device_context_pointers m.devices k (some dev) i ne (v.pointers i lo)
    ];
  }
    where
      still :
          Backed m.device_context_pointers m.devices k
          → Backed m.device_context_pointers (set m.devices k (some dev)) k
      still (inl z) = inl z
      still (inr (d, e, p)) = inr (
        dev,
        get_or-set_self m.devices k (some dev) none (omega (arith, v.devices_length)),
        cc (p, e, at, ctx),
      )

  -- `LoadDCBAA`.
  pub loaded-IsValid :
      get_or m.devices k none ≡ some dev
      → IsValid (record m { device_context_pointers = set m.device_context_pointers k dev.ctx_at })
  loaded-IsValid at = record {
    devices_length = v.devices_length;
    pointers_length = length-set m.device_context_pointers k dev.ctx_at ∙ v.pointers_length;
    slots = v.slots;
    pointers = λ i lo. elim (ℕ_discrete k i) [
      | yes same ↦ rw (← same) (
          inr (
            dev,
            at,
            get_or-set_self m.device_context_pointers k dev.ctx_at nullptr
                (omega (arith, v.pointers_length)),
          ))
      | no ne ↦
          Backed-pointers m.device_context_pointers m.devices k dev.ctx_at i ne (v.pointers i lo)
    ];
  }

-- `Remove`.
pub removed-IsValid :
    (m : DeviceManager) (k : ℕ)
    → IsValid m
    → k ≤ m.max_slots
    → IsValid (record m {
      device_context_pointers = set m.device_context_pointers k nullptr;
      devices = set m.devices k none;
    })
removed-IsValid m k v inside = record {
  devices_length = length-set m.devices k none ∙ v.devices_length;
  pointers_length = length-set m.device_context_pointers k nullptr ∙ v.pointers_length;
  slots =
      slots_after m.devices k none v.slots (λ d e. absurd (cc e)) (omega (arith, v.devices_length));
  pointers = λ i lo. elim (ℕ_discrete k i) [
    | yes same ↦ rw (← same) (
        inl (
          get_or-set_self m.device_context_pointers k nullptr nullptr
            (omega (arith, v.pointers_length))))
    | no ne ↦
        Backed-elsewhere m.device_context_pointers m.devices k nullptr none i ne (v.pointers i lo)
  ];
}
