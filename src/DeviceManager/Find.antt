-- ===== src/DeviceManager/Find.antt =====
-- The searches of kernel/usb/xhci/devmgr.cpp.
use mikanos_aarch.Prelude.{
  ℕ, zero, suc, ◌+◌, ◌≤◌, ◌<◌, ◌≡◌, refl, sym, ap, ◌∙◌, inl, inr, Bool, true, false, List, [], ◌∷◌,
  Option, none, some, get_or, drop, get_or-take, get_or-take_past, get_or-drop1, ltb, ◌==◌, arith,
  dec_lt, Bool-cases, if◌then◌else◌,
}
use mikanos_aarch.Device.{Device, State}
use mikanos_aarch.DeviceManager.{
  DeviceManager, find_slot, slots_from_1, port_of, find_by_port, state_number, find_by_state,
  find_by_slot,
}

-- What a search over a list of slots finds, where the head of the list is slot `k`.
abbrev FoundFrom : (Device → Bool) → List (Option Device) → ℕ → Option ℕ → Type 0
FoundFrom test devices k none =
    (j : ℕ) (dev : Device) → get_or devices j none ≡ some dev → test dev ≡ false
FoundFrom test devices k (some i) =
    (n : ℕ) × (i ≡ k + n)
    × ((dev : Device) × (get_or devices n none ≡ some dev) × (test dev ≡ true))
    × ((j : ℕ) (dev : Device) → j < n → get_or devices j none ≡ some dev → test dev ≡ false)

-- A slot that the test fails goes before.
FoundFrom-cons :
    (test : Device → Bool) (head : Option Device) (devices : List (Option Device)) (k : ℕ)
    (o : Option ℕ)
    → ((dev : Device) → head ≡ some dev → test dev ≡ false)
    → FoundFrom test devices (k + 1) o
    → FoundFrom test (head ∷ devices) k o
FoundFrom-cons test head devices k none fails found = λ j dev e. at_slot j dev e
  where
    at_slot : (j : ℕ) (dev : Device) → get_or (head ∷ devices) j none ≡ some dev → test dev ≡ false
    at_slot zero dev e = fails dev e
    at_slot (suc j) dev e = found j dev e
FoundFrom-cons test head devices k (some i) fails (n, e, hit, first) =
    (suc n, omega arith, hit, λ j dev h at. before j dev h at)
  where
    before :
        (j : ℕ) (dev : Device)
        → j < suc n
        → get_or (head ∷ devices) j none ≡ some dev
        → test dev ≡ false
    before zero dev h at = fails dev at
    before (suc j) dev h at = first j dev (omega arith) at

some-injective : {x y : Device} → some x ≡ some y → y ≡ x
some-injective e = cc

find_slot-FoundFrom :
    (test : Device → Bool) (devices : List (Option Device)) (k : ℕ)
    → FoundFrom test devices k (find_slot test devices k)
unfolding find_slot
find_slot-FoundFrom test [] k = λ j dev e. absurd (cc e)
find_slot-FoundFrom test (none ∷ devices) k =
    FoundFrom-cons test none devices k (find_slot test devices (k + 1)) (λ dev e. absurd (cc e))
      (find_slot-FoundFrom test devices (k + 1))
find_slot-FoundFrom test (some d ∷ devices) k = elim (Bool-cases (test d)) [
  | inl hit ↦ rw hit (0, omega arith, (d, refl, hit), λ j dev h at. absurd (omega arith))
  | inr miss ↦ rw miss (
      FoundFrom-cons test (some d) devices k (find_slot test devices (k + 1))
        (λ dev e. rw (some-injective e) miss) (find_slot-FoundFrom test devices (k + 1)))
]

-- What a search over the slots of the manager gives: the lowest slot from 1 on whose device
-- satisfies the predicate, or nothing when no device does.
abbrev pub Found : DeviceManager → (Device → Type 0) → Option ℕ → Type 0
Found m P none = (j : ℕ) (dev : Device) → 1 ≤ j → find_by_slot m j ≡ some dev → ¬ P dev
Found m P (some i) =
    (1 ≤ i)
    × (i ≤ m.max_slots)
    × ((dev : Device) × (find_by_slot m i ≡ some dev) × P dev)
    × ((j : ℕ) (dev : Device) → 1 ≤ j → j < i → find_by_slot m j ≡ some dev → ¬ P dev)

-- A slot of the manager in the list that is searched.
slot_read :
    (m : DeviceManager) (n : ℕ)
    → n < m.max_slots
    → get_or (slots_from_1 m) n none ≡ find_by_slot m (suc n)
unfolding find_by_slot
slot_read m n h =
    get_or-take (drop 1 m.devices) m.max_slots n none h
    ∙ get_or-drop1 m.devices n none
    ∙ sym (within (suc n) (omega arith))
  where
    within :
        (i : ℕ)
        → i ≤ m.max_slots
        → (if ltb m.max_slots i then none else get_or m.devices i none) ≡ get_or m.devices i none
    within i h = ground arith

find_by_slot-bound :
    (m : DeviceManager) (j : ℕ) (dev : Device) → find_by_slot m j ≡ some dev → j ≤ m.max_slots
unfolding find_by_slot
find_by_slot-bound m j dev e = ground arith

slot_bound :
    (m : DeviceManager) (n : ℕ) (dev : Device)
    → get_or (slots_from_1 m) n none ≡ some dev
    → n < m.max_slots
slot_bound m n dev e = elim (dec_lt n m.max_slots) [
  | yes h ↦ h
  | no h ↦ absurd (cc (e, get_or-take_past (drop 1 m.devices) m.max_slots n none (omega arith)))
]

module _ (m : DeviceManager) (P : Device → Type 0) (test : Device → Bool)
    (sound : (dev : Device) → test dev ≡ true → P dev)
    (complete : (dev : Device) → test dev ≡ false → ¬ P dev) where
  misses :
      (n j : ℕ) (dev : Device)
      → ((i : ℕ) (d : Device) → i < n → get_or (slots_from_1 m) i none ≡ some d → test d ≡ false)
      → 1 ≤ j
      → j < suc n
      → find_by_slot m j ≡ some dev
      → ¬ P dev
  misses n zero dev first lo hi e = absurd (omega arith)
  misses n (suc j) dev first lo hi e = complete dev (
      first j dev (omega arith)
        (slot_read m j (omega (arith, find_by_slot-bound m (suc j) dev e)) ∙ e))

  Found-of : (o : Option ℕ) → FoundFrom test (slots_from_1 m) 1 o → Found m P o
  Found-of none found = λ j dev lo e. misses j j dev (λ i d h. found i d) lo (omega arith) e
  Found-of (some i) (n, e, (dev, at, hit), first) =
      rw (let next : i ≡ suc n = omega arith in next) (
        omega arith,
        omega (arith, slot_bound m n dev at),
        (dev, sym (slot_read m n (slot_bound m n dev at)) ∙ at, sound dev hit),
        λ j d lo hi. misses n j d first lo (omega arith),
      )

-- `FindByPort` gives the lowest slot from 1 on whose device is behind the port, or nothing when no
-- device is, whatever route string is asked for.
pub find_by_port-Found :
    (m : DeviceManager) (port_num route_string : ℕ)
    → Found m (λ dev. port_of dev ≡ port_num) (find_by_port m port_num route_string)
unfolding find_by_port
find_by_port-Found m port_num route_string =
    Found-of m (λ dev. port_of dev ≡ port_num) (λ dev. port_of dev == port_num)
      (λ dev h. ground arith) (λ dev h. ground arith)
      (find_slot (λ dev. port_of dev == port_num) (slots_from_1 m) 1)
      (find_slot-FoundFrom (λ dev. port_of dev == port_num) (slots_from_1 m) 1)

state_number-injective : (s t : State) → (state_number s == state_number t) ≡ true → s ≡ t
state_number-injective s t h = ground arith

-- `FindByState` gives the lowest slot from 1 on whose device is in the state, or nothing when no
-- device is.
pub find_by_state-Found :
    (m : DeviceManager) (state : State) → Found m (λ dev. dev.state ≡ state) (find_by_state m state)
unfolding find_by_state
find_by_state-Found m state =
    Found-of m (λ dev. dev.state ≡ state) (λ dev. state_number dev.state == state_number state)
      (λ dev h. state_number-injective dev.state state h)
      (λ dev h e. ground (arith, ap state_number e))
      (find_slot (λ dev. state_number dev.state == state_number state) (slots_from_1 m) 1)
      (find_slot-FoundFrom (λ dev. state_number dev.state == state_number state) (slots_from_1 m) 1)
