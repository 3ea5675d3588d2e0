-- ===== src/Xhci/Phases.antt =====
-- The phases of the root hub ports of kernel/usb/xhci/xhci.cpp, and the changes that its handlers make
-- to them from any state.
use mikanos_aarch.Prelude.{
  ℕ, zero, suc, ◌+◌, ◌≤◌, ◌<◌, ◌≡◌, ◌≢◌, ◌⊎◌, inl, inr, refl, subst, List, [], ◌∷◌, Option, none,
  some, get_or, set, arith, Bool-cases,
}
use mikanos_aarch.Xhci.{
  ConfigPhase, not_connected, waiting_addressed, resetting_port, enabling_slot, addressing_device,
  initializing_device, configuring_endpoints, configured, is_phase,
}
use mikanos_aarch.Xhci.Effects.{is_phase_iff, not_phase}
use mikanos_aarch.Xhci.Events.{first_waiting}

abbrev pub at : List ConfigPhase → ℕ → ConfigPhase
at phases port = get_or phases port not_connected

-- A port's number is a byte, and 0 is none.
abbrev pub IsPort : ℕ → Type 0
IsPort p = (1 ≤ p) × (p < 256)

-- The lowest port that waits.
abbrev pub IsFirstWaiting : List ConfigPhase → ℕ → Type 0
IsFirstWaiting phases i =
    (at phases i ≡ waiting_addressed) × ((j : ℕ) → j < i → at phases j ≢ waiting_addressed)

abbrev pub NoneWaiting : List ConfigPhase → Type 0
NoneWaiting phases = (j : ℕ) → at phases j ≢ waiting_addressed

-- One change, from the phases and the port being addressed (0 is none) to those after. A slot is
-- enabled for any port that is being reset; `Protocol` says which port that is.
pub data Change (phases : List ConfigPhase) (port : ℕ) : List ConfigPhase → ℕ → Type 0 where
  -- Nothing changes.
  stay : Change phases port phases port
  -- A new port waits while another is addressed, or starts where none is.
  wait :
      (p : ℕ)
      → IsPort p
      → at phases p ≡ not_connected
      → port ≢ 0
      → Change phases port (set phases p waiting_addressed) port
  start :
      (p : ℕ)
      → IsPort p
      → at phases p ≡ not_connected
      → port ≡ 0
      → Change phases port (set phases p resetting_port) p
  enable :
      (p : ℕ) → at phases p ≡ resetting_port → Change phases port (set phases p enabling_slot) port
  address :
      at phases port ≡ enabling_slot → Change phases port (set phases port addressing_device) port
  -- The port has its address: with none waiting, with the first that waits being started, and with
  -- that one found to be unplugged.
  finish :
      at phases port ≡ addressing_device
      → NoneWaiting phases
      → Change phases port (set phases port initializing_device) 0
  hand_over :
      (i : ℕ)
      → at phases port ≡ addressing_device
      → IsFirstWaiting phases i
      → Change phases port (set (set phases i resetting_port) port initializing_device) i
  strand :
      (i : ℕ)
      → at phases port ≡ addressing_device
      → IsFirstWaiting phases i
      → Change phases port (set phases port initializing_device) 0
  configure :
      (p : ℕ)
      → at phases p ≡ initializing_device
      → Change phases port (set phases p configuring_endpoints) port
  complete :
      (p : ℕ)
      → at phases p ≡ configuring_endpoints
      → Change phases port (set phases p configured) port

-- What the search for a port that waits finds, where the head of the list is port `k`.
abbrev pub FirstFrom : List ConfigPhase → ℕ → Option ℕ → Type 0
FirstFrom phases k none = NoneWaiting phases
FirstFrom phases k (some i) = (n : ℕ) × (i ≡ k + n) × IsFirstWaiting phases n

first_waiting_cases :
    (phase : ConfigPhase) (phases : List ConfigPhase) (k : ℕ)
    → ((phase ≡ waiting_addressed) × (first_waiting (phase ∷ phases) k ≡ some k))
      ⊎ ((phase ≢ waiting_addressed)
          × (first_waiting (phase ∷ phases) k ≡ first_waiting phases (k + 1)))
unfolding first_waiting
first_waiting_cases phase phases k = elim (Bool-cases (is_phase phase waiting_addressed)) [
  | inl h ↦ inl ((is_phase_iff phase waiting_addressed).0 h, rw h refl)
  | inr h ↦ inr (not_phase phase waiting_addressed h, rw h refl)
]

FirstFrom-cons :
    (phase : ConfigPhase) (phases : List ConfigPhase) (k : ℕ) (o : Option ℕ)
    → phase ≢ waiting_addressed
    → FirstFrom phases (k + 1) o
    → FirstFrom (phase ∷ phases) k o
FirstFrom-cons phase phases k none ne found = here
  where
    here : NoneWaiting (phase ∷ phases)
    here zero = ne
    here (suc j) = found j
FirstFrom-cons phase phases k (some i) ne (n, e, (w, first)) = (suc n, omega arith, (w, here))
  where
    here : (j : ℕ) → j < suc n → at (phase ∷ phases) j ≢ waiting_addressed
    here zero h = ne
    here (suc j) h = first j (omega arith)

first_waiting-FirstFrom :
    (phases : List ConfigPhase) (k : ℕ) → FirstFrom phases k (first_waiting phases k)
unfolding first_waiting
first_waiting-FirstFrom [] k = λ j e. absurd (ground (arith, e))
first_waiting-FirstFrom (phase ∷ phases) k = elim (first_waiting_cases phase phases k) [
  | inl (w, e) ↦ rw e (0, omega arith, (w, λ j h. absurd (omega arith)))
  | inr (ne, e) ↦ rw e (
      FirstFrom-cons phase phases k (first_waiting phases (k + 1)) ne
        (first_waiting-FirstFrom phases (k + 1)))
]

pub first_waiting-some :
    (phases : List ConfigPhase) (i : ℕ) → first_waiting phases 0 ≡ some i → IsFirstWaiting phases i
first_waiting-some phases i e =
    told (subst (FirstFrom phases 0) e (first_waiting-FirstFrom phases 0))
  where
    told : FirstFrom phases 0 (some i) → IsFirstWaiting phases i
    told (n, same, first) = (let same' : i ≡ n = omega arith in rw same' first)

pub first_waiting-none :
    (phases : List ConfigPhase) → first_waiting phases 0 ≡ none → NoneWaiting phases
first_waiting-none phases e = subst (FirstFrom phases 0) e (first_waiting-FirstFrom phases 0)
