-- ===== src/Xhci/Reach.antt =====
-- Sequences of events of the host controller driver (kernel/usb/xhci/xhci.cpp): what holds of the
-- ports after any of them.
use mikanos_aarch.Prelude.{
  ℕ, ◌≤◌, ◌≡◌, ◌≢◌, inl, inr, refl, sym, ap, ◌∙◌, List, some, set, get_or-set_ne, replicate,
  get_or-replicate, arith, set_comm, length-replicate,
}
use mikanos_aarch.Error.{Error}
use mikanos_aarch.EventRing.{front}
use mikanos_aarch.Device.{Layout, ReadsOf}
use mikanos_aarch.Device.Initialize.{Defaults}
use mikanos_aarch.Xhci.{
  Controller, ConfigPhase, PortReads, Ports, not_connected, waiting_addressed, resetting_port,
  enabling_slot, addressing_device, initializing_device, configuring_endpoints, configured,
  configure_port, phase_number,
}
use mikanos_aarch.Xhci.Events.{process_event}
use mikanos_aarch.Xhci.Phases.{
  Change, at, IsPort, stay, wait, start, enable, address, finish, hand_over, strand, configure,
  complete,
}
use mikanos_aarch.Xhci.Follow.{Follows}
use mikanos_aarch.Xhci.Follow.PortEvents.{configure_port-Follows}
use mikanos_aarch.Xhci.Follow.Events.{process_event-Follows, NamesPort}
use mikanos_aarch.Xhci.Exclusive.{
  IsExclusive, at-set, inside, not-IsBusy, quiet-IsExclusive, busy-IsExclusive, left-IsExclusive,
  entered-IsExclusive,
}

pub nonzero :
    {phases : List ConfigPhase} {port : ℕ} (p : ℕ) (q : ConfigPhase)
    → IsExclusive phases port
    → at phases p ≡ q
    → phase_number q ≢ 0
    → p ≢ 0
nonzero {phases = phases} p q v e n z = n (ap phase_number (sym e ∙ ap (at phases) z ∙ v.zeroth))

pub Change-IsExclusive :
    {phases phases' : List ConfigPhase} {port port' : ℕ}
    → IsExclusive phases port
    → Change phases port phases' port'
    → IsExclusive phases' port'
Change-IsExclusive v stay = v
Change-IsExclusive v (wait p is new busy) =
    quiet-IsExclusive _ _ v p waiting_addressed (omega arith) (rw new (λ b. omega arith))
      (λ b. omega arith)
Change-IsExclusive v (start p is new free) =
    entered-IsExclusive _ _ v p resetting_port free is (omega arith, omega arith)
Change-IsExclusive v (enable p e) =
    busy-IsExclusive _ _ v p enabling_slot (rw e (omega arith, omega arith))
      (omega arith, omega arith)
Change-IsExclusive v (address e) =
    busy-IsExclusive _ _ v _ addressing_device (rw e (omega arith, omega arith))
      (omega arith, omega arith)
Change-IsExclusive v (finish e idle) =
    left-IsExclusive _ _ v initializing_device (rw e (omega arith, omega arith)) (λ b. omega arith)
Change-IsExclusive v (strand i e first) =
    left-IsExclusive _ _ v initializing_device (rw e (omega arith, omega arith)) (λ b. omega arith)
Change-IsExclusive {phases = phases} {port = port} v (hand_over i e first) =
    rw (set_comm phases i port resetting_port initializing_device apart) (
      entered-IsExclusive (set phases port initializing_device) 0
        (left-IsExclusive phases port v initializing_device (rw e (omega arith, omega arith))
          (λ b. omega arith))
        i resetting_port refl
        (
          omega (arith, nonzero i waiting_addressed v first.0 (λ z. omega arith)),
          omega (
            arith,
            v.size,
            inside phases i (λ n. absurd (omega (arith, ap phase_number (sym first.0 ∙ n)))),
          ),
        )
        (omega arith, omega arith))
  where
    apart : i ≢ port
    apart same = absurd (omega (arith, ap phase_number (sym first.0 ∙ ap (at phases) same ∙ e)))
Change-IsExclusive v (configure p e) =
    quiet-IsExclusive _ _ v p configuring_endpoints
      (nonzero p initializing_device v e (λ z. omega arith)) (rw e (λ b. omega arith))
      (λ b. omega arith)
Change-IsExclusive v (complete p e) =
    quiet-IsExclusive _ _ v p configured (nonzero p configuring_endpoints v e (λ z. omega arith))
      (rw e (λ b. omega arith)) (λ b. omega arith)

-- A phase is never written back to an earlier one.
abbrev Advances : List ConfigPhase → List ConfigPhase → Type 0
Advances phases phases' = (p : ℕ) → phase_number (at phases p) ≤ phase_number (at phases' p)

written-Advances :
    (phases : List ConfigPhase) (k : ℕ) (q : ConfigPhase)
    → phase_number (at phases k) ≤ phase_number q
    → Advances phases (set phases k q)
written-Advances phases k q h p = elim (at-set phases k q p) [
  | inl (e, _, x) ↦ rw (x, ← e) h
  | inr (inl (e, _, _, y)) ↦ rw (← e, y) (omega arith)
  | inr (inr (_, x)) ↦ rw x (omega arith)
]

Change-Advances :
    {phases phases' : List ConfigPhase} {port port' : ℕ}
    → Change phases port phases' port'
    → Advances phases phases'
Change-Advances stay p = omega arith
Change-Advances (wait k _ e _) p = written-Advances _ k waiting_addressed (rw e (omega arith)) p
Change-Advances (start k _ e _) p = written-Advances _ k resetting_port (rw e (omega arith)) p
Change-Advances (enable k e) p = written-Advances _ k enabling_slot (rw e (omega arith)) p
Change-Advances (address e) p = written-Advances _ _ addressing_device (rw e (omega arith)) p
Change-Advances (finish e _) p = written-Advances _ _ initializing_device (rw e (omega arith)) p
Change-Advances (strand _ e _) p = written-Advances _ _ initializing_device (rw e (omega arith)) p
Change-Advances {phases = phases} {port = port} (hand_over i e first) p = omega (
  arith,
  written-Advances phases i resetting_port (rw (first.0) (omega arith)) p,
  written-Advances (set phases i resetting_port) port initializing_device
      (rw (get_or-set_ne phases i port resetting_port not_connected apart, e) (omega arith)) p,
)
  where
    apart : i ≢ port
    apart same = absurd (omega (arith, ap phase_number (sym first.0 ∙ ap (at phases) same ∙ e)))
Change-Advances (configure k e) p =
    written-Advances _ k configuring_endpoints (rw e (omega arith)) p
Change-Advances (complete k e) p = written-Advances _ k configured (rw e (omega arith)) p

module _ (l : Layout) (o : Defaults) where
  -- What happens to the driver: an event is handled, with what the memory and the ports' registers
  -- read as then; `ConfigurePort` is called for a port; or anything else changes but the phases and
  -- the addressed port, as when the controller writes to the contexts or to the event ring.
  pub data Step : Controller → Controller → Type 0 where
    event :
        (memory : ReadsOf) (rounds : ℕ) (c : Controller) (ports : Ports) (c' : Controller)
        (e : Error)
        → NamesPort (front c.er)
        → process_event l o memory rounds c ports ≡ some (c', e)
        → Step c c'
    configure_call :
        (c : Controller) (port : ℕ) (reads : PortReads) (c' : Controller) (e : Error)
        → IsPort port
        → configure_port c port reads ≡ some (c', e)
        → Step c c'
    elsewhere :
        (c c' : Controller)
        → c'.port_config_phase ≡ c.port_config_phase
        → c'.addressing_port ≡ c.addressing_port
        → Step c c'

  pub data Reach (c : Controller) : Controller → Type 0 where
    begin : Reach c c
    next : {c' c'' : Controller} → Reach c c' → Step c' c'' → Reach c c''

  Step-Follows : {c c' : Controller} → Step c c' → Follows c c'
  Step-Follows (event memory rounds c ports c' e lo h) =
      process_event-Follows l o memory rounds c ports c' e lo h
  Step-Follows (configure_call c port reads c' e is h) =
      configure_port-Follows c port reads c' e is h
  Step-Follows (elsewhere c c' e1 e2) = rw (e1, e2) stay

  Reach-kept :
      (c : Controller) {c' : Controller}
      → Reach c c'
      → IsExclusive c.port_config_phase c.addressing_port
      → IsExclusive c'.port_config_phase c'.addressing_port
  Reach-kept c begin v = v
  Reach-kept c (next r s) v = Change-IsExclusive (Reach-kept c r v) (Step-Follows s)

  initial-IsExclusive : IsExclusive (replicate 256 not_connected) 0
  initial-IsExclusive = record {
    owner = λ p b.
        absurd (
          not-IsBusy (at (replicate 256 not_connected) p) (get_or-replicate 256 p not_connected) b);
    owned = λ nz. absurd (nz refl);
    zeroth = get_or-replicate 256 0 not_connected;
    size = length-replicate 256 not_connected;
  }

  -- After any sequence of handled events and calls of `ConfigurePort`, from the state in which the
  -- driver starts: a port that is between its reset and its address is the addressed port, so there
  -- is at most one; a port that is addressed is in one of these phases; and port 0 never leaves
  -- kNotConnected. The events' port numbers are those of ports.
  pub Reach-IsExclusive :
      (c c' : Controller)
      → c.port_config_phase ≡ replicate 256 not_connected
      → c.addressing_port ≡ 0
      → Reach c c'
      → IsExclusive c'.port_config_phase c'.addressing_port
  Reach-IsExclusive c c' e1 e2 r = Reach-kept c r (rw (e1, e2) initial-IsExclusive)

  -- The phase of a port never goes back in the order in which they are declared, whatever events are
  -- handled, where the events' port numbers are those of ports: a port that left kNotConnected does
  -- not return to it.
  pub Reach-Advances :
      (c : Controller) {c' : Controller} (p : ℕ)
      → Reach c c'
      → phase_number (at c.port_config_phase p) ≤ phase_number (at c'.port_config_phase p)
  Reach-Advances c p begin = omega arith
  Reach-Advances c p (next r s) =
      omega (arith, Reach-Advances c p r, Change-Advances (Step-Follows s) p)
