-- ===== src/Xhci/Protocol.antt =====
-- The handling of the root hub ports as the comment in kernel/usb/xhci/xhci.cpp wants it: from its
-- reset to its address, only the addressed port is worked on. The driver keeps this but for devices
-- that have their address already: these it configures while another port is addressed.
use mikanos_aarch.Prelude.{ℕ, ◌≤◌, ◌≡◌, ◌≢◌, sym, ap, subst, ◌∙◌, List, some, set, arith}
use mikanos_aarch.Error.{Error}
use mikanos_aarch.EventRing.{front}
use mikanos_aarch.Device.{Layout, ReadsOf}
use mikanos_aarch.Device.Initialize.{Defaults}
use mikanos_aarch.Xhci.{
  Controller, ConfigPhase, Ports, not_connected, waiting_addressed, resetting_port, enabling_slot,
  addressing_device, initializing_device, configuring_endpoints, configured, phase_number,
}
use mikanos_aarch.Xhci.Events.{process_event}
use mikanos_aarch.Xhci.Phases.{
  Change, at, IsPort, IsFirstWaiting, NoneWaiting, stay, wait, start, enable, address, finish,
  hand_over, strand, configure, complete,
}
use mikanos_aarch.Xhci.Follow.Events.{process_event-Follows, NamesPort}
use mikanos_aarch.Xhci.Exclusive.{IsExclusive}
use mikanos_aarch.Xhci.Reach.{Change-IsExclusive}

-- A step of the protocol, from the phases and the addressed port (0 is none) to those after.
pub data Protocol (phases : List ConfigPhase) (port : ℕ) : List ConfigPhase → ℕ → Type 0 where
  rests : Protocol phases port phases port
  -- A new port waits while another is addressed, and is reset where none is.
  queues :
      (p : ℕ)
      → IsPort p
      → at phases p ≡ not_connected
      → port ≢ 0
      → Protocol phases port (set phases p waiting_addressed) port
  begins :
      (p : ℕ)
      → IsPort p
      → at phases p ≡ not_connected
      → port ≡ 0
      → Protocol phases port (set phases p resetting_port) p
  -- Between its reset and its address, only the addressed port goes on.
  gets_slot :
      port ≢ 0
      → at phases port ≡ resetting_port
      → Protocol phases port (set phases port enabling_slot) port
  gets_address :
      port ≢ 0
      → at phases port ≡ enabling_slot
      → Protocol phases port (set phases port addressing_device) port
  -- The addressed port has its address: no port waits, the first that waits is reset, or it is
  -- skipped.
  ends_alone :
      port ≢ 0
      → at phases port ≡ addressing_device
      → NoneWaiting phases
      → Protocol phases port (set phases port initializing_device) 0
  passes_on :
      (i : ℕ)
      → port ≢ 0
      → at phases port ≡ addressing_device
      → IsFirstWaiting phases i
      → Protocol phases port (set (set phases i resetting_port) port initializing_device) i
  skips :
      (i : ℕ)
      → port ≢ 0
      → at phases port ≡ addressing_device
      → IsFirstWaiting phases i
      → Protocol phases port (set phases port initializing_device) 0
  -- A port that has its address is not the addressed one, if there is one, and is configured.
  configures :
      (p : ℕ)
      → p ≢ port
      → at phases p ≡ initializing_device
      → Protocol phases port (set phases p configuring_endpoints) port
  completes :
      (p : ℕ)
      → p ≢ port
      → at phases p ≡ configuring_endpoints
      → Protocol phases port (set phases p configured) port

module _ {phases : List ConfigPhase} {port : ℕ} (v : IsExclusive phases port) where
  addressed : (q : ConfigPhase) → at phases port ≡ q → phase_number q ≢ 0 → port ≢ 0
  addressed q e n z = n (ap phase_number (sym e ∙ ap (at phases) z ∙ v.zeroth))

  -- A port past its address is not the addressed one.
  past : (p : ℕ) (q : ConfigPhase) → at phases p ≡ q → 5 ≤ phase_number q → p ≢ port
  past p q e late same = absurd (omega (arith, (v.owned there).1, ap phase_number here))
    where
      here : at phases port ≡ q
      here = ap (at phases) (sym same) ∙ e

      there : port ≢ 0
      there = addressed q here (λ z. omega arith)

  Change-Protocol :
      {phases' : List ConfigPhase} {port' : ℕ}
      → Change phases port phases' port'
      → Protocol phases port phases' port'
  Change-Protocol stay = rests
  Change-Protocol (wait p is new busy) = queues p is new busy
  Change-Protocol (start p is new free) = begins p is new free
  Change-Protocol (enable p e) =
      subst (λ (k : ℕ). Protocol phases port (set phases k enabling_slot) port) (sym owner)
        (gets_slot (addressed resetting_port here (λ z. omega arith)) here)
    where
      owner : p ≡ port
      owner = v.owner p (rw e (omega arith, omega arith))

      here : at phases port ≡ resetting_port
      here = ap (at phases) (sym owner) ∙ e
  Change-Protocol (address e) = gets_address (addressed enabling_slot e (λ z. omega arith)) e
  Change-Protocol (finish e idle) =
      ends_alone (addressed addressing_device e (λ z. omega arith)) e idle
  Change-Protocol (hand_over i e first) =
      passes_on i (addressed addressing_device e (λ z. omega arith)) e first
  Change-Protocol (strand i e first) =
      skips i (addressed addressing_device e (λ z. omega arith)) e first
  Change-Protocol (configure p e) = configures p (past p initializing_device e (omega arith)) e
  Change-Protocol (complete p e) = completes p (past p configuring_endpoints e (omega arith)) e

-- Whatever event `ProcessEvent` handles, and whichever way it returns, from a state in which at most
-- the addressed port is between its reset and its address: the ports take one step of the protocol,
-- or none. Between its reset and its address only the addressed port moves on. A new port is reset
-- where no port is addressed, and waits where one is. The lowest port that waits is reset, or skipped,
-- when the addressed port gets its address. Apart from these, only a port that has its address
-- already moves on, while another may be addressed. And the state is one of these again. The number
-- of a port that a port status change event names must not be 0.
pub process_event-Protocol :
    (l : Layout) (o : Defaults) (memory : ReadsOf) (rounds : ℕ) (c : Controller) (ports : Ports)
    (c' : Controller) (e : Error)
    → IsExclusive c.port_config_phase c.addressing_port
    → NamesPort (front c.er)
    → process_event l o memory rounds c ports ≡ some (c', e)
    → Protocol c.port_config_phase c.addressing_port c'.port_config_phase c'.addressing_port
      × IsExclusive c'.port_config_phase c'.addressing_port
process_event-Protocol l o memory rounds c ports c' e v lo h =
    let step = process_event-Follows l o memory rounds c ports c' e lo h in
    (Change-Protocol v step, Change-IsExclusive v step)
