-- ===== src/Xhci/Effects.antt =====
-- What each step of kernel/usb/xhci/xhci.cpp does to the phases of the ports and to the port that is
-- being addressed.
use mikanos_aarch.Prelude.{
  ℕ, ◌≡◌, ◌≢◌, ◌⊎◌, ◌↔◌, inl, inr, refl, sym, ◌∙◌, true, false, List, ◌∷◌, none, some, set, arith,
  Option-cases,
}
use mikanos_aarch.Error.{Error, success, invalid_phase}
use mikanos_aarch.Trb.{Trb}
use mikanos_aarch.Device.{Device, Layout}
use mikanos_aarch.DeviceManager.{find_by_slot, port_of}
use mikanos_aarch.Port.{is_connected}
use mikanos_aarch.Xhci.{
  Controller, ConfigPhase, PortReads, Ports, Outcome, not_connected, waiting_addressed,
  resetting_port, enabling_slot, addressing_device, initializing_device, configuring_endpoints,
  configured, is_phase, phase_of, set_phase, command, port_reset, start_reset, reset_port,
  enable_slot,
}
use mikanos_aarch.Xhci.Commands.{
  address_slot, address_device, initialize_device, complete_configuration, configure_endpoints,
}

pub is_phase_iff : (p q : ConfigPhase) → (is_phase p q ≡ true) ↔ (p ≡ q)
is_phase_iff p q = ground arith

-- The phases and the addressed port of `c'` are those given.
pub record Has (c' : Controller) (phases : List ConfigPhase) (port : ℕ) : Type 0 where
  pub phases_are : c'.port_config_phase ≡ phases
  pub port_is : c'.addressing_port ≡ port

abbrev pub Same : Controller → Controller → Type 0
Same c c' = Has c' c.port_config_phase c.addressing_port

command-Same : (c : Controller) (t : Trb) → Same c (command c t)
unfolding command
command-Same c t = record { phases_are = refl; port_is = refl }

pub outcome_of :
    {c c' : Controller} {e e' : Error} → ◌≡◌ {A = Outcome} (some (c, e)) (some (c', e')) → c' ≡ c
outcome_of h = cc h

pub enable_slot-Has :
    (c : Controller) (port : ℕ) (reads : PortReads)
    → Same c (enable_slot c port reads).0
      ⊎ Has
          (enable_slot c port reads).0
          (set c.port_config_phase port enabling_slot)
          c.addressing_port
unfolding enable_slot command
enable_slot-Has c port reads = ground arith

address_slot-Has :
    (l : Layout) (c : Controller) (port slot_id : ℕ) (reads : PortReads) (dev : Device)
    (c' : Controller) (e : Error)
    → address_slot l c port slot_id reads dev ≡ some (c', e)
    → Has c' (set c.port_config_phase port addressing_device) c.addressing_port
unfolding address_slot command
address_slot-Has l c port slot_id reads dev c' e h = ground arith

pub address_device-Has :
    (l : Layout) (c : Controller) (port slot_id : ℕ) (reads : PortReads) (c' : Controller)
    (e : Error)
    → address_device l c port slot_id reads ≡ some (c', e)
    → Same c c' ⊎ Has c' (set c.port_config_phase port addressing_device) c.addressing_port
unfolding address_device
address_device-Has l c port slot_id reads c' e h = grind (arith, address_slot-Has)

pub initialize_device-Has :
    (c : Controller) (port slot_id : ℕ) (dev : Device) (c' : Controller) (e : Error)
    → find_by_slot c.devmgr slot_id ≡ some dev
    → initialize_device c port slot_id ≡ some (c', e)
    → Has c' (set c.port_config_phase port initializing_device) c.addressing_port
unfolding initialize_device
initialize_device-Has c port slot_id dev c' e at h = ground arith

pub complete_configuration-Has :
    (c : Controller) (port slot_id : ℕ) (dev : Device) (c' : Controller) (e : Error)
    → find_by_slot c.devmgr slot_id ≡ some dev
    → complete_configuration c port slot_id ≡ some (c', e)
    → Has c' (set c.port_config_phase port configured) c.addressing_port
unfolding complete_configuration
complete_configuration-Has c port slot_id dev c' e at h = ground arith

pub configure_endpoints-Has :
    (l : Layout) (c : Controller) (slot_id : ℕ) (dev : Device) (ports : Ports) (c' : Controller)
    (e : Error)
    → configure_endpoints l c slot_id dev ports ≡ some (c', e)
    → Same c c'
      ⊎ Has c' (set c.port_config_phase (port_of dev) configuring_endpoints) c.addressing_port
unfolding configure_endpoints command
configure_endpoints-Has l c slot_id dev ports c' e h = ground arith

-- The ways that `ResetPort` returns.
pub data ResetOf (c : Controller) (port : ℕ) (reads : PortReads) : Controller → Error → Type 0 where
  unplugged : is_connected reads.connected ≡ false → ResetOf c port reads c success
  queued :
      is_connected reads.connected ≡ true
      → c.addressing_port ≢ 0
      → ResetOf c port reads (set_phase c port waiting_addressed) success
  refused :
      is_connected reads.connected ≡ true
      → c.addressing_port ≡ 0
      → phase_of c port ≢ not_connected
      → phase_of c port ≢ waiting_addressed
      → ResetOf c port reads c invalid_phase
  started :
      (w : ℕ)
      → is_connected reads.connected ≡ true
      → c.addressing_port ≡ 0
      → (phase_of c port ≡ not_connected) ⊎ (phase_of c port ≡ waiting_addressed)
      → ResetOf c port reads
          (record (set_phase c port resetting_port) {
            addressing_port = port;
            port_writes = (port, w) ∷ c.port_writes;
          })
          success

start_reset_cases :
    (c : Controller) (port : ℕ) (reads : PortReads)
    → (start_reset c port reads ≡ none)
      ⊎ ((w : ℕ) × (start_reset c port reads
            ≡ some (
              record (set_phase c port resetting_port) {
                addressing_port = port;
                port_writes = (port, w) ∷ c.port_writes;
              },
              success,
            )))
unfolding start_reset
start_reset_cases c port reads = elim (Option-cases (port_reset reads)) [
  | inl e ↦ inl (ground arith)
  | inr (w, e) ↦ inr (w, ground arith)
]

reset_port_cases :
    (c : Controller) (port : ℕ) (reads : PortReads)
    → ((is_connected reads.connected ≡ false) × (reset_port c port reads ≡ some (c, success)))
      ⊎ ((is_connected reads.connected ≡ true)
          × (c.addressing_port ≢ 0)
          × (reset_port c port reads ≡ some (set_phase c port waiting_addressed, success)))
      ⊎ ((is_connected reads.connected ≡ true)
          × (c.addressing_port ≡ 0)
          × (is_phase (phase_of c port) not_connected ≡ false)
          × (is_phase (phase_of c port) waiting_addressed ≡ false)
          × (reset_port c port reads ≡ some (c, invalid_phase)))
      ⊎ ((is_connected reads.connected ≡ true)
          × (c.addressing_port ≡ 0)
          × ((is_phase (phase_of c port) not_connected ≡ true)
              ⊎ (is_phase (phase_of c port) waiting_addressed ≡ true))
          × (reset_port c port reads ≡ start_reset c port reads))
unfolding reset_port
reset_port_cases c port reads = ground arith

pub reply_of :
    {c c' : Controller} {e e' : Error}
    → ◌≡◌ {A = Outcome} (some (c, e)) (some (c', e'))
    → (c' ≡ c) × (e' ≡ e)
reply_of h = (cc h, cc h)

pub not_phase : (p q : ConfigPhase) → is_phase p q ≡ false → p ≢ q
not_phase p q h e = cc (h, (is_phase_iff p q).1 e)

carry :
    {c x c' : Controller} {port : ℕ} {reads : PortReads} {e0 e : Error}
    → ResetOf c port reads x e0
    → ◌≡◌ {A = Outcome} (some (x, e0)) (some (c', e))
    → ResetOf c port reads c' e
carry r h = (let (p, q) = reply_of h in rw (p, q) r)

pub reset_port-ResetOf :
    (c : Controller) (port : ℕ) (reads : PortReads) (c' : Controller) (e : Error)
    → reset_port c port reads ≡ some (c', e)
    → ResetOf c port reads c' e
reset_port-ResetOf c port reads c' e h = elim (reset_port_cases c port reads) [
  | inl (out, x) ↦ carry (unplugged out) (sym x ∙ h)
  | inr (inl (plugged, busy, x)) ↦ carry (queued plugged busy) (sym x ∙ h)
  | inr (inr (inl (plugged, free, m, n, x))) ↦
      carry (refused plugged free (not_phase _ _ m) (not_phase _ _ n)) (sym x ∙ h)
  | inr (inr (inr (plugged, free, phase, x))) ↦ elim (start_reset_cases c port reads) [
    | inl y ↦ absurd (cc (x, y, h))
    | inr (w, y) ↦ carry (started w plugged free (named phase)) (sym y ∙ sym x ∙ h)
  ]
]
  where
    named :
        (is_phase (phase_of c port) not_connected ≡ true)
          ⊎ (is_phase (phase_of c port) waiting_addressed ≡ true)
        → (phase_of c port ≡ not_connected) ⊎ (phase_of c port ≡ waiting_addressed)
    named (inl x) = inl ((is_phase_iff (phase_of c port) not_connected).0 x)
    named (inr x) = inr ((is_phase_iff (phase_of c port) waiting_addressed).0 x)
