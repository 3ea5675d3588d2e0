-- ===== src/Xhci/Progress.antt =====
-- The handler of a completed Address Device command in kernel/usb/xhci/xhci.cpp, which hands over to
-- a port that waits.
use mikanos_aarch.Prelude.{
  ◌≡◌, ◌≢◌, inl, inr, refl, sym, ap, ◌∙◌, true, List, ◌∷◌, some, set, get_or-set_self,
  get_or-set_ne, arith, Option-cases, Bool-cases, ◌⊎◌, false, ℕ, none, ℕ_discrete,
}
use mikanos_aarch.Error.{Error, success, invalid_slot_id, invalid_phase}
use mikanos_aarch.Port.{is_connected, wait_reset, reset_word}
use mikanos_aarch.Device.{Device}
use mikanos_aarch.Device.Initialize.{start_initialize}
use mikanos_aarch.DeviceManager.{DeviceManager, find_by_slot, port_of}
use mikanos_aarch.Xhci.{
  Controller, ConfigPhase, Ports, not_connected, waiting_addressed, resetting_port,
  addressing_device, initializing_device, phase_of, set_phase, phase_number, is_phase,
}
use mikanos_aarch.Xhci.Effects.{is_phase_iff, not_phase}
use mikanos_aarch.Xhci.Commands.{with_device}
use mikanos_aarch.Xhci.Events.{first_waiting, reset_waiting, on_addressed}
use mikanos_aarch.Xhci.Phases.{
  at, IsFirstWaiting, first_waiting-some, first_waiting-none, NoneWaiting,
}
use mikanos_aarch.Xhci.Exclusive.{inside}
use mikanos_aarch.Xhci.Runs.{
  freed, handed, initialize_device_run, on_addressed_no_device, on_addressed_other_phase,
  on_addressed_other_port, on_addressed_run, reset_port_unplugged, reset_waiting_at,
  reset_waiting_idle, reset_waiting_run,
}

-- Whose turn it is: no port waits, the lowest port that waits is reset, or it was unplugged and goes
-- on waiting while no port is addressed.
abbrev pub Turn : Controller → Ports → Controller → Type 0
Turn c ports c' =
    (NoneWaiting c.port_config_phase × (c'.addressing_port ≡ 0) × (c'.port_writes ≡ c.port_writes))
    ⊎ (i : ℕ) × IsFirstWaiting c.port_config_phase i
      × (((is_connected (ports i).connected ≡ true)
            × (c'.addressing_port ≡ i)
            × (phase_of c' i ≡ resetting_port)
            × (c'.port_writes ≡ (i, reset_word (ports i).resetting) ∷ c.port_writes))
          ⊎ ((is_connected (ports i).connected ≡ false)
              × (c'.addressing_port ≡ 0)
              × (phase_of c' i ≡ waiting_addressed)
              × (c'.port_writes ≡ c.port_writes)))

-- The addressed port goes on to its initialization, a port has its turn, and the others stay.
abbrev pub HandedOver : Controller → Ports → Controller → Type 0
HandedOver c ports c' =
    (phase_of c' c.addressing_port ≡ initializing_device)
    × Turn c ports c'
    × ((q : ℕ) → q ≢ c.addressing_port → q ≢ c'.addressing_port → phase_of c' q ≡ phase_of c q)

-- What the handler returns, by the device of the slot, its port and the port's phase.
abbrev pub Addressed : Controller → ℕ → Ports → Type 0
Addressed c slot ports =
    ((find_by_slot c.devmgr slot ≡ none) × (on_addressed c slot ports ≡ some (c, invalid_slot_id)))
    ⊎ (dev : Device) × (find_by_slot c.devmgr slot ≡ some dev)
      × ((((port_of dev ≢ c.addressing_port) ⊎ (phase_of c c.addressing_port ≢ addressing_device))
            × (on_addressed c slot ports ≡ some (c, invalid_phase)))
          ⊎ ((port_of dev ≡ c.addressing_port)
              × (phase_of c c.addressing_port ≡ addressing_device)
              × (c' : Controller) × (on_addressed c slot ports ≡ some (c', success))
              × HandedOver c ports c'))

module _ (c : Controller) (ports : Ports) where
  -- The controller when the device goes on to its initialization.
  abbrev resumed : Controller → ℕ → Device → Controller
  resumed c1 slot dev = with_device (set_phase c1 c.addressing_port initializing_device) slot dev

  phase_present :
      (phases : List ConfigPhase) (p : ℕ) (q : ConfigPhase)
      → at phases p ≡ q
      → phase_number q ≢ 0
      → (w : ConfigPhase) → at (set phases p w) p ≡ w
  phase_present phases p q e n w =
      get_or-set_self phases p w not_connected
        (inside phases p (λ x. n (ap phase_number (sym e ∙ x))))

  module _ (phase : phase_of c c.addressing_port ≡ addressing_device) where
    waiting_apart : (i : ℕ) → phase_of c i ≡ waiting_addressed → i ≢ c.addressing_port
    waiting_apart i w x =
        absurd (omega (arith, ap phase_number (sym w ∙ ap (phase_of c) x ∙ phase)))

    HandedOver-freed :
        (slot : ℕ) (dev : Device)
        → Turn c ports (resumed (freed c) slot dev)
        → HandedOver c ports (resumed (freed c) slot dev)
    HandedOver-freed slot dev turn = (
      phase_present c.port_config_phase c.addressing_port addressing_device phase (λ z. omega arith)
          initializing_device,
      turn,
      λ q apart _.
          get_or-set_ne c.port_config_phase c.addressing_port q initializing_device not_connected
            (λ x. apart (sym x)),
    )

    Turn-unplugged :
        (slot : ℕ) (dev : Device) (i : ℕ)
        → IsFirstWaiting c.port_config_phase i
        → is_connected (ports i).connected ≡ false
        → Turn c ports (resumed (freed c) slot dev)
    Turn-unplugged slot dev i first out = inr (
      i,
      first,
      inr (
        out,
        refl,
        get_or-set_ne c.port_config_phase c.addressing_port i initializing_device not_connected
              (λ x. waiting_apart i first.0 (sym x))
            ∙ first.0,
        refl,
      ),
    )

    HandedOver-handed :
        (slot : ℕ) (dev : Device) (i : ℕ)
        → IsFirstWaiting c.port_config_phase i
        → is_connected (ports i).connected ≡ true
        → HandedOver c ports (resumed (handed c i (ports i)) slot dev)
    HandedOver-handed slot dev i first plugged = (
      phase_present (set phases i resetting_port) c.addressing_port addressing_device
          (get_or-set_ne phases i c.addressing_port resetting_port not_connected apart ∙ phase)
          (λ z. omega arith) initializing_device,
      inr (
        i,
        first,
        inl (
          plugged,
          refl,
          get_or-set_ne (set phases i resetting_port) c.addressing_port i initializing_device
                not_connected (λ x. apart (sym x))
              ∙ phase_present phases i waiting_addressed first.0 (λ z. omega arith) resetting_port,
          refl,
        ),
      ),
      λ q off other.
          get_or-set_ne (set phases i resetting_port) c.addressing_port q initializing_device
            not_connected (λ x. off (sym x))
          ∙ get_or-set_ne phases i q resetting_port not_connected (λ x. other (sym x)),
    )
      where
        phases : List ConfigPhase
        phases = c.port_config_phase

        apart : i ≢ c.addressing_port
        apart = waiting_apart i first.0

    -- Whoever has its turn, the device of the addressed port goes on.
    handed_over :
        (slot : ℕ) (dev : Device)
        → ((i : ℕ) → (w : ℕ) × (wait_reset (ports i).waiting ≡ some w))
        → (c1 : Controller) × (reset_waiting c ports ≡ some (c1, success))
          × (c1.devmgr ≡ c.devmgr)
          × HandedOver c ports (resumed c1 slot dev)
    handed_over slot dev ends = elim (Option-cases (first_waiting c.port_config_phase 0)) [
      | inl e ↦ (
        freed c,
        reset_waiting_idle c ports e,
        refl,
        HandedOver-freed slot dev (inl (first_waiting-none c.port_config_phase e, refl, refl)),
      )
      | inr (i, e) ↦
          let first = first_waiting-some c.port_config_phase i e in
          elim (Bool-cases (is_connected (ports i).connected)) [
            | inl plugged ↦ (
              handed c i (ports i),
              reset_waiting_run c ports i (ends i).0 e first.0 plugged (ends i).1,
              refl,
              HandedOver-handed slot dev i first plugged,
            )
            | inr out ↦ (
              freed c,
              reset_waiting_at c ports i e ∙ reset_port_unplugged (freed c) i (ports i) out,
              refl,
              HandedOver-freed slot dev (Turn-unplugged slot dev i first out),
            )
          ]
    ]

-- A completed Address Device command, where the waits for a port's reset end and the device of the
-- slot, if there is one, is able to start its initialization. A slot without a device is refused, and
-- so is a device behind a port other than the addressed one, or whose port is not addressing its
-- device: then nothing changes. Else the handler succeeds and the addressed port goes on to its
-- initialization. If no port waits then no port is addressed any more. Of the ports that wait the
-- lowest has its turn: it is the addressed one and is being reset if it is connected, and else it
-- goes on waiting and no port is addressed. All other ports keep their phases.
pub on_addressed_lem :
    (c : Controller) (slot : ℕ) (ports : Ports)
    → ((i : ℕ) → (w : ℕ) × (wait_reset (ports i).waiting ≡ some w))
    → ((dev : Device)
        → find_by_slot c.devmgr slot ≡ some dev
        → (dev' : Device) × (e : Error) × (start_initialize dev ≡ some (dev', e)))
    → Addressed c slot ports
on_addressed_lem c slot ports ends able = elim (Option-cases (find_by_slot c.devmgr slot)) [
  | inl e ↦ inl (e, on_addressed_no_device c slot ports e)
  | inr (dev, found) ↦ inr (dev, found, here dev found)
]
  where
    go_on :
        (dev : Device)
        → find_by_slot c.devmgr slot ≡ some dev
        → port_of dev ≡ c.addressing_port
        → phase_of c c.addressing_port ≡ addressing_device
        → (c' : Controller) × (on_addressed c slot ports ≡ some (c', success))
          × HandedOver c ports c'
    go_on dev found same phase =
        let (dev', e, started) = able dev found in
        let (c1, run, kept, over) = handed_over c ports phase slot dev' ends in
        (
          resumed c ports c1 slot dev',
          on_addressed_run c c1 slot ports dev found same phase run
              ∙ initialize_device_run c1 c.addressing_port slot dev dev' e
                  (ap (λ (m : DeviceManager). find_by_slot m slot) kept ∙ found) started,
          over,
        )

    here :
        (dev : Device)
        → find_by_slot c.devmgr slot ≡ some dev
        → (((port_of dev ≢ c.addressing_port) ⊎ (phase_of c c.addressing_port ≢ addressing_device))
            × (on_addressed c slot ports ≡ some (c, invalid_phase)))
          ⊎ ((port_of dev ≡ c.addressing_port)
              × (phase_of c c.addressing_port ≡ addressing_device)
              × (c' : Controller) × (on_addressed c slot ports ≡ some (c', success))
              × HandedOver c ports c')
    here dev found = elim (ℕ_discrete (port_of dev) c.addressing_port) [
      | no other ↦ inl (inl other, on_addressed_other_port c slot ports dev found other)
      | yes same ↦
          let phase = phase_of c c.addressing_port in
          elim (Bool-cases (is_phase phase addressing_device)) [
            | inl e ↦
                let at_address = (is_phase_iff phase addressing_device).0 e in
                let (c', run, over) = go_on dev found same at_address in
                inr (same, at_address, c', run, over)
            | inr e ↦ inl (
              inr (not_phase phase addressing_device e),
              on_addressed_other_phase c slot ports dev found same e,
            )
          ]
    ]
