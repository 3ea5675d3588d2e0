-- ===== src/Xhci/Follow/HandOver.antt =====
-- The loop of kernel/usb/xhci/xhci.cpp that starts the next port once a device has its address.
use mikanos_aarch.Prelude.{
  ℕ, ◌≡◌, ◌⊎◌, inl, inr, refl, sym, ◌∙◌, false, none, some, set, arith, Option-cases,
}
use mikanos_aarch.Error.{Error, success, is_error}
use mikanos_aarch.Xhci.{Controller, PortReads, Ports, resetting_port, reset_port}
use mikanos_aarch.Xhci.Events.{first_waiting, reset_waiting}
use mikanos_aarch.Xhci.Effects.{
  Has, ResetOf, unplugged, queued, refused, started, reply_of, reset_port-ResetOf,
}
use mikanos_aarch.Xhci.Phases.{IsFirstWaiting, NoneWaiting, first_waiting-some, first_waiting-none}

-- The hand-over, with no port addressed and the phase of the old one still to be written.
reset_waiting_cases :
    (c : Controller) (ports : Ports)
    → ((first_waiting c.port_config_phase 0 ≡ none)
        × (reset_waiting c ports ≡ some (record c { addressing_port = 0 }, success)))
      ⊎ ((i : ℕ) × (first_waiting c.port_config_phase 0 ≡ some i)
          × (reset_waiting c ports ≡ reset_port (record c { addressing_port = 0 }) i (ports i)))
unfolding reset_waiting
reset_waiting_cases c ports = elim (Option-cases (first_waiting c.port_config_phase 0)) [
  | inl x ↦ inl (x, ground arith)
  | inr (i, x) ↦ inr (i, x, ground arith)
]

-- What the hand-over leaves: phases and port, the devices as they were, and no error.
pub data HandedOver (c : Controller) : Controller → Error → Type 0 where
  nobody :
      (c' : Controller)
      → NoneWaiting c.port_config_phase
      → Has c' c.port_config_phase 0
      → c'.devmgr ≡ c.devmgr
      → HandedOver c c' success
  next_started :
      (i : ℕ) (c' : Controller)
      → IsFirstWaiting c.port_config_phase i
      → Has c' (set c.port_config_phase i resetting_port) i
      → c'.devmgr ≡ c.devmgr
      → HandedOver c c' success
  next_unplugged :
      (i : ℕ) (c' : Controller)
      → IsFirstWaiting c.port_config_phase i
      → Has c' c.port_config_phase 0
      → c'.devmgr ≡ c.devmgr
      → HandedOver c c' success

handed_over :
    (c : Controller) (i : ℕ) (reads : PortReads) (c' : Controller) (e : Error)
    → IsFirstWaiting c.port_config_phase i
    → ResetOf (record c { addressing_port = 0 }) i reads c' e
    → HandedOver c c' e
handed_over c i reads c' e first (unplugged _) =
    next_unplugged i _ first (record { phases_are = refl; port_is = refl }) refl
handed_over c i reads c' e first (queued _ busy) = absurd (busy refl)
handed_over c i reads c' e first (refused _ _ _ not_waiting) = absurd (not_waiting first.0)
handed_over c i reads c' e first (started w _ _ _) =
    next_started i _ first (record { phases_are = refl; port_is = refl }) refl

pub reset_waiting-HandedOver :
    (c : Controller) (ports : Ports) (c' : Controller) (e : Error)
    → reset_waiting c ports ≡ some (c', e)
    → HandedOver c c' e
reset_waiting-HandedOver c ports c' e h = elim (reset_waiting_cases c ports) [
  | inl (x, y) ↦
      let (same, same_e) = reply_of (sym y ∙ h) in
      rw (same, same_e)
        (nobody _ (first_waiting-none c.port_config_phase x)
          (record { phases_are = refl; port_is = refl }) refl)
  | inr (i, x, y) ↦
      handed_over c i (ports i) c' e (first_waiting-some c.port_config_phase i x)
        (reset_port-ResetOf (record c { addressing_port = 0 }) i (ports i) c' e (sym y ∙ h))
]

pub HandedOver-no_error : {c c' : Controller} {e : Error} → HandedOver c c' e → is_error e ≡ false
HandedOver-no_error (nobody _ _ _ _) = refl
HandedOver-no_error (next_started _ _ _ _ _) = refl
HandedOver-no_error (next_unplugged _ _ _ _ _) = refl

pub HandedOver-devmgr : {c c' : Controller} {e : Error} → HandedOver c c' e → c'.devmgr ≡ c.devmgr
HandedOver-devmgr (nobody _ _ _ d) = d
HandedOver-devmgr (next_started _ _ _ _ d) = d
HandedOver-devmgr (next_unplugged _ _ _ _ d) = d
