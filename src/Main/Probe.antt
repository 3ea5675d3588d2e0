-- ===== src/Main/Probe.antt =====
-- The loop of `KernelMain` of kernel/main.cpp that configures the ports.
use mikanos_aarch.Prelude.{
  ℕ, zero, suc, ◌+◌, ◌≤◌, ◌<◌, ◌≡◌, ◌≢◌, ◌⊎◌, inl, inr, refl, sym, subst, ◌∙◌, Bool, true, false,
  ◌&&◌, List, [], ◌∷◌, Option, none, some, length, set, replicate, length-set, length-replicate,
  get_or-replicate, get_or-set_self, get_or-set_ne, ◌==◌, if◌then◌else◌, arith, Option-cases,
  ℕ_discrete, ==_refl, ==_ne,
}
use mikanos_aarch.Error.{Error, success, is_error}
use mikanos_aarch.Port.{is_connected, wait_reset}
use mikanos_aarch.Xhci.{
  ConfigPhase, not_connected, waiting_addressed, resetting_port, Controller, PortReads, Ports,
  configure_port, reset_port, start_reset, port_reset, phase_of, set_phase,
}
use mikanos_aarch.Xhci.Phases.{at}
use mikanos_aarch.Xhci.Effects.{
  ResetOf, unplugged, queued, refused, started, reset_port-ResetOf, reply_of,
}
use mikanos_aarch.Main.{probe_port, probe_ports}

-- What one port does to the phases, where it had not been seen.
abbrev Joined : Controller → ℕ → Bool → Controller → Type 0
Joined c port joins c' =
    ((joins ≡ false) × (c' ≡ c))
    ⊎ ((joins ≡ true) × (c.addressing_port ≢ 0) × (c' ≡ set_phase c port waiting_addressed))
    ⊎ ((joins ≡ true)
        × (c.addressing_port ≡ 0)
        × (c'.port_config_phase ≡ set c.port_config_phase port resetting_port)
        × (c'.addressing_port ≡ port))

probe_port_run :
    (c : Controller) (port plugged : ℕ) (reads : PortReads)
    → phase_of c port ≡ not_connected
    → ((is_connected plugged ≡ false) × (probe_port c port plugged reads ≡ some (c, success)))
      ⊎ ((is_connected plugged ≡ true)
          × (probe_port c port plugged reads ≡ reset_port c port reads))
unfolding probe_port configure_port
probe_port_run c port plugged reads e = ground (arith, e)

probe_port-Joined :
    (c : Controller) (port plugged : ℕ) (reads : PortReads) (c' : Controller) (e : Error)
    → phase_of c port ≡ not_connected
    → probe_port c port plugged reads ≡ some (c', e)
    → Joined c port (is_connected plugged && is_connected reads.connected) c'
probe_port-Joined c port plugged reads c' e z h = elim (probe_port_run c port plugged reads z) [
  | inl (out, x) ↦ inl (rw out refl, (reply_of (sym x ∙ h)).0)
  | inr (plugged_in, x) ↦ by_reset plugged_in z (reset_port-ResetOf c port reads c' e (sym x ∙ h))
]
  where
    by_reset :
        {c' : Controller} {e : Error}
        → is_connected plugged ≡ true
        → phase_of c port ≡ not_connected
        → ResetOf c port reads c' e
        → Joined c port (is_connected plugged && is_connected reads.connected) c'
    by_reset t z (unplugged out) = inl (rw (t, out) refl, refl)
    by_reset t z (queued yes_in busy) = inr (inl (rw (t, yes_in) refl, busy, refl))
    by_reset t z (refused _ _ ne _) = absurd (ne z)
    by_reset t z (started w yes_in free _) = inr (inr (rw (t, yes_in) refl, free, refl, refl))

probe_port-some :
    (c : Controller) (port plugged : ℕ) (reads : PortReads) (w : ℕ)
    → wait_reset reads.waiting ≡ some w
    → ¬ (probe_port c port plugged reads ≡ none)
unfolding probe_port configure_port reset_port start_reset port_reset
probe_port-some c port plugged reads w t z = ground (arith, t, z)

probe_port-ends :
    (c : Controller) (port plugged : ℕ) (reads : PortReads)
    → (w : ℕ) × (wait_reset reads.waiting ≡ some w)
    → (c' : Controller) × (e : Error) × (probe_port c port plugged reads ≡ some (c', e))
probe_port-ends c port plugged reads (w, t) =
    elim (Option-cases (probe_port c port plugged reads)) [
      | inl z ↦ absurd (stuck t z)
      | inr ((c', e), h) ↦ (c', e, h)
    ]
  where
    stuck : wait_reset reads.waiting ≡ some w → probe_port c port plugged reads ≡ none → ⊥
    stuck t z = probe_port-some c port plugged reads w t z

left_of :
    {c c' : Controller} {x y : List Error}
    → ◌≡◌ {A = Option (Controller × List Error)} (some (c, x)) (some (c', y))
    → (c' ≡ c) × (y ≡ x)
left_of h = (cc h, cc h)

-- A round of the loop that ends, and the rounds after it.
probe_ports_step :
    (c : Controller) (n k : ℕ) (plugged : ℕ → ℕ) (reads : Ports) (c' : Controller)
    (errors : List Error)
    → probe_ports c (suc n) k plugged reads ≡ some (c', errors)
    → (c1 : Controller) × (e : Error) × (rest : List Error) × (probe_port c k (plugged k) (reads k)
        ≡ some (c1, e))
      × (probe_ports c1 n (k + 1) plugged reads ≡ some (c', rest))
unfolding probe_ports
probe_ports_step c n k plugged reads c' errors h =
    elim (Option-cases (probe_port c k (plugged k) (reads k))) [
      | inl z ↦ absurd (ground (arith, z, h))
      | inr ((c1, e), s) ↦ elim (Option-cases (probe_ports c1 n (k + 1) plugged reads)) [
        | inl z ↦ absurd (ground (arith, s, z, h))
        | inr ((c2, rest), t) ↦ (c1, e, rest, s, rw ((left_of (sym (run s t) ∙ h)).0) t)
      ]
    ]
  where
    run :
        {c1 c2 : Controller} {e : Error} {rest : List Error}
        → probe_port c k (plugged k) (reads k) ≡ some (c1, e)
        → probe_ports c1 n (k + 1) plugged reads ≡ some (c2, rest)
        → ◌≡◌ {A = Option (Controller × List Error)}
            (probe_ports c (suc n) k plugged reads)
            (some (c2, if is_error e then e ∷ rest else rest))
    run s t = rw (s, probe_ports) (rw (t, probe_ports) refl)

-- The phase of a port after the loop.
abbrev pub phase_after : ℕ → Bool → ℕ → ConfigPhase
phase_after addressed here p =
    if here then (if addressed == p then resetting_port else waiting_addressed) else not_connected

phase_waits : (a p : ℕ) → a ≢ p → phase_after a true p ≡ waiting_addressed
phase_waits a p ne = rw (==_ne a p ne) refl

phase_starts : (p : ℕ) → phase_after p true p ≡ resetting_port
phase_starts p = rw (==_refl p) refl

module _ (plugged : ℕ → ℕ) (reads : Ports) where
  -- A device answers at the port, at both reads of its PORTSC.
  abbrev pub answers : ℕ → Bool
  answers p = is_connected (plugged p) && is_connected (reads p).connected

  abbrev pub NoneBefore : ℕ → Type 0
  NoneBefore k = (p : ℕ) → 1 ≤ p → p < k → answers p ≡ false

  -- The phases after the ports below `k`: the first at which a device answers is being reset and is
  -- the addressed port, the others at which one answers wait, and the rest are not connected.
  pub record Probed (phases : List ConfigPhase) (addressed k : ℕ) : Type 0 where
    pub size : length phases ≡ 256
    pub ahead : (p : ℕ) → k ≤ p → at phases p ≡ not_connected
    pub done : (p : ℕ) → 1 ≤ p → p < k → at phases p ≡ phase_after addressed (answers p) p
    pub first :
        ((addressed ≡ 0) × NoneBefore k)
        ⊎ ((1 ≤ addressed) × (addressed < k) × (answers addressed ≡ true) × NoneBefore addressed)

  -- A port at which no device answers.
  Probed-out :
      (phases : List ConfigPhase) (a k : ℕ)
      → Probed phases a k
      → answers k ≡ false
      → Probed phases a (k + 1)
  Probed-out phases a k v out = record {
    size = v.size;
    ahead = λ p h. v.ahead p (omega arith);
    done = λ p lo hi. elim (ℕ_discrete p k) [
      | yes e ↦ rw (e, out) (v.ahead k (omega arith))
      | no ne ↦ v.done p lo (omega arith)
    ];
    first = elim v.first [
      | inl (z, none_) ↦ inl (z, none_before none_)
      | inr (lo, hi, t, none_) ↦ inr (lo, omega arith, t, none_)
    ];
  }
    where
      none_before : NoneBefore k → NoneBefore (k + 1)
      none_before h p lo hi = elim (ℕ_discrete p k) [
        | yes e ↦ rw e out
        | no ne ↦ h p lo (omega arith)
      ]

  -- The phases after a write, for the other ports.
  ahead-set :
      (phases : List ConfigPhase) (a k : ℕ) (q : ConfigPhase)
      → Probed phases a k
      → (p : ℕ) → k + 1 ≤ p
      → at (set phases k q) p ≡ not_connected
  ahead-set phases a k q v p h =
      get_or-set_ne phases k p q not_connected (λ e. absurd (omega arith)) ∙ v.ahead p (omega arith)

  Probed-waits :
      (phases : List ConfigPhase) (a k : ℕ)
      → k < 256
      → Probed phases a k
      → answers k ≡ true
      → a ≢ 0
      → Probed (set phases k waiting_addressed) a (k + 1)
  Probed-waits phases a k lt v t busy = record {
    size = length-set phases k waiting_addressed ∙ v.size;
    ahead = ahead-set phases a k waiting_addressed v;
    done = λ p lo hi. elim (ℕ_discrete k p) [
      | yes e ↦ subst Done e (here lo hi e)
      | no ne ↦
          get_or-set_ne phases k p waiting_addressed not_connected ne ∙ v.done p lo (omega arith)
    ];
    first = elim v.first [
      | inl (z, _) ↦ absurd (busy z)
      | inr (lo, hi, h, none_) ↦ inr (lo, omega arith, h, none_)
    ];
  }
    where
      Done : ℕ → Type 0
      Done p = at (set phases k waiting_addressed) p ≡ phase_after a (answers p) p

      apart : a ≢ k
      apart e = other e (v.first)
        where
          other :
              a ≡ k
              → ((a ≡ 0) × NoneBefore k) ⊎ ((1 ≤ a) × (a < k) × (answers a ≡ true) × NoneBefore a)
              → ⊥
          other e (inl (z, _)) = busy z
          other e (inr (_, hi, _, _)) = omega arith

      here : {p : ℕ} → 1 ≤ p → p < k + 1 → k ≡ p → Done k
      here lo hi e =
          get_or-set_self phases k waiting_addressed not_connected (omega (arith, v.size))
          ∙ sym (rw t (phase_waits a k apart))

  Probed-starts :
      (phases : List ConfigPhase) (k : ℕ)
      → 1 ≤ k
      → k < 256
      → Probed phases 0 k
      → answers k ≡ true
      → Probed (set phases k resetting_port) k (k + 1)
  Probed-starts phases k lo lt v t = record {
    size = length-set phases k resetting_port ∙ v.size;
    ahead = ahead-set phases 0 k resetting_port v;
    done = λ p lo hi. elim (ℕ_discrete k p) [
      | yes e ↦ subst Done e (
          get_or-set_self phases k resetting_port not_connected (omega (arith, v.size))
          ∙ sym (rw t (phase_starts k)))
      | no ne ↦
          get_or-set_ne phases k p resetting_port not_connected ne
          ∙ v.done p lo (omega arith)
          ∙ rw (quiet p lo (omega arith)) refl
    ];
    first = inr (lo, omega arith, t, quiet);
  }
    where
      Done : ℕ → Type 0
      Done p = at (set phases k resetting_port) p ≡ phase_after k (answers p) p

      quiet : NoneBefore k
      quiet = elim v.first [ inl (_, none_) ↦ none_ | inr (lo, _, _, _) ↦ absurd (omega arith) ]

  Probed-next :
      (c c' : Controller) (e : Error) (k : ℕ)
      → 1 ≤ k
      → k < 256
      → Probed c.port_config_phase c.addressing_port k
      → probe_port c k (plugged k) (reads k) ≡ some (c', e)
      → Probed c'.port_config_phase c'.addressing_port (k + 1)
  Probed-next c c' e k lo lt v h =
      elim (probe_port-Joined c k (plugged k) (reads k) c' e (v.ahead k (omega arith)) h) [
        | inl (out, same) ↦ rw same (Probed-out c.port_config_phase c.addressing_port k v out)
        | inr (inl (t, busy, same)) ↦
            rw same (Probed-waits c.port_config_phase c.addressing_port k lt v t busy)
        | inr (inr (t, free, e1, e2)) ↦
            rw (e1, e2)
              (Probed-starts c.port_config_phase k lo lt
                (subst (λ a. Probed c.port_config_phase a k) free v) t)
      ]

  probe_ports-Probed :
      (n k : ℕ) (c c' : Controller) (errors : List Error)
      → 1 ≤ k
      → k + n ≤ 256
      → Probed c.port_config_phase c.addressing_port k
      → probe_ports c n k plugged reads ≡ some (c', errors)
      → Probed c'.port_config_phase c'.addressing_port (k + n)
  unfolding probe_ports
  probe_ports-Probed zero k c c' errors lo hi v h = rw (same, (left_of h).0) v
    where
      same : k + 0 ≡ k
      same = omega arith
  probe_ports-Probed (suc n) k c c' errors lo hi v h =
      let (c1, e, rest, first, later) = probe_ports_step c n k plugged reads c' errors h in
      subst (Probed c'.port_config_phase c'.addressing_port) place (
        probe_ports-Probed n (k + 1) c1 c' rest (omega arith) (omega arith)
          (Probed-next c c1 e k lo (omega arith) v first) later)
    where
      place : k + 1 + n ≡ k + suc n
      place = omega arith

  initial-Probed : Probed (replicate 256 not_connected) 0 1
  initial-Probed = record {
    size = length-replicate 256 not_connected;
    ahead = λ p h. get_or-replicate 256 p not_connected;
    done = λ p lo hi. absurd (omega arith);
    first = inl (refl, λ p lo hi. absurd (omega arith));
  }

  -- Where each port's reset ends, the loop ends.
  probe_ports-ends :
      (n k : ℕ) (c : Controller)
      → ((p : ℕ) → (w : ℕ) × (wait_reset (reads p).waiting ≡ some w))
      → (c' : Controller) × (errors : List Error) × (probe_ports c n k plugged reads
          ≡ some (c', errors))
  unfolding probe_ports
  probe_ports-ends zero k c ends = (c, [], refl)
  probe_ports-ends (suc n) k c ends =
      let (c1, e, s) = probe_port-ends c k (plugged k) (reads k) (ends k) in
      let (c2, rest, t) = probe_ports-ends n (k + 1) c1 ends in
      (c2, if is_error e then e ∷ rest else rest, rw (s, probe_ports) (rw (t, probe_ports) refl))

  -- `KernelMain` goes through the ports from 1 to `n`, a byte, of a controller just started, where each
  -- wait for a reset ends: it comes to an end, the first port at which a device answered is then being
  -- reset and is the addressed port, every other at which one answered waits, the rest are not
  -- connected, and where no device answered no port is addressed.
  pub probe_ports_lem :
      (c : Controller) (n : ℕ)
      → n < 256
      → c.port_config_phase ≡ replicate 256 not_connected
      → c.addressing_port ≡ 0
      → ((p : ℕ) → (w : ℕ) × (wait_reset (reads p).waiting ≡ some w))
      → (c' : Controller) × (errors : List Error) × (probe_ports c n 1 plugged reads
          ≡ some (c', errors))
        × Probed c'.port_config_phase c'.addressing_port (1 + n)
  probe_ports_lem c n lt e1 e2 ends =
      let (c', errors, h) = probe_ports-ends n 1 c ends in
      (
        c',
        errors,
        h,
        probe_ports-Probed n 1 c c' errors (omega arith) (omega arith) (rw (e1, e2) initial-Probed)
            h,
      )
