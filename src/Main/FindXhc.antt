-- ===== src/Main/FindXhc.antt =====
-- The xHC that `KernelMain` of kernel/main.cpp chooses.
use mikanos_aarch.Prelude.{
  ◌≡◌, ◌⊎◌, inl, inr, refl, subst, ◌∙◌, Bool, true, false, List, [], ◌∷◌, Option, none, some, arith,
}
use mikanos_aarch.Pci.{Window, Device}
use mikanos_aarch.Main.{is_xhc, is_intel, find_xhc}

-- A device of a list.
unfoldable pub Among : Device → List Device → Type 0
Among dev [] = ⊥
Among dev (d ∷ ds) = (dev ≡ d) ⊎ Among dev ds

-- The same, of an optional device before the list.
abbrev pub Found : Device → Option Device → List Device → Type 0
Found dev found devs = (found ≡ some dev) ⊎ Among dev devs

module _ (w : Window) where
  abbrev pub IsXhc : Device → Type 0
  IsXhc dev = is_xhc w dev ≡ true

  abbrev pub IsIntel : Device → Type 0
  IsIntel dev = is_intel w dev ≡ true

  find_xhc_cases :
      (d : Device) (ds : List Device) (found : Option Device)
      → ((is_xhc w d ≡ true) × (is_intel w d ≡ true) × (find_xhc w (d ∷ ds) found ≡ some d))
        ⊎ ((is_xhc w d ≡ true)
            × (is_intel w d ≡ false)
            × (find_xhc w (d ∷ ds) found ≡ find_xhc w ds (some d)))
        ⊎ ((is_xhc w d ≡ false) × (find_xhc w (d ∷ ds) found ≡ find_xhc w ds found))
  unfolding find_xhc
  find_xhc_cases d ds found = ground arith

  -- No device of the list is an xHC of Intel.
  abbrev pub NoneIntel : List Device → Type 0
  NoneIntel ds = (d : Device) → Among d ds → IsXhc d → ¬ IsIntel d

  abbrev pub NoneXhc : List Device → Type 0
  NoneXhc ds = (d : Device) → Among d ds → ¬ IsXhc d

  -- What the loop leaves, from what it had found before.
  abbrev Chosen : List Device → Option Device → Option Device → Type 0
  Chosen ds found result =
      ((d : Device) × Among d ds × IsXhc d × IsIntel d × (result ≡ some d))
      ⊎ (NoneIntel ds × ((d : Device) × Among d ds × IsXhc d × (result ≡ some d)))
      ⊎ (NoneXhc ds × (result ≡ found))

  not_both : {b : Bool} → b ≡ true → ¬ (b ≡ false)
  not_both t f = cc (t, f)

  none_in_both :
      (P : Device → Type 0) (d : Device) (ds : List Device)
      → (¬ P d)
      → ((e : Device) → Among e ds → ¬ P e)
      → (e : Device) → Among e (d ∷ ds)
      → ¬ P e
  unfolding Among
  none_in_both P d ds n ns e (inl same) p = n (subst P same p)
  none_in_both P d ds n ns e (inr later) p = ns e later p

  chosen : (ds : List Device) (found : Option Device) → Chosen ds found (find_xhc w ds found)
  unfolding find_xhc Among
  chosen [] found = inr (inr ((λ d e. absurd e), refl))
  chosen (d ∷ ds) found = elim (find_xhc_cases d ds found) [
    | inl (x, i, e) ↦ inl (d, inl refl, x, i, e)
    | inr (inl (x, ni, e)) ↦ elim (chosen ds (some d)) [
      | inl (d', a, x', i', f) ↦ inl (d', inr a, x', i', e ∙ f)
      | inr (inl (ns, (d', a, x', f))) ↦ inr (inl (not_intel ni ns, (d', inr a, x', e ∙ f)))
      | inr (inr (ns, f)) ↦
          inr (inl (not_intel ni (λ k a x' i'. ns k a x'), (d, inl refl, x, e ∙ f)))
    ]
    | inr (inr (nx, e)) ↦ elim (chosen ds found) [
      | inl (d', a, x', i', f) ↦ inl (d', inr a, x', i', e ∙ f)
      | inr (inl (ns, (d', a, x', f))) ↦ inr (inl (not_intel_xhc nx ns, (d', inr a, x', e ∙ f)))
      | inr (inr (ns, f)) ↦ inr (inr (none_in_both IsXhc d ds (λ x. not_both x nx) ns, e ∙ f))
    ]
  ]
    where
      pair : ((k : Device) → Among k (d ∷ ds) → ¬ (IsXhc k × IsIntel k)) → NoneIntel (d ∷ ds)
      pair h k a x i = h k a (x, i)

      not_intel : is_intel w d ≡ false → NoneIntel ds → NoneIntel (d ∷ ds)
      not_intel ni ns = pair (
          none_in_both (λ k. IsXhc k × IsIntel k) d ds (λ (_, i). not_both i ni)
            (λ k a (x, i). ns k a x i))

      not_intel_xhc : is_xhc w d ≡ false → NoneIntel ds → NoneIntel (d ∷ ds)
      not_intel_xhc nx ns = pair (
          none_in_both (λ k. IsXhc k × IsIntel k) d ds (λ (x, _). not_both x nx)
            (λ k a (x, i). ns k a x i))

  -- `KernelMain` finds one of the xHCs that the scan has listed, one of Intel if there is one, and
  -- none where there is none.
  pub find_xhc_lem :
      (devs : List Device)
      → ((d : Device) × Among d devs
          × IsXhc d
          × (find_xhc w devs none ≡ some d)
          × (IsIntel d ⊎ NoneIntel devs))
        ⊎ (NoneXhc devs × (find_xhc w devs none ≡ none))
  find_xhc_lem devs = elim (chosen devs none) [
    | inl (d, a, x, i, e) ↦ inl (d, a, x, e, inl i)
    | inr (inl (ns, (d, a, x, e))) ↦ inl (d, a, x, e, inr ns)
    | inr (inr (ns, e)) ↦ inr (ns, e)
  ]
