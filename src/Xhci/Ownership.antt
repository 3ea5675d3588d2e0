-- ===== src/Xhci/Ownership.antt =====
-- The list of extended registers of kernel/usb/xhci/registers.cpp, and RequestHCOwnership of
-- kernel/usb/xhci/xhci.cpp, which takes the controller over from the firmware.
use mikanos_aarch.Prelude.{
  ℕ, zero, suc, ◌+◌, ◌*◌, ◌%◌, ◌^◌, ◌≤◌, ◌<◌, ◌≡◌, ◌≢◌, ◌⊎◌, inl, inr, ◌∙◌, ◌&&◌, List, [], ◌∷◌,
  Option, none, some, ◌==◌, if◌then◌else◌, arith,
}
use mikanos_aarch.Registers.HccParams1
use mikanos_aarch.Registers.ExtendedRegister
use mikanos_aarch.Registers.UsbLegSup

-- `AddOrNull` on a pointer to registers of four bytes.
unfoldable pub add_or_null : ℕ → ℕ → ℕ
add_or_null p d = if d == 0 then 0 else (p + 4 * d) % 2 ^ 64

-- The first register of the list, by the address of the registers and HCCPARAMS1.
unfoldable pub first_register : ℕ → ℕ → ℕ
unfolding add_or_null
first_register mmio_base hccp =
    add_or_null mmio_base (HccParams1.xhci_extended_capabilities_pointer hccp)

module _ (read : ℕ → ℕ) where
  -- `Iterator::operator++`; `read` is the word of the register at an address.
  unfoldable pub next_register : ℕ → ℕ
  unfolding add_or_null
  next_register reg =
      if reg == 0 then 0 else add_or_null reg (ExtendedRegister.next_pointer (read reg))

  -- `std::find_if` over the list, for a capability: the register, or none at the end of the list. The
  -- outer none is that the rounds are used up.
  unfoldable pub find_capability : ℕ → ℕ → ℕ → Option (Option ℕ)
  unfolding next_register
  find_capability id zero reg = none
  find_capability id (suc fuel) reg =
      let rest = find_capability id fuel (next_register reg) in
      if reg == 0
      then some none
      else if ExtendedRegister.capability_id (read reg) == id
      then some (some reg)
      else rest

  -- From one register of the list to another, none of those before it the capability.
  pub data Passed (id : ℕ) : ℕ → ℕ → Type 0 where
    stop : {r : ℕ} → Passed id r r
    skip :
        {reg r : ℕ}
        → reg ≢ 0
        → ExtendedRegister.capability_id (read reg) ≢ id
        → Passed id (next_register reg) r
        → Passed id reg r

  find_cases :
      (id fuel reg : ℕ)
      → ((reg ≡ 0) × (find_capability id (suc fuel) reg ≡ some none))
        ⊎ ((reg ≢ 0)
            × (ExtendedRegister.capability_id (read reg) ≡ id)
            × (find_capability id (suc fuel) reg ≡ some (some reg)))
        ⊎ ((reg ≢ 0)
            × (ExtendedRegister.capability_id (read reg) ≢ id)
            × (find_capability id (suc fuel) reg ≡ find_capability id fuel (next_register reg)))
  unfolding find_capability
  find_cases id fuel reg = ground arith

  -- The place after `k` registers of the list.
  unfoldable pub register_at : ℕ → ℕ → ℕ
  register_at reg zero = reg
  register_at reg (suc k) = register_at (next_register reg) k

  -- The list goes up.
  next_register-up :
      (reg limit : ℕ)
      → reg < limit
      → limit + 1024 ≤ 2 ^ 64
      → (next_register reg ≡ 0) ⊎ (reg + 4 ≤ next_register reg)
  unfolding next_register add_or_null
  next_register-up reg limit lt fits = ground arith

  -- Where every register that the list comes to lies below a limit that leaves 1 KiB of the addresses
  -- above it, the search ends: one round for each four bytes from the first register to the limit, and
  -- one more, are enough. It ends at the first register of the capability, or at the end of the list.
  pub find_capability-Passed :
      (id limit fuel reg : ℕ)
      → ((k : ℕ) → register_at reg k < limit)
      → limit + 1024 ≤ 2 ^ 64
      → limit ≤ reg + 4 * fuel
      → (r : ℕ) × Passed id reg r
        × (((r ≡ 0) × (find_capability id (suc fuel) reg ≡ some none))
            ⊎ ((r ≢ 0)
                × (ExtendedRegister.capability_id (read r) ≡ id)
                × (find_capability id (suc fuel) reg ≡ some (some r))))
  unfolding register_at
  find_capability-Passed id limit zero reg below fits enough = absurd (omega (arith, below 0))
  find_capability-Passed id limit (suc fuel) reg below fits enough =
      elim (find_cases id (suc fuel) reg) [
        | inl (z, e) ↦ (reg, stop, inl (z, e))
        | inr (inl (n, c, e)) ↦ (reg, stop, inr (n, c, e))
        | inr (inr (n, c, e)) ↦ elim (next_register-up reg limit (below 0) fits) [
          | inl z ↦ elim (find_cases id fuel (next_register reg)) [
            | inl (_, f) ↦ (next_register reg, skip n c stop, inl (z, e ∙ f))
            | inr (inl (m, _, _)) ↦ absurd (m z)
            | inr (inr (m, _, _)) ↦ absurd (m z)
          ]
          | inr up ↦
              let (r, p, o) =
                find_capability-Passed id limit fuel (next_register reg) (λ k. below (suc k)) fits
                  (omega arith) in
              (r, skip n c p, carry e o)
        ]
      ]
    where
      carry :
          {r : ℕ} {x y : Option (Option ℕ)}
          → x ≡ y
          → ((r ≡ 0) × (y ≡ some none))
            ⊎ ((r ≢ 0) × (ExtendedRegister.capability_id (read r) ≡ id) × (y ≡ some (some r)))
          → ((r ≡ 0) × (x ≡ some none))
            ⊎ ((r ≢ 0) × (ExtendedRegister.capability_id (read r) ≡ id) × (x ≡ some (some r)))
      carry e (inl (z, f)) = inl (z, e ∙ f)
      carry e (inr (n, c, f)) = inr (n, c, e ∙ f)

-- The wait at the end of `RequestHCOwnership`, over the words that it reads; none is a wait that does
-- not end.
unfoldable pub wait_owned : List ℕ → Option ℕ
wait_owned [] = none
wait_owned (r ∷ rest) =
    let after = wait_owned rest in
    if UsbLegSup.hc_bios_owned_semaphore r == 0 && UsbLegSup.hc_os_owned_semaphore r == 1
    then some r
    else after

-- `RequestHCOwnership` on the register of the capability, or where there is none: the words that it
-- writes to it.
unfoldable pub request_hc_ownership : Option ℕ → List ℕ → Option (List ℕ)
unfolding wait_owned
request_hc_ownership none waiting = some []
request_hc_ownership (some r) waiting =
    if UsbLegSup.hc_os_owned_semaphore r == 1 then some [] else elim (wait_owned waiting) [
      | none ↦ none
      | some owned ↦ some (UsbLegSup.set_hc_os_owned_semaphore r 1 ∷ [])
    ]
