-- ===== src/Pci/Bounds.antt =====
-- The scan of kernel/arch/aarch64-linux-gnu/pci.cpp ends and never writes past `devices`, whatever
-- the configuration registers say: bridges that lead back to a scanned bus fill the table.
use mathlib.Core.List.{append_assoc, append-nil}
use mikanos_aarch.Prelude.{
  ℕ, zero, suc, ◌+◌, ◌≤◌, ◌<◌, ◌≡◌, ◌⊎◌, inl, inr, refl, some, List, [], ◌∷◌, ◌++◌, length,
  length-append, arith, ◌==◌, if◌then◌else◌, Bool-cases,
}
use mikanos_aarch.Error.{Error, success, full}
use mikanos_aarch.Pci.{
  Window, Device, read_vendor_id, read_header_type, read_class_code, match_sub,
  is_single_function_device,
}
use mikanos_aarch.Pci.Scan.{
  max_devices, Outcome, and_then, add_device, found, secondary_bus, scan_function, scan_functions,
  scan_device, scan_devices, scan_bus, scan_buses, scan_all_bus,
}

-- The scan came to an end: it only appended, stayed within the table, and failed only when full.
abbrev pub Ends : List Device → Outcome → Type 0
Ends ds r =
    (extra : List Device) × (e : Error) × (r ≡ some (ds ++ extra, e))
    × (length (ds ++ extra) ≤ max_devices)
    × ((e ≡ success) ⊎ ((e ≡ full) × (length (ds ++ extra) ≡ max_devices)))

Ends-same : (ds : List Device) → length ds ≤ max_devices → Ends ds (some (ds, success))
Ends-same ds h = ([], success, rw (append-nil ds), rw (append-nil ds) h, inl refl)

-- What ended after a first part ended.
Ends-after : (ds extra : List Device) (r : Outcome) → Ends (ds ++ extra) r → Ends ds r
Ends-after ds extra r (more, e, eq, h, c) = (
  extra ++ more,
  e,
  rw (← append_assoc ds extra more) eq,
  rw (← append_assoc ds extra more) h,
  rw (← append_assoc ds extra more) c,
)

and_then-Ends :
    (ds : List Device) (r : Outcome) (k : List Device → Outcome)
    → Ends ds r
    → ((ds' : List Device) → length ds ≤ length ds' → length ds' ≤ max_devices → Ends ds' (k ds'))
    → Ends ds (and_then r k)
and_then-Ends ds r k (extra, e, eq, h, inl ok) next =
    rw (eq, ok)
      (Ends-after ds extra (k (ds ++ extra))
        (next (ds ++ extra) (omega (arith, length-append ds extra)) h))
and_then-Ends ds r k (extra, e, eq, h, inr (no_room, all)) next =
    rw (eq, no_room) (extra, full, refl, h, inr (refl, all))

-- `AddDevice` appends, or finds the table full.
add_device-Ends :
    (ds : List Device) (d : Device)
    → length ds ≤ max_devices
    → ((add_device ds d ≡ (ds ++ (d ∷ []), success)) × (length ds + 1 ≤ max_devices))
      ⊎ ((add_device ds d ≡ (ds, full)) × (length ds ≡ max_devices))
unfolding add_device
add_device-Ends ds d h = ground arith

module _ (w : Window) (fuel : ℕ) (scan : ℕ → List Device → Outcome)
    (total : (bus : ℕ) (ds : List Device)
      → length ds ≤ max_devices
      → max_devices < length ds + fuel
      → Ends ds (scan bus ds)) where
  scan_function-Ends :
      (bus device function : ℕ) (ds : List Device)
      → length ds ≤ max_devices
      → max_devices < length ds + suc fuel
      → Ends ds (scan_function w scan bus device function ds)
  unfolding scan_function
  scan_function-Ends bus device function ds h enough =
      elim (add_device-Ends ds (found w bus device function) h) [
        | inl (e, room) ↦ rw e (Ends-after ds (found w bus device function ∷ []) _ (behind room))
        | inr (e, all) ↦
            rw e (
              [],
              full,
              rw (append-nil ds),
              rw (append-nil ds) h,
              inr (refl, rw (append-nil ds) all),
            )
      ]
    where
      added : List Device
      added = ds ++ (found w bus device function ∷ [])

      count : length added ≡ length ds + 1
      count = length-append ds (found w bus device function ∷ [])

      behind :
          length ds + 1 ≤ max_devices
          → Ends added (
              if match_sub (read_class_code w bus device function) 0x06 0x04
              then scan (secondary_bus w bus device function) added
              else some (added, success))
      behind room =
          elim (Bool-cases (match_sub (read_class_code w bus device function) 0x06 0x04)) [
            | inl t ↦ rw t (
                total (secondary_bus w bus device function) added (omega (arith, count))
                  (omega (arith, count)))
            | inr t ↦ rw t (Ends-same added (omega (arith, count)))
          ]

  scan_functions-Ends :
      (bus device n function : ℕ) (ds : List Device)
      → length ds ≤ max_devices
      → max_devices < length ds + suc fuel
      → Ends ds (scan_functions w scan bus device n function ds)
  unfolding scan_functions
  scan_functions-Ends bus device zero function ds h enough = Ends-same ds h
  scan_functions-Ends bus device (suc n) function ds h enough =
      and_then-Ends ds
        (if read_vendor_id w bus device function == 0xffff
          then some (ds, success)
          else scan_function w scan bus device function ds)
        (λ ds'. scan_functions w scan bus device n (function + 1) ds')
        (elim (Bool-cases (read_vendor_id w bus device function == 0xffff)) [
          | inl t ↦ rw t (Ends-same ds h)
          | inr t ↦ rw t (scan_function-Ends bus device function ds h enough)
        ])
        (λ ds' more h'.
          scan_functions-Ends bus device n (function + 1) ds' h' (omega (arith, more, enough)))

  scan_device-Ends :
      (bus device : ℕ) (ds : List Device)
      → length ds ≤ max_devices
      → max_devices < length ds + suc fuel
      → Ends ds (scan_device w scan bus device ds)
  unfolding scan_device
  scan_device-Ends bus device ds h enough =
      and_then-Ends ds (scan_function w scan bus device 0 ds)
        (λ ds'.
          if is_single_function_device (read_header_type w bus device 0)
          then some (ds', success)
          else scan_functions w scan bus device 7 1 ds')
        (scan_function-Ends bus device 0 ds h enough)
        λ ds' more h'.
          elim (Bool-cases (is_single_function_device (read_header_type w bus device 0))) [
            | inl t ↦ rw t (Ends-same ds' h')
            | inr t ↦ rw t (scan_functions-Ends bus device 7 1 ds' h' (omega (arith, more, enough)))
          ]

  scan_devices-Ends :
      (bus n device : ℕ) (ds : List Device)
      → length ds ≤ max_devices
      → max_devices < length ds + suc fuel
      → Ends ds (scan_devices w scan bus n device ds)
  unfolding scan_devices
  scan_devices-Ends bus zero device ds h enough = Ends-same ds h
  scan_devices-Ends bus (suc n) device ds h enough =
      and_then-Ends ds
        (if read_vendor_id w bus device 0 == 0xffff
          then some (ds, success)
          else scan_device w scan bus device ds)
        (λ ds'. scan_devices w scan bus n (device + 1) ds')
        (elim (Bool-cases (read_vendor_id w bus device 0 == 0xffff)) [
          | inl t ↦ rw t (Ends-same ds h)
          | inr t ↦ rw t (scan_device-Ends bus device ds h enough)
        ])
        (λ ds' more h'. scan_devices-Ends bus n (device + 1) ds' h' (omega (arith, more, enough)))

-- Every nested scan has one more device behind it, so `max_devices` of them fill the table.
scan_bus-Ends :
    (w : Window) (fuel bus : ℕ) (ds : List Device)
    → length ds ≤ max_devices
    → max_devices < length ds + fuel
    → Ends ds (scan_bus w fuel bus ds)
unfolding scan_bus
scan_bus-Ends w zero bus ds h enough = absurd (omega (arith, h, enough))
scan_bus-Ends w (suc fuel) bus ds h enough =
    scan_devices-Ends w fuel (scan_bus w fuel) (scan_bus-Ends w fuel) bus 32 0 ds h enough

scan_buses-Ends :
    (w : Window) (fuel n function : ℕ) (ds : List Device)
    → length ds ≤ max_devices
    → max_devices < fuel
    → Ends ds (scan_buses w fuel n function ds)
unfolding scan_buses
scan_buses-Ends w fuel zero function ds h enough = Ends-same ds h
scan_buses-Ends w fuel (suc n) function ds h enough =
    and_then-Ends ds
      (if read_vendor_id w 0 0 function == 0xffff
        then some (ds, success)
        else scan_bus w fuel function ds)
      (λ ds'. scan_buses w fuel n (function + 1) ds')
      (elim (Bool-cases (read_vendor_id w 0 0 function == 0xffff)) [
        | inl t ↦ rw t (Ends-same ds h)
        | inr t ↦ rw t (scan_bus-Ends w fuel function ds h (omega (arith, enough)))
      ])
      (λ ds' more h'. scan_buses-Ends w fuel n (function + 1) ds' h' enough)

-- Whatever the configuration registers say, 33 nested scans are enough for `ScanAllBus`: it
-- returns, with at most 32 devices in the table, and either with no error or with `kFull` and a
-- table of exactly 32 devices.
pub scan_all_bus-Ends : (w : Window) (fuel : ℕ) → max_devices < fuel → Ends [] (scan_all_bus w fuel)
unfolding scan_all_bus
scan_all_bus-Ends w fuel enough =
    elim (Bool-cases (is_single_function_device (read_header_type w 0 0 0))) [
      | inl t ↦ rw t (scan_bus-Ends w fuel 0 [] (omega arith) (omega (arith, enough)))
      | inr t ↦ rw t (scan_buses-Ends w fuel 8 0 [] (omega arith) enough)
    ]
