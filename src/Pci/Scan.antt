-- ===== src/Pci/Scan.antt =====
-- The search for PCI functions in kernel/arch/aarch64-linux-gnu/pci.cpp: ScanAllBus, ScanBus,
-- ScanDevice and ScanFunction. `devices` and `num_device` are the list of the devices found so far.
-- ScanFunction calls ScanBus again behind a bridge, so the bus scan takes the number of nested
-- calls that it may make; none means that they were used up.
use mikanos_aarch.Prelude.{
  ℕ, zero, suc, ◌+◌, ◌/◌, ◌^◌, Option, none, some, List, [], ◌∷◌, ◌++◌, length, bit_and, ◌==◌,
  if◌then◌else◌,
}
use mikanos_aarch.Error.{Error, success, full, is_error}
use mikanos_aarch.Pci.{
  Window, Device, match_sub, read_vendor_id, read_header_type, read_class_code, read_bus_numbers,
  is_single_function_device,
}

-- `devices.size()`.
abbrev pub max_devices : ℕ
max_devices = 32

abbrev pub Outcome : Type 0
Outcome = Option (List Device × Error)

-- `if (auto err = ...) return err;` and what follows.
abbrev pub and_then : Outcome → (List Device → Outcome) → Outcome
and_then none k = none
and_then (some (ds, e)) k = if is_error e then some (ds, e) else k ds

-- `AddDevice`.
unfoldable pub add_device : List Device → Device → List Device × Error
add_device ds d = if length ds == max_devices then (ds, full) else (ds ++ (d ∷ []), success)

module _ (w : Window) where
  -- The device that `ScanFunction` registers.
  abbrev pub found : ℕ → ℕ → ℕ → Device
  found bus device function = record {
    bus = bus;
    device = device;
    function = function;
    header_type = read_header_type w bus device function;
    class_code = read_class_code w bus device function;
  }

  -- `(bus_numbers >> 8) & 0xff`.
  abbrev pub secondary_bus : ℕ → ℕ → ℕ → ℕ
  secondary_bus bus device function = bit_and (read_bus_numbers w bus device function / 2 ^ 8) 0xff

  -- `ScanFunction`, over the scan of a bus.
  unfoldable pub scan_function : (ℕ → List Device → Outcome) → ℕ → ℕ → ℕ → List Device → Outcome
  scan_function scan bus device function ds =
      and_then (some (add_device ds (found bus device function))) λ ds'.
        if match_sub (read_class_code w bus device function) 0x06 0x04
        then scan (secondary_bus bus device function) ds'
        else some (ds', success)

  -- The loop of `ScanDevice` over `n` functions from `function` on.
  unfoldable pub scan_functions :
      (ℕ → List Device → Outcome) → ℕ → ℕ → ℕ → ℕ → List Device → Outcome
  scan_functions scan bus device zero function ds = some (ds, success)
  scan_functions scan bus device (suc n) function ds =
      and_then
        (if read_vendor_id w bus device function == 0xffff
          then some (ds, success)
          else scan_function scan bus device function ds)
        λ ds'. scan_functions scan bus device n (function + 1) ds'

  -- `ScanDevice`.
  unfoldable pub scan_device : (ℕ → List Device → Outcome) → ℕ → ℕ → List Device → Outcome
  scan_device scan bus device ds = and_then (scan_function scan bus device 0 ds) λ ds'.
      if is_single_function_device (read_header_type w bus device 0)
      then some (ds', success)
      else scan_functions scan bus device 7 1 ds'

  -- The loop of `ScanBus` over `n` devices from `device` on.
  unfoldable pub scan_devices : (ℕ → List Device → Outcome) → ℕ → ℕ → ℕ → List Device → Outcome
  scan_devices scan bus zero device ds = some (ds, success)
  scan_devices scan bus (suc n) device ds =
      and_then
        (if read_vendor_id w bus device 0 == 0xffff
          then some (ds, success)
          else scan_device scan bus device ds)
        λ ds'. scan_devices scan bus n (device + 1) ds'

  -- `ScanBus`, with the number of nested calls that are left.
  unfoldable pub scan_bus : ℕ → ℕ → List Device → Outcome
  scan_bus zero bus ds = none
  scan_bus (suc fuel) bus ds = scan_devices (scan_bus fuel) bus 32 0 ds

  -- The loop of `ScanAllBus` over `n` functions of the host bridge.
  unfoldable pub scan_buses : ℕ → ℕ → ℕ → List Device → Outcome
  scan_buses fuel zero function ds = some (ds, success)
  scan_buses fuel (suc n) function ds =
      and_then
        (if read_vendor_id w 0 0 function == 0xffff
          then some (ds, success)
          else scan_bus fuel function ds)
        λ ds'. scan_buses fuel n (function + 1) ds'

  -- `ScanAllBus` starts with `num_device = 0`.
  unfoldable pub scan_all_bus : ℕ → Outcome
  scan_all_bus fuel =
      if is_single_function_device (read_header_type w 0 0 0)
      then scan_bus fuel 0 []
      else scan_buses fuel 8 0 []
