-- ===== src/Pci/Address.antt =====
-- The ECAM addresses of kernel/arch/aarch64-linux-gnu/pci.cpp: the fields of an address do not
-- overlap, so distinct functions and registers have distinct addresses.
use mikanos_aarch.Prelude.{
  ℕ, ◌+◌, ◌-◌, ◌*◌, ◌/◌, ◌%◌, ◌^◌, ◌<◌, ◌≡◌, arith, bit_or, bit_and, bit_and-ones, bit_or_add,
}
use mikanos_aarch.Pci.{ecam_base_address, shl, make_ecam_address}

-- The address as a sum.
pub make_ecam_address_lem :
    (bus device function reg : ℕ)
    → bus < 256
    → device < 32
    → function < 8
    → reg < 4096
    → make_ecam_address ecam_base_address bus device function reg
      ≡ ecam_base_address + bus * 2 ^ 20 + device * 2 ^ 15 + function * 2 ^ 12 + reg
unfolding make_ecam_address
make_ecam_address_lem bus device function reg hb hd hf hr =
    rw (b, d, f, r, with_bus, with_device, with_function)
      (bit_or_add 12 (ecam_base_address + bus * 2 ^ 20 + device * 2 ^ 15 + function * 2 ^ 12) reg
        (omega arith) (omega arith))
  where
    b : shl (bit_and bus 0xff) 20 ≡ bus * 2 ^ 20
    b = omega (arith, bit_and-ones 8 bus)

    d : shl (bit_and device 0x1f) 15 ≡ device * 2 ^ 15
    d = omega (arith, bit_and-ones 5 device)

    f : shl (bit_and function 0x07) 12 ≡ function * 2 ^ 12
    f = omega (arith, bit_and-ones 3 function)

    r : bit_and reg 0xfff ≡ reg
    r = omega (arith, bit_and-ones 12 reg)

    with_bus : bit_or ecam_base_address (bus * 2 ^ 20) ≡ ecam_base_address + bus * 2 ^ 20
    with_bus = bit_or_add 28 ecam_base_address (bus * 2 ^ 20) (omega arith) (omega arith)

    with_device :
        bit_or (ecam_base_address + bus * 2 ^ 20) (device * 2 ^ 15)
        ≡ ecam_base_address + bus * 2 ^ 20 + device * 2 ^ 15
    with_device =
        bit_or_add 20 (ecam_base_address + bus * 2 ^ 20) (device * 2 ^ 15) (omega arith)
          (omega arith)

    with_function :
        bit_or (ecam_base_address + bus * 2 ^ 20 + device * 2 ^ 15) (function * 2 ^ 12)
        ≡ ecam_base_address + bus * 2 ^ 20 + device * 2 ^ 15 + function * 2 ^ 12
    with_function =
        bit_or_add 15 (ecam_base_address + bus * 2 ^ 20 + device * 2 ^ 15) (function * 2 ^ 12)
          (omega arith) (omega arith)

-- Each (bus, device, function, register) has its own address, from which it can be read back, and the
-- address lies in the 256 MiB of the ECAM window.
pub make_ecam_address_fields :
    (bus device function reg : ℕ)
    → bus < 256
    → device < 32
    → function < 8
    → reg < 4096
    → let a = make_ecam_address ecam_base_address bus device function reg - ecam_base_address in
      (a < 2 ^ 28)
      × (a / 2 ^ 20 ≡ bus)
      × (a / 2 ^ 15 % 2 ^ 5 ≡ device)
      × (a / 2 ^ 12 % 2 ^ 3 ≡ function)
      × (a % 2 ^ 12 ≡ reg)
make_ecam_address_fields bus device function reg hb hd hf hr =
    omega (arith, make_ecam_address_lem bus device function reg hb hd hf hr)
