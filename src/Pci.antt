-- ===== src/Pci.antt =====
-- kernel/arch/aarch64-linux-gnu/pci.cpp and pci.hpp: finding the PCI functions through the ECAM
-- window. `io_read32` reads a 32-bit configuration register at an address; during a scan nothing
-- writes them, so the window is a function from addresses to words.
pub mod Address
pub mod Scan
pub mod Bar
pub mod Bounds
use mikanos_aarch.Prelude.{
  ℕ, ◌+◌, ◌*◌, ◌/◌, ◌%◌, ◌^◌, Bool, ◌&&◌, bit_and, bit_or, List, ◌==◌, if◌then◌else◌,
}

abbrev pub ecam_base_address : ℕ
ecam_base_address = 0x4010000000

-- `io_read32` on the ECAM window.
abbrev pub Window : Type 0
Window = ℕ → ℕ

-- The lambda `shl` on `uint64_t`.
abbrev pub shl : ℕ → ℕ → ℕ
shl x bits = x * 2 ^ bits % 2 ^ 64

-- `MakeEcamAddress`; the arguments are `uint8_t`, `reg_addr` is `uint16_t`.
unfoldable pub make_ecam_address : ℕ → ℕ → ℕ → ℕ → ℕ → ℕ
make_ecam_address base bus device function reg_addr =
    bit_or
      (bit_or (bit_or (bit_or base (shl (bit_and bus 0xff) 20)) (shl (bit_and device 0x1f) 15))
        (shl (bit_and function 0x07) 12))
      (bit_and reg_addr 0xfff)

-- `MakeIoAddress`.
unfoldable pub make_io_address : ℕ → ℕ → ℕ → ℕ → ℕ → ℕ
make_io_address base bus device function reg_addr =
    bit_or
      (bit_or (bit_or (bit_or base (shl (bit_and bus 0xff) 16)) (shl (bit_and device 0x1f) 11))
        (shl (bit_and function 0x07) 8))
      (bit_and reg_addr 0xfc)

-- `ClassCode`.
pub record ClassCode : Type 0 where
  pub base : ℕ
  pub sub : ℕ
  pub interface : ℕ

-- `Match` with one, two and three arguments.
abbrev pub match_base : ClassCode → ℕ → Bool
match_base c b = b == c.base

abbrev pub match_sub : ClassCode → ℕ → ℕ → Bool
match_sub c b s = match_base c b && (s == c.sub)

abbrev pub match_interface : ClassCode → ℕ → ℕ → ℕ → Bool
match_interface c b s i = match_sub c b s && (i == c.interface)

-- `pci::Device`.
pub record Device : Type 0 where
  pub bus : ℕ
  pub device : ℕ
  pub function : ℕ
  pub header_type : ℕ
  pub class_code : ClassCode

module _ (w : Window) where
  unfoldable pub read_register : ℕ → ℕ → ℕ → ℕ → ℕ
  read_register bus device function reg =
      w (make_ecam_address ecam_base_address bus device function reg)

  unfoldable pub read_vendor_id : ℕ → ℕ → ℕ → ℕ
  read_vendor_id bus device function = bit_and (read_register bus device function 0x00) 0xffff

  unfoldable pub read_device_id : ℕ → ℕ → ℕ → ℕ
  read_device_id bus device function = read_register bus device function 0x00 / 2 ^ 16 % 2 ^ 16

  unfoldable pub read_header_type : ℕ → ℕ → ℕ → ℕ
  read_header_type bus device function =
      bit_and (read_register bus device function 0x0c / 2 ^ 16) 0xff

  unfoldable pub read_class_code : ℕ → ℕ → ℕ → ClassCode
  read_class_code bus device function =
      let reg = read_register bus device function 0x08 in
      record {
        base = bit_and (reg / 2 ^ 24) 0xff;
        sub = bit_and (reg / 2 ^ 16) 0xff;
        interface = bit_and (reg / 2 ^ 8) 0xff;
      }

  unfoldable pub read_bus_numbers : ℕ → ℕ → ℕ → ℕ
  read_bus_numbers bus device function = read_register bus device function 0x18

  -- `ReadConfReg`.
  unfoldable pub read_conf_reg : Device → ℕ → ℕ
  read_conf_reg dev reg_addr = read_register dev.bus dev.device dev.function reg_addr

-- `IsSingleFunctionDevice`.
unfoldable pub is_single_function_device : ℕ → Bool
is_single_function_device header_type = bit_and header_type 0x80 == 0
