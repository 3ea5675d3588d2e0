-- ===== src/Pci/Bar.antt =====
-- `ReadBar` of kernel/arch/aarch64-linux-gnu/pci.cpp: a base address register, and the next one for
-- the upper half where it is 64 bits wide.
use mikanos_aarch.Prelude.{ℕ, ◌+◌, ◌*◌, ◌%◌, ◌^◌, bit_and, bit_or, leb, ◌==◌, if◌then◌else◌}
use mikanos_aarch.Error.{Error, success, index_out_of_range}
use mikanos_aarch.Pci.{Window, Device, read_conf_reg}

-- `CalcBarAddress`, a `uint8_t`.
abbrev pub calc_bar_address : ℕ → ℕ
calc_bar_address bar_index = (0x10 + 4 * bar_index) % 2 ^ 8

-- `ReadBar`.
unfoldable pub read_bar : Window → Device → ℕ → ℕ × Error
read_bar w dev bar_index =
    if leb 6 bar_index
    then (0, index_out_of_range)
    else let addr = calc_bar_address bar_index in
      let bar = read_conf_reg w dev addr in
      if bit_and bar 4 == 0
      then (bar, success)
      else (if leb 5 bar_index
          then (0, index_out_of_range)
          else (bit_or bar (read_conf_reg w dev (addr + 4) * 2 ^ 32 % 2 ^ 64), success))
