-- ===== src/Tests/Pcis/Wide.antt =====
-- pci.cpp, `CalcBarMapSize`, at a 64-bit base address register, and at indices without a register.
use seccamp_os.Base.{ℕ, ◌+◌, ◌*◌, ◌/◌, ◌^◌, ◌≡◌, refl, arith, inr, ◌==◌, if◌then◌else◌, u8}
use seccamp_os.ErrorCode.{success}
use seccamp_os.Pci.{make_address}
use seccamp_os.Pci.Device.{normal_device, calc_bar_address, calc_bar_map_size}
use seccamp_os.Pci.Device.WideBars.{
  IsBar64, no_register, calc_bar_map_size_wide, calc_bar_map_size_errors,
}
use seccamp_os.Tests.Pcis.{Latch, configuration, mechanism}

-- Registers 0 and 1 of device 3 are one of 64 GiB.
abbrev wide_stored : ℕ → ℕ → ℕ
wide_stored a v = if a == 0x80001810 then 0xc else (if a == 0x80001814 then v / 16 * 16 else 0xc)

abbrev with_wide : Latch
with_wide = record { latch = 0; regs = λ a. if a == 0x80001814 then 0x120 else 0xc }

with_wide-IsBar64 :
    IsBar64
      (configuration wide_stored)
      (mechanism wide_stored)
      (make_address 0 3 0 (calc_bar_address 0))
      (make_address 0 3 0 (u8 (calc_bar_address 0 + 4)))
      36
      with_wide
unfolding mechanism make_address calc_bar_address
with_wide-IsBar64 = record {
  flags = 0xc;
  flags_fit = omega arith;
  is_64bits = refl;
  value_fits = omega arith;
  upper_fits = omega arith;
  stored_bits = λ v h. omega arith;
  stored_upper = λ v h. refl;
  stable = refl;
  stable_upper = refl;
}

calc_bar_map_size_wide_example :
    ((calc_bar_map_size (configuration wide_stored) (normal_device 0 3 0) 0 with_wide).0
      ≡ record { value = 2 ^ 36; error = success })
    × ((b : ℕ)
        → (calc_bar_map_size (configuration wide_stored) (normal_device 0 3 0) 0 with_wide).1.regs b
          ≡ with_wide.regs b)
unfolding mechanism
calc_bar_map_size_wide_example =
    calc_bar_map_size_wide (normal_device 0 3 0) (omega arith, omega arith, omega arith) 0
      (omega arith) (configuration wide_stored) (mechanism wide_stored) 36 with_wide (omega arith)
      (omega arith) with_wide-IsBar64

-- Register 5 says that it is the lower half of another one.
calc_bar_map_size_errors_example :
    ((calc_bar_map_size (configuration wide_stored) (normal_device 0 3 0) 5 with_wide).0
      ≡ no_register)
    × ((b : ℕ)
        → (calc_bar_map_size (configuration wide_stored) (normal_device 0 3 0) 5 with_wide).1.regs b
          ≡ with_wide.regs b)
unfolding mechanism make_address calc_bar_address
calc_bar_map_size_errors_example =
    calc_bar_map_size_errors (configuration wide_stored) (mechanism wide_stored)
      (normal_device 0 3 0) 5 with_wide (inr (refl, refl))
