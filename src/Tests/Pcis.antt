-- ===== src/Tests/Pcis.antt =====
-- pci.cpp over registers that are a function, with an address latch in front.
pub mod Lspci
pub mod Usbs
pub mod Wide
use seccamp_os.Base.{
  ℕ, ◌+◌, ◌*◌, bit_and, u8, ◌>>>◌, ◌/◌, ◌^◌, ◌≡◌, refl, arith, true, some, ◌==◌, if◌then◌else◌,
}
use seccamp_os.ErrorCode.{success}
use seccamp_os.Ports.{Ports}
use seccamp_os.Pci.{make_address, is_single_function_device}
use seccamp_os.Pci.Laws.{Mechanism, make_address_injective}
use seccamp_os.Pci.Device.{normal_device, calc_bar_address, calc_bar_map_size}
use seccamp_os.Pci.Device.Bars.{IsBar32, calc_bar_map_size_lem}
use seccamp_os.Pci.Scan.{ScanCallbackParam, scan_all_bus}
use seccamp_os.Pci.Scan.Found.{IsNumbered, bus_tree, run_callback}
use seccamp_os.Pci.Scan.Host.{scan_all_bus_lem, scan_all_bus-skips}

record Latch : Type 0 where
  latch : ℕ
  regs : ℕ → ℕ

module _ (stored : ℕ → ℕ → ℕ) where
  out : ℕ → ℕ → Latch → Latch
  out port v s =
      if port == 0x0cf8
      then record s { latch = v }
      else (if port == 0x0cfc
          then record s { regs = λ b. if b == s.latch then stored b v else s.regs b }
          else s)

  abbrev configuration : Ports
  configuration = record {
    State = Latch;
    out8 = λ port v s. s;
    in8 = λ port s. (0, s);
    out32 = out;
    in32 = λ port s. (if port == 0x0cfc then s.regs s.latch else 0, s);
  }

  mechanism : Mechanism configuration
  unfolding out
  mechanism = record {
    reg = λ s. s.regs;
    latched = λ s. s.latch;
    stored = stored;
    latched-out = λ a s. refl;
    reg-out = λ a b s. refl;
    in_value = λ s. refl;
    reg-in = λ b s. refl;
    reg-out_data = λ v b s. refl;
  }

-- Offsets 0x10 and 0x13 lie in one dword.
make_address_injective_example :
    (◌≡◌ {A = ℕ} 2 2) × (◌≡◌ {A = ℕ} 31 31) × (◌≡◌ {A = ℕ} 7 7) × (◌≡◌ {A = ℕ} 4 4)
unfolding make_address
make_address_injective_example =
    make_address_injective 2 31 7 0x13 2 31 7 0x10
      (omega arith, omega arith, omega arith, omega arith)
      (omega arith, omega arith, omega arith, omega arith) refl

-- Every register is one of 4 KiB of prefetchable memory.
abbrev bar_stored : ℕ → ℕ → ℕ
bar_stored a v = v / 2 ^ 12 * 2 ^ 12 + 8

abbrev with_bar : Latch
with_bar = record { latch = 0; regs = λ _. 0xfebc0008 }

with_bar-IsBar32 :
    IsBar32
      (configuration bar_stored)
      (mechanism bar_stored)
      (make_address 0 3 0 (calc_bar_address 0))
      12
      with_bar
unfolding mechanism
with_bar-IsBar32 = record {
  flags = 8;
  flags_fit = omega arith;
  is_32bits = refl;
  value_fits = omega arith;
  stored_bits = λ v h. refl;
  stable = refl;
}

calc_bar_map_size_lem_example :
    ((calc_bar_map_size (configuration bar_stored) (normal_device 0 3 0) 0 with_bar).0
      ≡ record { value = 0x1000; error = success })
    × ((b : ℕ)
        → (calc_bar_map_size (configuration bar_stored) (normal_device 0 3 0) 0 with_bar).1.regs b
          ≡ 0xfebc0008)
unfolding mechanism
calc_bar_map_size_lem_example =
    calc_bar_map_size_lem (configuration bar_stored) (mechanism bar_stored) (normal_device 0 3 0) 0
      12 with_bar (omega arith) (omega arith) (omega arith) with_bar-IsBar32

-- Device 0 of bus 0, a bridge as device 1 that leads to bus 1, and device 0 there.
board : ℕ → ℕ
board a =
    if a == 0x8000080c
    then 0x00010000
    else (if a == 0x80000800
        then 0x12378086
        else (if a == 0x80000808
            then 0x06040000
            else (if a == 0x80000818
                then 0x00020100
                else (if a == 0x80000000
                    then 0x12378086
                    else (if a == 0x80000008
                        then 0x06000000
                        else (if a == 0x8000000c
                            then 0
                            else (if a == 0x80010000
                                then 0x100e8086
                                else (if a == 0x80010008
                                    then 0x02000000
                                    else (if a == 0x8001000c then 0 else 0xffffffff)))))))))

board-bridge :
    (a : ℕ) → (bit_and (u8 (bit_and (board a >>> 16) 0xff)) 0x7f == 1) ≡ true → a ≡ 0x8000080c
unfolding board
board-bridge a h = ground arith

board-IsNumbered : IsNumbered board
unfolding board make_address
board-IsNumbered bus dev func hb hd hf here bridge =
    let header : (bit_and (u8 (bit_and (board (make_address bus dev func 0x0c) >>> 16) 0xff)) 0x7f
          == 1)
        ≡ true =
      ground arith in
    let found : make_address bus dev func 0x0c ≡ make_address 0 1 0 0x0c =
      board-bridge (make_address bus dev func 0x0c) header in
    let (eb, ed, ef, _) =
      make_address_injective bus dev func 0x0c 0 1 0 0x0c (hb, hd, hf, omega arith)
        (omega arith, omega arith, omega arith, omega arith) found in
    rw (eb, ed, ef) (omega arith)

-- A callback that counts.
abbrev counted : ScanCallbackParam → ℕ → ℕ
counted p g = g + 1

abbrev on_board : Latch
on_board = record { latch = 0; regs = board }

scan_all_bus_lem_example :
    (s' : Latch) × (scan_all_bus (configuration bar_stored) counted 256 (0, on_board)
      ≡ some (run_callback counted (bus_tree board 256 0) 0, s'))
    × ((a : ℕ) → s'.regs a ≡ board a)
unfolding mechanism board make_address is_single_function_device
scan_all_bus_lem_example =
    scan_all_bus_lem (configuration bar_stored) (mechanism bar_stored) counted 256 0 on_board
      (omega arith) board-IsNumbered refl

-- Every function has a header of several functions.
abbrev several : Latch
several = record { latch = 0; regs = λ _. 0x00800000 }

scan_all_bus-skips_example :
    (s' : Latch) × (scan_all_bus (configuration bar_stored) counted 3 (0, several) ≡ some (0, s'))
unfolding mechanism is_single_function_device
scan_all_bus-skips_example =
    scan_all_bus-skips (configuration bar_stored) (mechanism bar_stored) counted 3 0 several refl
      refl
