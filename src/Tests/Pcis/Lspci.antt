-- ===== src/Tests/Pcis/Lspci.antt =====
-- command.cpp, Lspci, on the board of Pcis and on a machine with one device.
use seccamp_os.Base.{
  ℕ, ◌^◌, ◌≡◌, ◌<◌, ◌≤◌, refl, arith, false, some, List, [], ◌∷◌, map, u8, length, bit_and, ◌>>>◌,
  ◌==◌, if◌then◌else◌, replicate, length-replicate,
}
use seccamp_os.Tests.Pcis.{
  Latch, configuration, mechanism, bar_stored, board, board-IsNumbered, on_board, with_bar,
  with_bar-IsBar32,
}
use seccamp_os.Pci.{make_address, is_single_function_device}
use seccamp_os.Pci.Scan.{ScanCallbackParam}
use seccamp_os.Pci.Scan.Found.{bus_tree, IsNumbered}
use seccamp_os.Command.{Sscanf, blank, opened, lspci}
use seccamp_os.Command.Effects.{Printed, DeviceTable, Machine, Outcome}
use seccamp_os.Command.Table.{IsTable}
use seccamp_os.Command.Listing.{IsFresh, lspci_lists, lspci_overflow}
use seccamp_os.Command.Lookup.{lspci_device}
use seccamp_os.Command.Search.{IsFirst}
use seccamp_os.Command.Prints.{Sees}
use seccamp_os.Command.Report.{detail_lines}

abbrev empty : DeviceTable
empty = record { pci_devices = replicate 32 blank; num_pci_devices = 0 }

abbrev machine : Latch → DeviceTable → Machine Latch
machine s t = record { devices = t; ports = s; memory = λ _. 0; printed = [] }

-- `sscanf` on the one specifier that is used here.
abbrev scanned : Sscanf
scanned _ = some (0, 3, 0)

abbrev name : List ℕ
name = b'l' ∷ b's' ∷ []

on_board-IsFresh :
    IsFresh (configuration bar_stored) (mechanism bar_stored) scanned 256 (machine on_board empty)
unfolding mechanism board make_address is_single_function_device
on_board-IsFresh = record {
  enough = omega arith;
  numbered = board-IsNumbered;
  single = refl;
  no_devices = refl;
  size = length-replicate 32 blank;
}

-- The host bridge, the bridge, and the device behind it.
on_board-fits : length (bus_tree board 256 0) ≤ 32
unfolding board make_address is_single_function_device
on_board-fits = omega arith

lspci_lists_example :
    (w' : Machine Latch) × (lspci
        (configuration bar_stored)
        scanned
        256
        1
        (name ∷ [])
        (machine on_board empty)
      ≡ Outcome.done (tt, w'))
    × IsTable (bus_tree board 256 0) w'.devices
    × ((a : ℕ) → w'.ports.regs a ≡ board a)
    × (w'.printed ≡ map Printed.device_line (bus_tree board 256 0))
unfolding mechanism
lspci_lists_example =
    lspci_lists (configuration bar_stored) (mechanism bar_stored) scanned 256 name
      (machine on_board empty) on_board-IsFresh on_board-fits

-- A board of 39 functions: device 1 has eight of them.
crowd : ℕ → ℕ
crowd a = if a == 0x8000080c then 0x00800000 else 0

abbrev crowded : Latch
crowded = record { latch = 0; regs = crowd }

crowd-no_bridge : (a : ℕ) → (bit_and (u8 (bit_and (crowd a >>> 16) 0xff)) 0x7f == 1) ≡ false
unfolding crowd
crowd-no_bridge a = ground arith

crowd-IsNumbered : IsNumbered crowd
crowd-IsNumbered bus dev func hb hd hf here bridge =
    absurd (ground (arith, crowd-no_bridge (make_address bus dev func 0x0c)))

crowded-IsFresh :
    IsFresh (configuration bar_stored) (mechanism bar_stored) scanned 256 (machine crowded empty)
unfolding mechanism crowd make_address is_single_function_device
crowded-IsFresh = record {
  enough = omega arith;
  numbered = crowd-IsNumbered;
  single = refl;
  no_devices = refl;
  size = length-replicate 32 blank;
}

crowded-many : 32 < length (bus_tree crowd 256 0)
unfolding crowd make_address is_single_function_device
crowded-many = omega arith

lspci_overflow_example :
    lspci (configuration bar_stored) scanned 256 1 (name ∷ []) (machine crowded empty)
    ≡ Outcome.out_of_bounds
unfolding mechanism
lspci_overflow_example =
    lspci_overflow (configuration bar_stored) (mechanism bar_stored) scanned 256 1 (name ∷ [])
      (machine crowded empty) crowded-IsFresh crowded-many

-- One device, 00:03.00.
abbrev card : ScanCallbackParam
card = record blank { dev = 3; device_id = 0xfebc; vendor_id = 8 }

abbrev one_device : DeviceTable
one_device = record { pci_devices = card ∷ replicate 31 blank; num_pci_devices = 1 }

card-IsFirst : IsFirst 0 3 0 0 one_device
card-IsFirst = record {
  in_table = omega arith;
  matches = refl;
  others = λ j h. absurd (omega arith);
}

-- Its capability list begins at 8 and ends there.
lspci_device_example :
    (w' : Machine Latch) × (lspci
        (configuration bar_stored)
        scanned
        2
        2
        (name ∷ (b'3' ∷ []) ∷ [])
        (machine with_bar one_device)
      ≡ Outcome.done (tt, w'))
    × Sees
        (configuration bar_stored)
        (mechanism bar_stored)
        (λ _. 0xfebc0008)
        one_device
        (λ _. 0)
        w'
    × (w'.printed
        ≡ Printed.device_line card
          ∷ detail_lines (λ _. 0xfebc0008) (opened 0 3 0 0) (2 ^ 12) (8 ∷ []))
unfolding mechanism
lspci_device_example =
    lspci_device (configuration bar_stored) scanned 2 (mechanism bar_stored) name (b'3' ∷ []) 0 3 0
      0 12 (8 ∷ []) (machine with_bar one_device) (λ e. absurd (omega arith)) refl card-IsFirst
      (omega arith) (omega arith) with_bar-IsBar32 (refl, (λ e. absurd (omega arith)), refl)
      (omega arith)
