-- ===== src/Command.antt =====
-- command.cpp: the commands Echo, Lspci and Mmap of the shell.
pub mod Effects
pub mod Entered
pub mod Usb
pub mod Table
pub mod Listing
pub mod Search
pub mod Lookup
pub mod Report
pub mod Details
pub mod Prints
pub mod Mmap
pub mod Echo
use seccamp_os.Base.{
  ℕ, zero, suc, ◌+◌, ◌*◌, ◌-◌, ◌/◌, ◌%◌, ◌^◌, Bool, Option, none, some, List, [], ◌∷◌, ◌++◌, ◌==◌,
  ◌&&◌, ltb, if◌then◌else◌, Memory, bit_and, get_or, set, ◌>>>◌, u8, u64,
}
use seccamp_os.Ports.{Ports}
use seccamp_os.Pci.Device.{
  Device, Capability, read_conf_reg, read_capability_pointer, read_capability_structure,
  calc_bar_map_size, read_pcie_capability_structure,
}
use seccamp_os.Pci.Scan.{ScanCallbackParam, scan_all_bus}
use seccamp_os.Command.Effects.{
  Printed, DeviceTable, Machine, Outcome, Run, pure, ◌>>=◌, ◌>>◌, at_ports, print,
}

-- `argv[i]`
abbrev pub argument : List (List ℕ) → ℕ → List ℕ
argument argv i = get_or argv i []

abbrev pub max_devices : ℕ
max_devices = 32

-- Storage that has not been written.
abbrev pub blank : ScanCallbackParam
blank = record {
  bus = 0;
  dev = 0;
  func = 0;
  device_id = 0;
  vendor_id = 0;
  base_class = 0;
  sub_class = 0;
  interface = 0;
  header_type = 0;
}

abbrev pub device_at : DeviceTable → ℕ → ScanCallbackParam
device_at t i = get_or t.pci_devices i blank

-- The callback `pci_devices[num_pci_devices++] = param`; `none` is a write outside the array.
unfoldable pub store_device : ScanCallbackParam → Option DeviceTable → Option DeviceTable
store_device param none = none
store_device param (some t) =
    if ltb t.num_pci_devices max_devices
    then some (record {
      pci_devices = set t.pci_devices t.num_pci_devices param;
      num_pci_devices = t.num_pci_devices + 1;
    })
    else none

-- `bus`, `dev` and `func` are the numbers that `sscanf` has read.
abbrev pub is_at : ℕ → ℕ → ℕ → ScanCallbackParam → Bool
is_at bus dev func p = (p.bus == bus) && (p.dev == dev) && (p.func == func)

-- The loop that looks for a device from index `i` on; `none` is an index of -1.
unfoldable pub find_index : (ScanCallbackParam → Bool) → DeviceTable → ℕ → ℕ → Option ℕ
find_index test t zero i = none
find_index test t (suc rounds) i =
    let next = find_index test t rounds (i + 1) in if test (device_at t i) then some i else next

-- `pci::Device(bus, dev, func, param.header_type)`
abbrev pub opened : ℕ → ℕ → ℕ → ℕ → Device
opened bus dev func header_type = record {
  bus = u8 bus;
  dev = u8 dev;
  func = u8 func;
  header_type = header_type;
}

-- `sscanf(argv[1], "%02x:%02x.%02x", …)` of the C library: the three numbers if it returns 3.
abbrev pub Sscanf : Type 0
Sscanf = List ℕ → Option (ℕ × ℕ × ℕ)

module _ {S : Type 0} where
  -- The loop of `Echo` from argument `i` on.
  unfoldable pub echo_rest : List (List ℕ) → ℕ → ℕ → Run S (Unit {0})
  echo_rest argv zero i = pure tt
  echo_rest argv (suc rounds) i = do
    print (Printed.char b' ')
    print (Printed.text (argument argv i))
    echo_rest argv rounds (i + 1)

  unfoldable pub echo : ℕ → List (List ℕ) → Run S (Unit {0})
  unfolding echo_rest
  echo argc argv = do
    if ltb 1 argc then print (Printed.text (argument argv 1)) else pure tt
    echo_rest argv (argc - 2) 2
    print (Printed.char 0x0a)

  abbrev print_device : ℕ → Run S (Unit {0})
  print_device i w = print (Printed.device_line (device_at w.devices i)) w

  -- The loop of `Lspci` over the table from index `i` on.
  unfoldable pub print_devices : ℕ → ℕ → Run S (Unit {0})
  print_devices zero i = pure tt
  print_devices (suc rounds) i = do print_device i; print_devices rounds (i + 1)

module _ (io : Ports) where
  open io use {State}

  -- `ScanAllBus` with the callback on the table.
  unfoldable pub scan_into_table : ℕ → Run State (Unit {0})
  unfolding store_device
  scan_into_table fuel w = elim (scan_all_bus io store_device fuel (some w.devices, w.ports)) [
    | none ↦ Outcome.out_of_fuel
    | some (none, s) ↦ Outcome.out_of_bounds
    | some (some t, s) ↦ Outcome.done (tt, record w { devices = t; ports = s })
  ]

  -- The beginning of `Lspci` and of `Xhci`.
  unfoldable pub find_devices : ℕ → Run State (Unit {0})
  unfolding scan_into_table
  find_devices fuel w = if w.devices.num_pci_devices == 0 then scan_into_table fuel w else pure tt w

  module _ (device : Device) where
    unfoldable pub print_status : Run State (Unit {0})
    print_status = do
      status_command ← at_ports (read_conf_reg io device 0x04)
      print (
          Printed.status_command_line (bit_and (status_command >>> 16) 0xffff)
            (bit_and status_command 0xffff))

    -- The loop over the base address registers from `i` on.
    unfoldable pub print_bars : ℕ → ℕ → Run State (Unit {0})
    print_bars zero i = pure tt
    print_bars (suc rounds) i = do
      bar ← at_ports (read_conf_reg io device (0x10 + 4 * i))
      print (Printed.bar_line i bar)
      print_bars rounds (i + 1)

    unfoldable pub print_capability : ℕ → Capability → Run State (Unit {0})
    print_capability cap_ptr cap =
        if cap.cap_id == 0x10
        then (do
          print Printed.pcie_line
          pcie_cap ← at_ports (read_pcie_capability_structure io device cap_ptr)
          print (Printed.pcie_cap_line pcie_cap))
        else print (Printed.cap_id_line cap.cap_id)

    -- The loop over the capabilities.
    unfoldable pub print_capabilities : ℕ → ℕ → Run State (Unit {0})
    unfolding print_capability
    print_capabilities zero cap_ptr = λ _. Outcome.out_of_fuel
    print_capabilities (suc fuel) cap_ptr =
        let rest = print_capabilities fuel in
        if cap_ptr == 0 then pure tt else (do
          cap ← at_ports (read_capability_structure io device cap_ptr)
          print_capability cap_ptr cap
          rest cap.next_ptr)

    -- What `Lspci` prints for one device behind its line.
    unfoldable pub print_details : ℕ → Run State (Unit {0})
    unfolding print_status print_bars print_capabilities
    print_details fuel = do
      print_status
      print_bars 6 0
      map_size ← at_ports (calc_bar_map_size io device 0)
      print (Printed.bar_map_size_line map_size.value)
      cap_ptr ← at_ports (read_capability_pointer io device)
      print_capabilities fuel cap_ptr

  -- `Lspci` with an argument.
  unfoldable pub print_specified : Sscanf → ℕ → List ℕ → Run State (Unit {0})
  unfolding find_index print_details
  print_specified sscanf fuel arg w = elim (sscanf arg) [
    | none ↦ print (Printed.invalid_specifier arg) w
    | some (bus, dev, func) ↦
        elim (find_index (is_at bus dev func) w.devices w.devices.num_pci_devices 0) [
          | none ↦ print (Printed.no_such_device arg) w
          | some i ↦
              let param = device_at w.devices i in
              (do
                print (Printed.device_line param)
                print_details (opened bus dev func param.header_type) fuel)
                w
        ]
  ]

  unfoldable pub print_all : Run State (Unit {0})
  unfolding print_devices
  print_all w = print_devices w.devices.num_pci_devices 0 w

  -- `fuel` bounds the nesting of bridges, and the number of capabilities of one device.
  unfoldable pub lspci : Sscanf → ℕ → ℕ → List (List ℕ) → Run State (Unit {0})
  unfolding find_devices print_specified print_all
  lspci sscanf fuel argc argv = do
    find_devices fuel
    if argc == 1
        then print_all
        else (if argc == 2 then print_specified sscanf fuel (argument argv 1) else pure tt)

-- `BootParam`, in the part that `Mmap` reads.
pub record MemoryMap : Type 0 where
  pub memory_map : ℕ
  pub memory_map_size : ℕ
  pub memory_descriptor_size : ℕ

-- `EFI_MEMORY_DESCRIPTOR` of the UEFI headers: where its fields are read.
pub record Descriptor : Type 0 where
  pub physical_start : Memory → ℕ → ℕ
  pub number_of_pages : Memory → ℕ → ℕ

module _ {S : Type 0} (efi : Descriptor) (param : MemoryMap) where
  abbrev pub print_pages : ℕ → Run S (Unit {0})
  print_pages desc w =
      print
        (Printed.pages_line (efi.physical_start w.memory desc) (efi.number_of_pages w.memory desc))
        w

  -- The loop of `Mmap` from offset `it` on.
  unfoldable pub mmap_from : ℕ → ℕ → Run S (Unit {0})
  mmap_from zero it = λ _. Outcome.out_of_fuel
  mmap_from (suc fuel) it =
      let rest = mmap_from fuel in
      if ltb it param.memory_map_size
      then (do
        print_pages (u64 (param.memory_map + it))
        rest (u64 (it + param.memory_descriptor_size)))
      else pure tt

  unfoldable pub mmap : ℕ → ℕ → List (List ℕ) → Run S (Unit {0})
  unfolding mmap_from
  mmap fuel argc argv = mmap_from fuel 0
