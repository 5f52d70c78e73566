-- ===== src/Pci/Scan.antt =====
-- pci.cpp: `BusScanner` and `ScanAllBus`. A callback changes the globals of its caller, `G`; it
-- does not touch the ports. `none` means that bridges nest deeper than `fuel`.
pub mod Found
pub mod Loops
pub mod Complete
pub mod Host
use seccamp_os.Base.{
  ℕ, zero, suc, ◌+◌, ◌/◌, ◌%◌, ◌^◌, Bool, Option, none, some, bit_and, ◌==◌, ◌!=◌, ◌&&◌,
  if◌then◌else◌, ◌>>>◌, u8,
}
use seccamp_os.Base.State.{Action}
use seccamp_os.Ports.{Ports}
use seccamp_os.Pci.{
  get_vendor_id, get_device_id, get_header_type, get_class_id, get_bus_numbers,
  is_single_function_device,
}

pub record ScanCallbackParam : Type 0 where
  pub bus : ℕ
  pub dev : ℕ
  pub func : ℕ
  pub device_id : ℕ
  pub vendor_id : ℕ
  pub base_class : ℕ
  pub sub_class : ℕ
  pub interface : ℕ
  pub header_type : ℕ

abbrev pub is_bridge : ScanCallbackParam → Bool
is_bridge p = (bit_and p.header_type 0x7f == 1) && (p.base_class == 0x06) && (p.sub_class == 0x04)

-- Scanning goes on from the globals and the state of the ports, and may fail.
abbrev pub Scanner : Type 0 → Type 0 → Type 0
Scanner S G = G × S → Option (G × S)

infixl 5 ◌>=>◌
abbrev pub ◌>=>◌ : {S G : Type 0} → Scanner S G → Scanner S G → Scanner S G
◌>=>◌ f g s = elim (f s) [ none ↦ none | some s' ↦ g s' ]

module _ (io : Ports) {G : Type 0} (callback : ScanCallbackParam → G → G) where
  open io use {State}

  -- The fields of the callback's parameter, in the order in which they are read.
  unfoldable pub read_param : ℕ → ℕ → ℕ → ℕ → Action State ScanCallbackParam
  read_param bus dev func header_type s =
      let (class_id, s₁) = get_class_id io bus dev func s in
      let (device_id, s₂) = get_device_id io bus dev func s₁ in
      let (vendor_id, s₃) = get_vendor_id io bus dev func s₂ in
      (
        record {
          bus = bus;
          dev = dev;
          func = func;
          device_id = device_id;
          vendor_id = vendor_id;
          base_class = u8 (bit_and (class_id >>> 24) 0xff);
          sub_class = u8 (bit_and (class_id >>> 16) 0xff);
          interface = u8 (bit_and (class_id >>> 8) 0xff);
          header_type = header_type;
        },
        s₃,
      )

  -- `ScanFunc`, given the scan of a bus behind a bridge.
  unfoldable pub scan_func : (ℕ → Scanner State G) → ℕ → ℕ → ℕ → ℕ → Scanner State G
  scan_func scan bus dev func header_type (g, s) =
      let (param, s₁) = read_param bus dev func header_type s in
      let (bus_numbers, s₂) = get_bus_numbers io bus dev func s₁ in
      let behind = scan (u8 (bit_and (bus_numbers >>> 8) 0xff)) (callback param g, s₂) in
      if is_bridge param then behind else some (callback param g, s₁)

  -- One round of the loop of `ScanDev` over the functions.
  unfoldable pub scan_one : (ℕ → Scanner State G) → ℕ → ℕ → ℕ → Scanner State G
  scan_one scan bus dev func (g, s) =
      let (vendor_id, s₁) = get_vendor_id io bus dev func s in
      let (header_type, s₂) = get_header_type io bus dev func s₁ in
      let found = scan_func scan bus dev func header_type (g, s₂) in
      if vendor_id != 0xffff then found else some (g, s₁)

  -- The loop from function `func` on, with `rounds` left.
  unfoldable pub scan_functions : (ℕ → Scanner State G) → ℕ → ℕ → ℕ → ℕ → Scanner State G
  scan_functions scan bus dev zero func = some
  scan_functions scan bus dev (suc rounds) func =
      scan_one scan bus dev func >=> scan_functions scan bus dev rounds (func + 1)

  unfoldable pub scan_dev : (ℕ → Scanner State G) → ℕ → ℕ → Scanner State G
  scan_dev scan bus dev (g, s) =
      let (vendor_id, s₁) = get_vendor_id io bus dev 0 s in
      let (header_type, s₂) = get_header_type io bus dev 0 s₁ in
      let single = scan_func scan bus dev 0 header_type in
      let rest = (single >=> scan_functions scan bus dev 7 1) (g, s₂) in
      if vendor_id == 0xffff
      then some (g, s₁)
      else (if is_single_function_device header_type then single (g, s₂) else rest)

  -- The loop of `Scan` from device `dev` on.
  unfoldable pub scan_devices : (ℕ → Scanner State G) → ℕ → ℕ → ℕ → Scanner State G
  scan_devices scan bus zero dev = some
  scan_devices scan bus (suc rounds) dev =
      scan_dev scan bus dev >=> scan_devices scan bus rounds (dev + 1)

  unfoldable pub scan : ℕ → ℕ → Scanner State G
  scan zero bus s = none
  scan (suc fuel) bus s = scan_devices (scan fuel) bus 32 0 s

  -- The loop of `ScanAllBus` from function `func` on.
  unfoldable pub scan_host_functions : ℕ → ℕ → ℕ → Scanner State G
  scan_host_functions fuel zero func s = some s
  scan_host_functions fuel (suc rounds) func (g, s) =
      let (vendor_id, s₁) = get_vendor_id io 0 0 func s in
      let rest = (scan fuel func >=> scan_host_functions fuel rounds (func + 1)) (g, s₁) in
      if vendor_id != 0xffff then some (g, s₁) else rest

  unfoldable pub scan_all_bus : ℕ → Scanner State G
  scan_all_bus fuel (g, s) =
      let (header_type, s₁) = get_header_type io 0 0 0 s in
      let buses = scan_host_functions fuel 8 0 (g, s₁) in
      let one_bus = scan fuel 0 (g, s₁) in
      if is_single_function_device header_type then one_bus else buses
