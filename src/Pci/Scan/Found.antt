-- ===== src/Pci/Scan/Found.antt =====
-- pci.cpp: the functions behind a bus, read off the configuration registers `reg` without ports.
use seccamp_os.Base.{
  ℕ, zero, suc, ◌+◌, ◌<◌, ◌≡◌, Bool, true, List, [], ◌∷◌, ◌++◌, bit_and, ◌!=◌, if◌then◌else◌, ◌>>>◌,
  u8, u16,
}
use seccamp_os.Pci.{make_address, is_single_function_device}
use seccamp_os.Pci.Scan.{ScanCallbackParam, is_bridge}

abbrev pub range : ℕ → ℕ → List ℕ
range start zero = []
range start (suc n) = start ∷ range (start + 1) n

abbrev pub filter : (ℕ → Bool) → List ℕ → List ℕ
filter test [] = []
filter test (x ∷ xs) = if test x then x ∷ filter test xs else filter test xs

abbrev pub concat_map : {A : Type 0} → (ℕ → List A) → List ℕ → List A
concat_map f [] = []
concat_map f (x ∷ xs) = f x ++ concat_map f xs

-- The callback run on each parameter in order.
abbrev pub run_callback :
    {G : Type 0} → (ScanCallbackParam → G → G) → List ScanCallbackParam → G → G
run_callback callback [] g = g
run_callback callback (p ∷ ps) g = run_callback callback ps (callback p g)

module _ (reg : ℕ → ℕ) where
  abbrev pub vendor_at : ℕ → ℕ → ℕ → ℕ
  vendor_at bus dev func = u16 (bit_and (reg (make_address bus dev func 0x00)) 0xffff)

  abbrev pub is_present : ℕ → ℕ → ℕ → Bool
  is_present bus dev func = vendor_at bus dev func != 0xffff

  abbrev pub header_at : ℕ → ℕ → ℕ → ℕ
  header_at bus dev func = u8 (bit_and (reg (make_address bus dev func 0x0c) >>> 16) 0xff)

  abbrev pub param_at : ℕ → ℕ → ℕ → ScanCallbackParam
  param_at bus dev func = record {
    bus = bus;
    dev = dev;
    func = func;
    device_id = u16 (reg (make_address bus dev func 0x00) >>> 16);
    vendor_id = vendor_at bus dev func;
    base_class = u8 (bit_and (reg (make_address bus dev func 0x08) >>> 24) 0xff);
    sub_class = u8 (bit_and (reg (make_address bus dev func 0x08) >>> 16) 0xff);
    interface = u8 (bit_and (reg (make_address bus dev func 0x08) >>> 8) 0xff);
    header_type = header_at bus dev func;
  }

  -- The bus behind a bridge.
  abbrev pub secondary : ℕ → ℕ → ℕ → ℕ
  secondary bus dev func = u8 (bit_and (reg (make_address bus dev func 0x18) >>> 8) 0xff)

  -- The functions that a device has: none without function 0, and no other unless its header says
  -- that it has several.
  abbrev pub functions_of : ℕ → ℕ → List ℕ
  functions_of bus dev =
      if is_present bus dev 0
      then (if is_single_function_device (header_at bus dev 0)
          then 0 ∷ []
          else filter (is_present bus dev) (range 0 8))
      else []

  -- What a function stands for, given what stands behind each bus.
  abbrev pub with_children : (ℕ → List ScanCallbackParam) → ℕ → ℕ → ℕ → List ScanCallbackParam
  with_children behind bus dev func =
      param_at bus dev func
      ∷ (if is_bridge (param_at bus dev func) then behind (secondary bus dev func) else [])

  abbrev pub device_tree : (ℕ → List ScanCallbackParam) → ℕ → ℕ → List ScanCallbackParam
  device_tree behind bus dev = concat_map (with_children behind bus dev) (functions_of bus dev)

  -- All functions on a bus and behind its bridges, each bridge before what is behind it, for
  -- bridges nested less than `depth` deep.
  abbrev pub bus_tree : ℕ → ℕ → List ScanCallbackParam
  bus_tree zero bus = []
  bus_tree (suc depth) bus = concat_map (device_tree (bus_tree depth) bus) (range 0 32)

  -- A bridge leads to a bus of a greater number, as the firmware numbers them.
  abbrev pub IsNumbered : Type 0
  IsNumbered =
      (bus dev func : ℕ)
      → bus < 256
      → dev < 32
      → func < 8
      → is_present bus dev func ≡ true
      → is_bridge (param_at bus dev func) ≡ true
      → bus < secondary bus dev func
