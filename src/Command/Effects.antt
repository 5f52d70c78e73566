-- ===== src/Command/Effects.antt =====
-- command.cpp: what a command works on, and how it can end. `printf`, `fputs` and `fputc` of the C
-- library are kept as what they are called with, in order.
use seccamp_os.Base.{ℕ, ◌≡◌, ap, List, [], ◌∷◌, ◌++◌, Memory}
use seccamp_os.Base.State.{Action}
use seccamp_os.Pci.Device.{PcieCapability}
use seccamp_os.Pci.Scan.{ScanCallbackParam}

-- The format strings of `Xhci`.
pub data UsbLine : Type 0 where
  -- "found an xHCI device at %02x:%02x.%02x\n"
  found : UsbLine
  -- "no xHCI device\n"
  no_device : UsbLine
  -- "CAPLENGTH=%02x HCIVERSION=%04x DBOFF=%08x RTSOFF=%08x HCSPARAMS1=%08x HCCPARAMS1=%08x\n"
  capability_registers : UsbLine
  -- "USBCMD=%08x USBSTS=%08x DCBAAP=%016lx CONFIG=%08x\n"
  operational_registers : UsbLine
  -- "Write to CRCR cr_buf=%016lx\n"
  crcr_written : UsbLine
  -- "ER has at least one element\n"
  has_element : UsbLine
  -- "ER has no element\n"
  has_no_element : UsbLine
  -- "%08x %08x %08x %08x (type=%u)\n"
  event : UsbLine
  -- "CCS+CSC: "
  port_status : UsbLine
  -- "SEGM TABLE Base=%016lx Size=%lu\n"
  segment_table : UsbLine
  -- "SEGM TABLE %u: Base=%016lx Size=%u\n"
  segment : UsbLine
  -- "ERSTSZ=%u ERSTBA=%016lx ERDP=%016lx\n"
  interrupter : UsbLine
  -- "DevCtx %u: Hub=%d, #EP=%d, slot state %02x, usb dev addr %02x\n"
  device_context : UsbLine
  -- "EP %u: state %u, type %u, MaxBSiz %u, MaxPSiz %u\n"
  endpoint : UsbLine
  -- "Put a command to %p\n"
  command_put : UsbLine
  -- "writing doorbell. R/S=%u, CRR=%u\n"
  doorbell_before : UsbLine
  -- "doorbell written. R/S=%u, CRR=%u\n"
  doorbell_after : UsbLine
  -- "CRCR %016lx\n"
  crcr : UsbLine
  -- "CRCR.CRR got to be 1. R/S=%u, CRR=%u\n"
  crr_set : UsbLine
  -- "waiting completion event (c=%d)\n"
  waiting : UsbLine
  -- "completed! TRB type=%u ptr=%016lx\n"
  completed : UsbLine

-- One call of an output function, by its format string.
pub data Printed : Type 0 where
  text : (chars : List ℕ) → Printed
  char : (ch : ℕ) → Printed
  -- "%02x:%02x.%02x DEVICE %04x, VENDOR %04x CLASS %02x.%02x.%02x HT %02x\n"
  device_line : (param : ScanCallbackParam) → Printed
  -- "Invalid device specifier: %s\n"
  invalid_specifier : (argument : List ℕ) → Printed
  -- "No such device: %s\n"
  no_such_device : (argument : List ℕ) → Printed
  -- "status %04x, command %04x\n"
  status_command_line : (status command : ℕ) → Printed
  -- "bar %d: %08x\n"
  bar_line : (i bar : ℕ) → Printed
  -- "bar map size: %lx\n"
  bar_map_size_line : (size : ℕ) → Printed
  -- "Cap ID 0x10 (PCI Express)\n"
  pcie_line : Printed
  -- " PCIeCap: %04x, DevCap: %08x, DevCon: %04x, DevStat: %04x\n"
  pcie_cap_line : (cap : PcieCapability) → Printed
  -- "Cap ID %02x\n"
  cap_id_line : (cap_id : ℕ) → Printed
  -- "%08llx: %05llx pages\n"
  pages_line : (physical_start number_of_pages : ℕ) → Printed
  usb_line : (line : UsbLine) (values : List ℕ) → Printed
  -- "no such command: %s\n"
  no_such_command : (name : List ℕ) → Printed

-- The globals `pci_devices` and `num_pci_devices`.
pub record DeviceTable : Type 0 where
  pub pci_devices : List ScanCallbackParam
  pub num_pci_devices : ℕ

-- `S` is the state behind the ports.
pub record Machine (S : Type 0) : Type 0 where
  pub devices : DeviceTable
  pub ports : S
  pub memory : Memory
  pub printed : List Printed

pub data Outcome (A : Type 0) : Type 0 where
  done : (a : A) → Outcome A
  -- A write outside an array.
  out_of_bounds : Outcome A
  out_of_fuel : Outcome A

abbrev pub Run : Type 0 → Type 0 → Type 0
Run S A = Machine S → Outcome (A × Machine S)

abbrev pub pure : {S A : Type 0} → A → Run S A
pure a w = Outcome.done (a, w)

infixl 5 ◌>>=◌ ◌>>◌
abbrev pub ◌>>=◌ : {S A B : Type 0} → Run S A → (A → Run S B) → Run S B
◌>>=◌ f k w = elim (f w) [
  | Outcome.done (a, w') ↦ k a w'
  | Outcome.out_of_bounds ↦ Outcome.out_of_bounds
  | Outcome.out_of_fuel ↦ Outcome.out_of_fuel
]

abbrev pub ◌>>◌ : {S B : Type 0} → Run S (Unit {0}) → Run S B → Run S B
f >> k = f >>= λ _. k

-- What is done at the ports.
abbrev pub at_ports : {S A : Type 0} → Action S A → Run S A
at_ports f w = let (a, s) = f w.ports in Outcome.done (a, record w { ports = s })

abbrev pub print : {S : Type 0} → Printed → Run S (Unit {0})
print p w = Outcome.done (tt, record w { printed = w.printed ++ (p ∷ []) })

pub bind_done :
    {S A B : Type 0} (f : Run S A) (k : A → Run S B) (w : Machine S) {a : A} {w' : Machine S}
    → f w ≡ Outcome.done (a, w')
    → (f >>= k) w ≡ k a w'
bind_done f k w e =
    ap
      (λ o. elim o [
        | Outcome.done (b, v) ↦ k b v
        | Outcome.out_of_bounds ↦ Outcome.out_of_bounds
        | Outcome.out_of_fuel ↦ Outcome.out_of_fuel
      ])
      e

pub bind_bounds :
    {S A B : Type 0} (f : Run S A) (k : A → Run S B) (w : Machine S)
    → f w ≡ Outcome.out_of_bounds
    → (f >>= k) w ≡ Outcome.out_of_bounds
bind_bounds f k w e =
    ap
      (λ o. elim o [
        | Outcome.done (b, v) ↦ k b v
        | Outcome.out_of_bounds ↦ Outcome.out_of_bounds
        | Outcome.out_of_fuel ↦ Outcome.out_of_fuel
      ])
      e
