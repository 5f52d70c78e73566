-- ===== src/Command/Report.antt =====
-- command.cpp: what Lspci prints for one device, read off the configuration registers `reg`
-- without ports.
use seccamp_os.Base.{
  ℕ, zero, suc, ◌+◌, ◌*◌, ◌≡◌, ◌≢◌, List, [], ◌∷◌, ◌++◌, ◌==◌, bit_and, if◌then◌else◌, ◌>>>◌, u8,
  u16,
}
use seccamp_os.Pci.{make_address}
use seccamp_os.Pci.Device.{Device, Capability, PcieCapability}
use seccamp_os.Command.Effects.{Printed}

module _ (reg : ℕ → ℕ) (device : Device) where
  -- The register at an offset in the configuration space of the device.
  abbrev pub conf : ℕ → ℕ
  conf addr = reg (make_address device.bus device.dev device.func addr)

  abbrev pub status_line : Printed
  status_line =
      Printed.status_command_line (bit_and (conf 0x04 >>> 16) 0xffff) (bit_and (conf 0x04) 0xffff)

  -- The lines of `count` base address registers from `i` on.
  abbrev pub bar_lines : ℕ → ℕ → List Printed
  bar_lines zero i = []
  bar_lines (suc count) i = Printed.bar_line i (conf (0x10 + 4 * i)) ∷ bar_lines count (i + 1)

  -- The head of the capability at an offset.
  abbrev pub capability_at : ℕ → Capability
  capability_at p = record {
    cap_id = u8 (bit_and (conf p) 0xff);
    next_ptr = u8 (bit_and (conf p >>> 8) 0xff);
  }

  abbrev pub upper : ℕ → ℕ
  upper value = u16 (bit_and (value >>> 16) 0xffff)

  abbrev pub lower : ℕ → ℕ
  lower value = u16 (bit_and value 0xffff)

  -- The PCI Express capability at an offset.
  abbrev pub pcie_at : ℕ → PcieCapability
  pcie_at p = record {
    pcie_cap = upper (conf p);
    device_cap = conf (u8 (p + 4));
    device_control = lower (conf (u8 (p + 8)));
    device_status = upper (conf (u8 (p + 8)));
    link_cap = conf (u8 (p + 12));
    link_control = lower (conf (u8 (p + 16)));
    link_status = upper (conf (u8 (p + 16)));
    slot_cap = conf (u8 (p + 20));
    slot_control = lower (conf (u8 (p + 24)));
    slot_status = upper (conf (u8 (p + 24)));
    root_control = lower (conf (u8 (p + 28)));
    root_status = conf (u8 (p + 32));
  }

  abbrev pub capability_lines : ℕ → List Printed
  capability_lines p =
      if (capability_at p).cap_id == 0x10
      then Printed.pcie_line ∷ Printed.pcie_cap_line (pcie_at p) ∷ []
      else Printed.cap_id_line (capability_at p).cap_id ∷ []

  -- From the pointer `ptr` on, the capabilities stand at the offsets of the list, and the last one
  -- has a pointer of 0.
  abbrev pub IsChain : ℕ → List ℕ → Type 0
  IsChain ptr [] = ptr ≡ 0
  IsChain ptr (p ∷ ps) = (ptr ≡ p) × (p ≢ 0) × IsChain (capability_at p).next_ptr ps

  -- The lines for capabilities at these offsets.
  abbrev pub chain_lines : List ℕ → List Printed
  chain_lines [] = []
  chain_lines (p ∷ ps) = capability_lines p ++ chain_lines ps

  -- All lines for a device, but the first.
  abbrev pub detail_lines : ℕ → List ℕ → List Printed
  detail_lines size ps =
      status_line ∷ (bar_lines 6 0 ++ (Printed.bar_map_size_line size ∷ chain_lines ps))
