-- ===== src/Xhci.antt =====
-- xhci.hpp, xhci.cpp: the registers of an xHCI controller, in memory from `mmio_base` on.
pub mod Contexts
pub mod Start
pub mod Fields
use seccamp_os.Base.{ℕ, ◌+◌, ◌*◌, ◌/◌, ◌%◌, ◌^◌, Memory, bit_and, bit_or, ◌>>>◌, u8, u16, u32, u64}
use seccamp_os.Bitutil.{clear_bits}
use seccamp_os.Register.{read_32, write_32, read_access32}

-- The offsets in `CapabilityRegisters`.
abbrev pub hcsparams1 : ℕ
hcsparams1 = 0x04

abbrev pub hccparams1 : ℕ
hccparams1 = 0x10

abbrev pub dboff : ℕ
dboff = 0x14

abbrev pub rtsoff : ℕ
rtsoff = 0x18

-- The offsets in `OperationalRegisters`.
abbrev pub usbcmd : ℕ
usbcmd = 0x00

abbrev pub usbsts : ℕ
usbsts = 0x04

abbrev pub crcr : ℕ
crcr = 0x18

abbrev pub dcbaap : ℕ
dcbaap = 0x30

abbrev pub config : ℕ
config = 0x38

-- `ReadCAPLENGTH` and `ReadHCIVERSION` of the capability registers at `cap`.
unfoldable pub read_caplength : ℕ → Memory → ℕ
read_caplength cap m = u8 (bit_and (read_32 m cap) 0xff)

unfoldable pub read_hciversion : ℕ → Memory → ℕ
read_hciversion cap m = u16 (read_32 m cap >>> 16)

-- `ArrayWrapper<T>` for a `T` of `width` bytes.
pub record ArrayWrapper : Type 0 where
  pub width : ℕ
  pub array : ℕ
  pub size : ℕ

-- `end()`, and the address of `operator []`.
abbrev pub end : ArrayWrapper → ℕ
end a = u64 (a.array + a.width * a.size)

abbrev pub element : ArrayWrapper → ℕ → ℕ
element a index = u64 (a.array + a.width * index)

pub record Controller : Type 0 where
  pub mmio_base : ℕ
  pub cap : ℕ
  pub op : ℕ

unfoldable pub controller : ℕ → Memory → Controller
unfolding read_caplength
controller mmio_base m = record {
  mmio_base = mmio_base;
  cap = mmio_base;
  op = u64 (mmio_base + read_caplength mmio_base m);
}

-- `Controller::Initialize`
unfoldable pub initialize : Controller → Memory → Memory
initialize c m = write_32 (u32 (bit_or (read_32 m (c.op + usbcmd)) 1)) m (c.op + usbcmd)

unfoldable pub port_reg_sets : Controller → Memory → ArrayWrapper
port_reg_sets c m = record {
  width = 16;
  array = u64 (c.op + 0x400);
  size = read_32 m (c.cap + hcsparams1) >>> 24;
}

unfoldable pub interrupter_reg_sets : Controller → Memory → ArrayWrapper
interrupter_reg_sets c m = record {
  width = 32;
  array = u64 (c.mmio_base + clear_bits 32 (read_32 m (c.cap + rtsoff)) 0x1f + 0x20);
  size = read_32 m (c.cap + hcsparams1) >>> 24;
}

unfoldable pub doorbell_registers : Controller → Memory → ArrayWrapper
doorbell_registers c m = record {
  width = 4;
  array = u64 (c.mmio_base + clear_bits 32 (read_32 m (c.cap + dboff)) 0x3);
  size = 256;
}

unfoldable pub device_context_addresses : Controller → Memory → ArrayWrapper
device_context_addresses c m = record {
  width = 8;
  array = clear_bits 64 (read_access32 m (c.op + dcbaap)) 0x3f;
  size = bit_and (read_32 m (c.op + config)) 0xff;
}

unfoldable pub max_slots : Controller → Memory → ℕ
max_slots c m = u8 (bit_and (read_32 m (c.cap + hcsparams1)) 0xff)

unfoldable pub max_slots_enabled : Controller → Memory → ℕ
max_slots_enabled c m = u8 (bit_and (read_32 m (c.op + config)) 0xff)

unfoldable pub max_ports : Controller → Memory → ℕ
max_ports c m = u8 (read_32 m (c.cap + hcsparams1) >>> 24)
