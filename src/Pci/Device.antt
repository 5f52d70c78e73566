-- ===== src/Pci/Device.antt =====
-- pci.hpp, pci.cpp: `Device`, base address registers and the capability structures.
pub mod Masks
pub mod Bars
pub mod WideBars
use seccamp_os.Base.{
  ◌-◌, ℕ, zero, suc, ◌+◌, ◌*◌, ◌/◌, ◌%◌, ◌^◌, Bool, true, false, not, bit_and, bit_or, ◌==◌, leb,
  if◌then◌else◌, ◌<<<◌, ◌>>>◌, u8, u16, u32, u64,
}
use seccamp_os.Base.State.{Action, pure, ◌>>=◌, ◌>>◌}
use seccamp_os.ErrorCode.{Error, WithError, success, index_out_of_range, is_error}
use seccamp_os.Bitutil.{clear_bits, bit_scan_forward}
use seccamp_os.Ports.{Ports}
use seccamp_os.Pci.{make_address, read_data, write_data}

pub record Device : Type 0 where
  pub bus : ℕ
  pub dev : ℕ
  pub func : ℕ
  pub header_type : ℕ

pub record Capability : Type 0 where
  pub cap_id : ℕ
  pub next_ptr : ℕ

pub record PcieCapability : Type 0 where
  pub pcie_cap : ℕ
  pub device_cap : ℕ
  pub device_control : ℕ
  pub device_status : ℕ
  pub link_cap : ℕ
  pub link_control : ℕ
  pub link_status : ℕ
  pub slot_cap : ℕ
  pub slot_control : ℕ
  pub slot_status : ℕ
  pub root_control : ℕ
  pub root_status : ℕ

unfoldable pub calc_bar_address : ℕ → ℕ
calc_bar_address bar_index = u8 (u32 (0x10 + u32 (4 * bar_index)))

-- The constructors of `NormalDevice` and `PciPciBridge`.
abbrev pub normal_device : ℕ → ℕ → ℕ → Device
normal_device bus dev func = record { bus = bus; dev = dev; func = func; header_type = 0 }

abbrev pub pci_pci_bridge : ℕ → ℕ → ℕ → Device
pci_pci_bridge bus dev func = record { bus = bus; dev = dev; func = func; header_type = 1 }

-- The size for the value that a register reads back after all ones.
unfoldable pub size_of_mask : ℕ → WithError ℕ
size_of_mask temp_bar_val =
    if temp_bar_val == 0
    then record { value = 0; error = success }
    else record { value = u64 (1 <<< bit_scan_forward temp_bar_val); error = success }

module _ (io : Ports) (device : Device) where
  open io use {State}

  unfoldable pub read_conf_reg : ℕ → Action State ℕ
  read_conf_reg addr = read_data io (make_address device.bus device.dev device.func addr)

  unfoldable pub write_conf_reg : ℕ → ℕ → Action State (Unit {0})
  write_conf_reg addr value =
      write_data io (make_address device.bus device.dev device.func addr) value

  unfoldable pub read_capability_pointer : Action State ℕ
  read_capability_pointer = do value ← read_conf_reg 0x34; pure (u8 value)

  unfoldable pub read_capability_structure : ℕ → Action State Capability
  read_capability_structure addr = do
    cap ← read_conf_reg addr
    pure (record { cap_id = u8 (bit_and cap 0xff); next_ptr = u8 (bit_and (cap >>> 8) 0xff) })

  -- The arguments of `ReadConfReg` are cut to `uint8_t`.
  unfoldable pub read_bar : ℕ → Action State (WithError ℕ)
  read_bar bar_index =
      if leb 6 bar_index then pure (record { value = 0; error = index_out_of_range }) else (do
        let addr = calc_bar_address bar_index
        bar ← read_conf_reg addr
        if bit_and bar 4 == 0
            then pure (record { value = bar; error = success })
            else (if leb 5 bar_index
                then pure (record { value = 0; error = index_out_of_range })
                else (do
                  bar_upper ← read_conf_reg (u8 (addr + 4))
                  pure (record { value = bit_or bar (u64 (bar_upper <<< 32)); error = success }))))

  unfoldable pub write_bar32 : ℕ → ℕ → Action State Error
  write_bar32 bar_index value =
      if leb 6 bar_index
      then pure index_out_of_range
      else (do write_conf_reg (calc_bar_address bar_index) value; pure success)

  unfoldable pub write_bar64 : ℕ → ℕ → Action State Error
  write_bar64 bar_index value = if leb 5 bar_index then pure index_out_of_range else (do
    let addr = calc_bar_address bar_index
    write_conf_reg addr (u32 (bit_and value 0xffffffff))
    write_conf_reg (u8 (addr + 4)) (u32 (bit_and (value >>> 32) 0xffffffff))
    pure success)

  -- `bar_is_64bits ? WriteBar64(…) : WriteBar32(…)`; the 32-bit write takes the low half.
  unfoldable pub write_bar : Bool → ℕ → ℕ → Action State Error
  write_bar true bar_index value = write_bar64 bar_index value
  write_bar false bar_index value = write_bar32 bar_index (u32 value)

  unfoldable pub calc_bar_map_size : ℕ → Action State (WithError ℕ)
  calc_bar_map_size bar_index = do
    bar ← read_bar bar_index
    if is_error bar.error then pure (record { value = 0; error = bar.error }) else (do
      let bar_is_64bits = not (bit_and bar.value 4 == 0)
      _ ← write_bar bar_is_64bits bar_index (2 ^ 64 - 1)
      temp_bar ← read_bar bar_index
      _ ← write_bar bar_is_64bits bar_index bar.value
      pure (size_of_mask (clear_bits 64 temp_bar.value 0xf)))

  unfoldable pub read_pcie_capability_structure : ℕ → Action State PcieCapability
  read_pcie_capability_structure addr = do
    reg ← read_conf_reg addr
    device_cap ← read_conf_reg (u8 (addr + 4))
    reg2 ← read_conf_reg (u8 (addr + 8))
    link_cap ← read_conf_reg (u8 (addr + 12))
    reg4 ← read_conf_reg (u8 (addr + 16))
    slot_cap ← read_conf_reg (u8 (addr + 20))
    reg6 ← read_conf_reg (u8 (addr + 24))
    reg7 ← read_conf_reg (u8 (addr + 28))
    root_status ← read_conf_reg (u8 (addr + 32))
    pure (record {
      pcie_cap = u16 (bit_and (reg >>> 16) 0xffff);
      device_cap = device_cap;
      device_control = u16 (bit_and reg2 0xffff);
      device_status = u16 (bit_and (reg2 >>> 16) 0xffff);
      link_cap = link_cap;
      link_control = u16 (bit_and reg4 0xffff);
      link_status = u16 (bit_and (reg4 >>> 16) 0xffff);
      slot_cap = slot_cap;
      slot_control = u16 (bit_and reg6 0xffff);
      slot_status = u16 (bit_and (reg6 >>> 16) 0xffff);
      root_control = u16 (bit_and reg7 0xffff);
      root_status = root_status;
    })
