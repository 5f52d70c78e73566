-- ===== src/Pci.antt =====
-- pci.hpp, pci.cpp: configuration space through the ports 0xcf8 and 0xcfc.
pub mod Device
pub mod Scan
pub mod Laws
use seccamp_os.Base.{
  ℕ, ◌+◌, ◌*◌, ◌/◌, ◌%◌, ◌^◌, Bool, bit_and, bit_or, ◌==◌, ◌<<<◌, ◌>>>◌, u8, u16, u32,
}
use seccamp_os.Base.State.{Action, pure, modify, ◌>>=◌, ◌>>◌}
use seccamp_os.Ports.{Ports}

abbrev pub config_address : ℕ
config_address = 0x0cf8

abbrev pub config_data : ℕ
config_data = 0x0cfc

unfoldable pub make_address : ℕ → ℕ → ℕ → ℕ → ℕ
make_address bus dev func addr =
    bit_or
      (bit_or (bit_or (bit_or 0x80000000 (u32 (bus <<< 16))) (u32 (dev <<< 11))) (u32 (func <<< 8)))
      (bit_and addr 0xfc)

unfoldable pub is_single_function_device : ℕ → Bool
is_single_function_device header_type = bit_and header_type 0x80 == 0

module _ (io : Ports) where
  open io use {State, out32, in32}

  unfoldable pub write_address : ℕ → Action State (Unit {0})
  write_address address = modify (out32 config_address address)

  -- `WriteData(value)`
  unfoldable pub write_value : ℕ → Action State (Unit {0})
  write_value value = modify (out32 config_data value)

  -- `WriteData(address, value)`
  unfoldable pub write_data : ℕ → ℕ → Action State (Unit {0})
  unfolding write_address write_value
  write_data address value = do write_address address; write_value value

  -- `ReadData()`
  unfoldable pub read_value : Action State ℕ
  read_value s = in32 config_data s

  -- `ReadData(address)`
  unfoldable pub read_data : ℕ → Action State ℕ
  unfolding write_address read_value
  read_data address = do write_address address; read_value

  unfoldable pub get_vendor_id : ℕ → ℕ → ℕ → Action State ℕ
  get_vendor_id bus dev func = do
    value ← read_data (make_address bus dev func 0x00)
    pure (u16 (bit_and value 0xffff))

  unfoldable pub get_device_id : ℕ → ℕ → ℕ → Action State ℕ
  get_device_id bus dev func = do
    value ← read_data (make_address bus dev func 0x00)
    pure (u16 (value >>> 16))

  unfoldable pub get_header_type : ℕ → ℕ → ℕ → Action State ℕ
  get_header_type bus dev func = do
    value ← read_data (make_address bus dev func 0x0c)
    pure (u8 (bit_and (value >>> 16) 0xff))

  unfoldable pub get_class_id : ℕ → ℕ → ℕ → Action State ℕ
  get_class_id bus dev func = read_data (make_address bus dev func 0x08)

  unfoldable pub get_bus_numbers : ℕ → ℕ → ℕ → Action State ℕ
  get_bus_numbers bus dev func = read_data (make_address bus dev func 0x18)
