-- ===== src/Register.antt =====
-- register.hpp: memory-mapped registers, given by their address.
pub mod Laws
use seccamp_os.Base.{
  ℕ, ◌+◌, ◌*◌, ◌/◌, ◌%◌, ◌^◌, bit_and, bit_or, Memory, read32, write32, ◌<<<◌, ◌>>>◌, u32, u64,
}

-- `MemMapRegister32`
unfoldable pub read_32 : Memory → ℕ → ℕ
read_32 m addr = read32 m addr

unfoldable pub write_32 : ℕ → Memory → ℕ → Memory
write_32 value m addr = write32 m addr value

-- `MemMapRegister64`: one 64-bit access.
unfoldable pub read_64 : Memory → ℕ → ℕ
read_64 m addr = read32 m addr + read32 m (addr + 4) * 2 ^ 32

unfoldable pub write_64 : ℕ → Memory → ℕ → Memory
write_64 value m addr = write32 (write32 m addr value) (addr + 4) (value / 2 ^ 32)

-- `MemMapRegister64Access32`: two 32-bit accesses.
unfoldable pub read_half : ℕ → Memory → ℕ → ℕ
read_half i m addr = u64 (read32 m (addr + 4 * i))

unfoldable pub read_access32 : Memory → ℕ → ℕ
unfolding read_half
read_access32 m addr = bit_or (read_half 0 m addr) (u64 (read_half 1 m addr <<< 32))

unfoldable pub write_access32 : ℕ → Memory → ℕ → Memory
write_access32 value m addr =
    write32 (write32 m addr (bit_and value 0xffffffff)) (addr + 4) (u32 (value >>> 32))
