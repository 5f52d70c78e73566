-- ===== src/Bitutil.antt =====
-- bitutil.hpp: bit scan, masks, and reads of multi-byte objects.
pub mod Laws
use seccamp_os.Base.{
  ℕ, zero, suc, ◌+◌, ◌-◌, ◌*◌, ◌/◌, ◌%◌, ◌^◌, Bool, bit_and, bit_or, ◌==◌, if◌then◌else◌, Memory,
  read8, read32, ◌<<<◌, u32,
}

-- The `int` -1.
abbrev pub minus_one : ℕ
minus_one = 2 ^ 32 - 1

-- `bsfq`: the index of the lowest bit that is set, among the `width` lowest.
pub bsf : ℕ → ℕ → ℕ
bsf zero value = 0
bsf (suc width) value = if value % 2 == 1 then 0 else suc (bsf width (value / 2))

unfoldable pub bit_scan_forward : ℕ → ℕ
unfolding bsf
bit_scan_forward value = if value == 0 then minus_one else u32 (bsf 64 value)

-- `ClearBits<T, U>` for a `T` of `width` bits: `value & ~static_cast<T>(bits_cleared)`.
unfoldable pub clear_bits : ℕ → ℕ → ℕ → ℕ
clear_bits width value bits_cleared = bit_and value (2 ^ width - 1 - bits_cleared % 2 ^ width)

-- The loop of `ReadByByte<T>` from index `i` on, with `rounds` left; a `T` has `size` bytes, so
-- the shift keeps the value below `256 ^ size`.
unfoldable pub read_loop : ℕ → Memory → ℕ → ℕ → ℕ → ℕ → ℕ
read_loop size p zero i result q = result
read_loop size p (suc rounds) i result q =
    read_loop size p rounds (i + 1)
      (bit_or ((result <<< 8) % 256 ^ size) (read8 p (q + (size - 1 - i)))) q

unfoldable pub read_by_byte : ℕ → Memory → ℕ → ℕ
unfolding read_loop
read_by_byte size p buf = read_loop size p size 0 0 buf

-- `Read64` reads one 64-bit object, lowest byte first.
unfoldable pub read_64 : Memory → ℕ → ℕ
read_64 m addr = read32 m addr + read32 m (addr + 4) * 2 ^ 32

unfoldable pub read_64_by_32 : Memory → ℕ → ℕ
read_64_by_32 m addr = bit_or (read32 m addr) (read32 m (addr + 4))
