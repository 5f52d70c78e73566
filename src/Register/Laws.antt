-- ===== src/Register/Laws.antt =====
-- What is written to a register is read back from it.
use seccamp_os.Base.{
  ℕ, ◌+◌, ◌*◌, ◌/◌, ◌%◌, ◌^◌, ◌<◌, ◌≡◌, inl, arith, ◌∙◌, Memory, read32, read32-lt, bit_and, u32,
  u64, write32, read32-write32, read32-write32_away, bit_and-low, bit_or-low_high,
}
use seccamp_os.Register.{read_64, read_access32, write_access32}

-- The two dwords of a 64-bit object after both are written.
halves :
    (m : Memory) (addr lo hi : ℕ)
    → (read32 (write32 (write32 m addr lo) (addr + 4) hi) addr ≡ lo % 2 ^ 32)
      × (read32 (write32 (write32 m addr lo) (addr + 4) hi) (addr + 4) ≡ hi % 2 ^ 32)
halves m addr lo hi = (
  read32-write32_away (write32 m addr lo) (addr + 4) hi addr (inl (omega arith))
      ∙ read32-write32 m addr lo,
  read32-write32 (write32 m addr lo) (addr + 4) hi,
)

-- `MemMapRegister64Access32::Read` of 32-bit halves is the 64-bit object at the address.
pub read_access32-eq : (m : Memory) (addr : ℕ) → read_access32 m addr ≡ read_64 m addr
unfolding read_access32 read_64
read_access32-eq m addr =
    let start : addr + 4 * 0 ≡ addr = omega arith in
    let low : u64 (read32 m addr) ≡ read32 m addr = omega (arith, read32-lt m addr) in
    let high : u64 (u64 (read32 m (addr + 4)) * 2 ^ 32) ≡ read32 m (addr + 4) * 2 ^ 32 =
      omega (arith, read32-lt m (addr + 4)) in
    rw
      (
        start,
        low,
        high,
        bit_or-low_high 32 (read32 m (addr + 4)) (read32 m addr) (read32-lt m addr),
      )
      (omega arith)

-- A 64-bit register that is written by 32-bit halves reads back the value of 64 bits that was
-- written, by halves as well as as a whole.
pub read-write_access32 :
    (value : ℕ) (m : Memory) (addr : ℕ)
    → value < 2 ^ 64
    → (read_access32 (write_access32 value m addr) addr ≡ value)
      × (read_64 (write_access32 value m addr) addr ≡ value)
read-write_access32 value m addr h = (read_access32-eq _ addr ∙ whole, whole)
  where
    whole : read_64 (write_access32 value m addr) addr ≡ value
    whole =
        let (lo, hi) = halves m addr (bit_and value 0xffffffff) (u32 (value / 2 ^ 32)) in
        unfold read_64 write_access32 in omega (arith, lo, hi, bit_and-low 32 value)
