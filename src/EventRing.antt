-- ===== src/EventRing.antt =====
-- xhci_er.hpp, xhci_trb.hpp: the event ring of an xHCI controller. The manager's registers, the
-- segment table and the TRBs lie in memory; `regs` is the address of the `InterrupterRegSet`.
pub mod Walk
pub mod Cleared
pub mod Start
use seccamp_os.Base.{
  ℕ, zero, suc, ◌+◌, ◌-◌, ◌*◌, ◌/◌, ◌%◌, ◌^◌, Bool, bit_and, Memory, read32, write8, ◌==◌,
  if◌then◌else◌, u16, u64,
}
use seccamp_os.Bitutil.{clear_bits}
use seccamp_os.Libc.{memset}
use seccamp_os.Register

-- `Manager`, less its reference to the registers.
pub record Manager : Type 0 where
  pub producer_cycle : ℕ
  pub erst : ℕ
  pub erst_size : ℕ
  pub erst_index : ℕ

-- `SegmentTableEntry`: 16 bytes, the base first and then the size in TRBs of 16 bytes.
unfoldable pub begin : Memory → ℕ → ℕ → ℕ
unfolding Register.read_64
begin m erst index = Register.read_64 m (u64 (erst + 16 * index))

unfoldable pub size : Memory → ℕ → ℕ → ℕ
size m erst index = u16 (read32 m (u64 (erst + 16 * index) + 8))

unfoldable pub cend : Memory → ℕ → ℕ → ℕ
unfolding begin size
cend m erst index = u64 (begin m erst index + 16 * size m erst index)

-- The offsets of ERSTSZ, ERSTBA and ERDP in an `InterrupterRegSet`.
abbrev pub erstsz : ℕ
erstsz = 8

abbrev pub erstba : ℕ
erstba = 16

abbrev pub erdp : ℕ
erdp = 24

module _ (regs : ℕ) where
  unfoldable pub read_dequeue_pointer : Memory → ℕ
  read_dequeue_pointer m = clear_bits 64 (Register.read_64 m (regs + erdp)) 0xf

  unfoldable pub write_dequeue_pointer : ℕ → Memory → Memory
  write_dequeue_pointer p m = Register.write_64 p m (regs + erdp)

  -- The cycle bit of the TRB at `p`.
  unfoldable pub cycle_bit : Memory → ℕ → ℕ
  cycle_bit m p = read32 m (u64 (p + 12)) % 2

  -- The loop of `Initialize` over the segments from `i` on.
  unfoldable pub clear_segments : ℕ → ℕ → ℕ → Memory → Memory
  clear_segments zero i erst m = m
  clear_segments (suc rounds) i erst m =
      clear_segments rounds (i + 1) erst (memset (begin m erst i) 0 (16 * size m erst i) m)

  unfoldable pub initialize : Memory → Manager × Memory
  initialize m =
      let base = Register.read_64 m (regs + erstba) in
      let m₁ = Register.write_64 base m (regs + erstba) in
      let erst = clear_bits 64 base 0x3f in
      let erst_size = bit_and (Register.read_32 m₁ (regs + erstsz)) 0xffff in
      let m₂ = write_dequeue_pointer (begin m₁ erst 0) m₁ in
      (
        record { producer_cycle = 1; erst = erst; erst_size = erst_size; erst_index = 0 },
        clear_segments erst_size 0 erst m₂,
      )

  unfoldable pub has_front : Manager → Memory → Bool
  has_front r m = cycle_bit m (read_dequeue_pointer m) == r.producer_cycle

  -- The index, the cycle state and the pointer of `Pop` at the end of a segment.
  unfoldable pub next_segment : Manager → Manager
  next_segment r =
      if u64 (r.erst_index + 1) == r.erst_size
      then record r { erst_index = 0; producer_cycle = (2 ^ 8 + 1 - r.producer_cycle) % 2 ^ 8 }
      else record r { erst_index = u64 (r.erst_index + 1) }

  unfoldable pub pop : Manager → Memory → Manager × Memory
  pop r m =
      let p = u64 (read_dequeue_pointer m + 16) in
      let r' = next_segment r in
      if p == cend m r.erst r.erst_index
      then (r', write_dequeue_pointer (begin m r'.erst r'.erst_index) m)
      else (r, write_dequeue_pointer p m)
