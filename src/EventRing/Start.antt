-- ===== src/EventRing/Start.antt =====
-- xhci_er.hpp: what `Initialize` leaves, a ring of cleared TRBs with the dequeue pointer on the
-- first.
use seccamp_os.Base.{
  ℕ, ◌+◌, ◌*◌, ◌%◌, ◌^◌, ◌<◌, ◌≤◌, ◌≡◌, ◌⊎◌, inl, refl, ap, ◌∙◌, arith, false, Memory, read8,
  read32, bit_and, bit_and-low, u64,
}
use seccamp_os.Bitutil.{clear_bits}
use seccamp_os.Register
use seccamp_os.EventRing.{
  Manager, begin, cycle_bit, write_dequeue_pointer, clear_segments, initialize, has_front, erdp,
  erstba, erstsz,
}
use seccamp_os.EventRing.Walk.{
  IsTable, StandsAt, write_dequeue_pointer-IsTable, read_dequeue_pointer_lem, read_64-write_64,
}
use seccamp_os.EventRing.Cleared.{
  read32-Same, read_64-Same, write_64-Same, SegmentsApart, IsTable-Same, clear_segments-Same,
  clear_segments-cleared,
}

-- The registers name a table of `n` segments, and table, segments and registers lie apart.
pub record IsReady (regs erst n : ℕ) (base sizes : ℕ → ℕ) (m : Memory) : Type 0 where
  pub segments : IsTable regs erst n base sizes m
  pub loaded : clear_bits 64 (Register.read_64 m (regs + erstba)) 0x3f ≡ erst
  pub counted : read32 m (regs + erstsz) % 2 ^ 16 ≡ n
  pub registers : (erst + 16 * n ≤ regs) ⊎ (regs + 32 ≤ erst)
  pub table_apart : SegmentsApart n base sizes erst (erst + 16 * n)
  pub registers_apart : SegmentsApart n base sizes regs (regs + 32)

module _ (regs erst n : ℕ) (base sizes : ℕ → ℕ) (m : Memory)
    (h : IsReady regs erst n base sizes m) where
  -- The memory before the loop.
  reloaded : Memory
  reloaded = Register.write_64 (Register.read_64 m (regs + erstba)) m (regs + erstba)

  placed : Memory
  placed = write_dequeue_pointer regs (begin reloaded erst 0) reloaded

  reloaded-IsTable : IsTable regs erst n base sizes reloaded
  unfolding reloaded
  reloaded-IsTable = IsTable-Same regs erst n base sizes h.segments (
      write_64-Same (Register.read_64 m (regs + erstba)) (regs + erstba) erst (erst + 16 * n) m
        (ground (arith, h.registers)))

  placed-IsTable : IsTable regs erst n base sizes placed
  unfolding placed
  placed-IsTable = write_dequeue_pointer-IsTable (begin reloaded erst 0) reloaded-IsTable

  erst_size_lem : bit_and (Register.read_32 reloaded (regs + erstsz)) 0xffff ≡ n
  unfolding reloaded Register.read_32
  erst_size_lem =
      bit_and-low 16 (read32 reloaded (regs + erstsz))
      ∙ ap (λ v. v % 2 ^ 16)
          (read32-Same regs (regs + 16) (regs + erstsz) m reloaded
            (write_64-Same (Register.read_64 m (regs + erstba)) (regs + erstba) regs (regs + 16) m
              (inl (omega arith)))
            (omega arith) (omega arith))
      ∙ h.counted

  cleared : Memory
  cleared = clear_segments regs n 0 erst placed

  -- The manager that `Initialize` makes.
  abbrev pub fresh : Manager
  fresh = record { producer_cycle = 1; erst = erst; erst_size = n; erst_index = 0 }

  initialize-cleared : initialize regs m ≡ (fresh, cleared)
  unfolding initialize cleared placed reloaded
  initialize-cleared = rw (h.loaded, erst_size_lem) refl

  cleared-IsTable : IsTable regs erst n base sizes cleared
  unfolding cleared
  cleared-IsTable = IsTable-Same regs erst n base sizes placed-IsTable (
      clear_segments-Same regs erst n base sizes n 0 erst (erst + 16 * n) placed (omega arith)
        placed-IsTable h.table_apart h.table_apart)

  pointer_lem : Register.read_64 cleared (regs + erdp) ≡ base 0
  unfolding cleared placed write_dequeue_pointer
  pointer_lem =
      read_64-Same regs (regs + 32) (regs + erdp) placed cleared
        (clear_segments-Same regs erst n base sizes n 0 regs (regs + 32) placed (omega arith)
          placed-IsTable h.table_apart h.registers_apart)
        (omega arith) (omega arith)
      ∙ read_64-write_64 (begin reloaded erst 0) reloaded (regs + erdp)
          (rw first (omega (arith, h.segments.fits 0 h.segments.some_segments)))
      ∙ first
    where
      first : begin reloaded erst 0 ≡ base 0
      first = reloaded-IsTable.begins 0 h.segments.some_segments

  cleared-StandsAt :
      StandsAt regs erst n base sizes (record { segment = 0; trb = 0; cycle = 1 }) fresh cleared
  cleared-StandsAt = record {
    table = refl;
    table_size = refl;
    index = refl;
    state = refl;
    in_table = h.segments.some_segments;
    in_segment = h.segments.full 0 h.segments.some_segments;
    one_bit = omega arith;
    pointer = pointer_lem ∙ omega arith;
  }

  zeros : (i j k : ℕ) → i < n → j < sizes i → k < 16 → read8 cleared (base i + 16 * j + k) ≡ 0
  unfolding cleared
  zeros i j k hi hj hk =
      clear_segments-cleared regs erst n base sizes n 0 i (base i + 16 * j + k) placed (omega arith)
        placed-IsTable h.table_apart (omega arith) (omega arith) (omega arith) (omega arith)

  cycle_bit-cleared : (i j : ℕ) → i < n → j < sizes i → cycle_bit regs cleared (base i + 16 * j) ≡ 0
  unfolding cycle_bit read32
  cycle_bit-cleared i j hi hj =
      let a = base i + 16 * j in
      let low : u64 (a + 12) ≡ a + 12 = omega (arith, h.segments.fits i hi) in
      let second : a + 12 + 1 ≡ a + 13 = omega arith in
      let third : a + 12 + 2 ≡ a + 14 = omega arith in
      let fourth : a + 12 + 3 ≡ a + 15 = omega arith in
      rw
        (
          low,
          second,
          third,
          fourth,
          zeros i j 12 hi hj (omega arith),
          zeros i j 13 hi hj (omega arith),
          zeros i j 14 hi hj (omega arith),
          zeros i j 15 hi hj (omega arith),
        )
        refl

  has_front-cleared : has_front regs fresh cleared ≡ false
  unfolding has_front
  has_front-cleared =
      rw
        (
          read_dequeue_pointer_lem cleared-IsTable cleared-StandsAt,
          cycle_bit-cleared 0 0 h.segments.some_segments
              (h.segments.full 0 h.segments.some_segments),
        )
        refl

-- If the registers name a segment table that lies apart from them and from the segments, which
-- lie apart from the registers and are aligned, not empty and within 64 bits, `Initialize` leaves
-- the table as it was, the manager at the first TRB with cycle state 1, and every TRB of every
-- segment with cycle bit 0, so that the ring has no front.
pub initialize-StandsAt :
    (regs erst n : ℕ) (base sizes : ℕ → ℕ) (m : Memory)
    → IsReady regs erst n base sizes m
    → let (r, m') = initialize regs m in
      IsTable regs erst n base sizes m'
      × StandsAt regs erst n base sizes (record { segment = 0; trb = 0; cycle = 1 }) r m'
      × ((i j : ℕ) → i < n → j < sizes i → cycle_bit regs m' (base i + 16 * j) ≡ 0)
      × (has_front regs r m' ≡ false)
initialize-StandsAt regs erst n base sizes m h =
    rw (initialize-cleared regs erst n base sizes m h) (
      cleared-IsTable regs erst n base sizes m h,
      cleared-StandsAt regs erst n base sizes m h,
      cycle_bit-cleared regs erst n base sizes m h,
      has_front-cleared regs erst n base sizes m h,
    )
