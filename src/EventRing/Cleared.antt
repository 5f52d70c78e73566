-- ===== src/EventRing/Cleared.antt =====
-- xhci_er.hpp: the loop of `Initialize` over the segments.
use seccamp_os.Base.{
  ℕ, zero, suc, ◌+◌, ◌*◌, ◌/◌, ◌^◌, ◌<◌, ◌≤◌, ◌≡◌, ◌⊎◌, refl, ◌∙◌, arith, Memory, read8, read32,
  write32, read8-write32_away, u64,
}
use native.Mathlib.Decide.{ℕ_discrete}
use seccamp_os.Libc.{memset}
use seccamp_os.Libc.Laws.{memset_lem}
use seccamp_os.Register
use seccamp_os.EventRing.{begin, size, clear_segments}
use seccamp_os.EventRing.Walk.{IsTable}

-- The bytes from `lo` on, up to `hi`, are the same.
abbrev pub Same : ℕ → ℕ → Memory → Memory → Type 0
Same lo hi m m' = (b : ℕ) → lo ≤ b → b < hi → read8 m' b ≡ read8 m b

pub read32-Same :
    (lo hi a : ℕ) (m m' : Memory) → Same lo hi m m' → lo ≤ a → a + 4 ≤ hi → read32 m' a ≡ read32 m a
unfolding read32
read32-Same lo hi a m m' same low high =
    rw
      (
        same a low (omega arith),
        same (a + 1) (omega arith) (omega arith),
        same (a + 2) (omega arith) (omega arith),
        same (a + 3) (omega arith) (omega arith),
      )
      refl

pub read_64-Same :
    (lo hi a : ℕ) (m m' : Memory)
    → Same lo hi m m'
    → lo ≤ a
    → a + 8 ≤ hi
    → Register.read_64 m' a ≡ Register.read_64 m a
unfolding Register.read_64
read_64-Same lo hi a m m' same low high =
    rw
      (
        read32-Same lo hi a m m' same low (omega arith),
        read32-Same lo hi (a + 4) m m' same (omega arith) (omega arith),
      )
      refl

pub write_64-Same :
    (v a lo hi : ℕ) (m : Memory) → (hi ≤ a) ⊎ (a + 8 ≤ lo) → Same lo hi m (Register.write_64 v m a)
unfolding Register.write_64
write_64-Same v a lo hi m apart b low high =
    read8-write32_away (write32 m a v) (a + 4) (v / 2 ^ 32) b (ground arith)
    ∙ read8-write32_away m a v b (ground arith)

-- The `n` segments lie apart from the bytes from `lo` on, up to `hi`.
abbrev pub SegmentsApart : ℕ → (ℕ → ℕ) → (ℕ → ℕ) → ℕ → ℕ → Type 0
SegmentsApart n base sizes lo hi = (i : ℕ) → i < n → (base i + 16 * sizes i ≤ lo) ⊎ (hi ≤ base i)

module _ (regs erst n : ℕ) (base sizes : ℕ → ℕ) where
  -- A table depends on its own bytes only.
  pub IsTable-Same :
      {m m' : Memory}
      → IsTable regs erst n base sizes m
      → Same erst (erst + 16 * n) m m'
      → IsTable regs erst n base sizes m'
  unfolding begin size
  IsTable-Same {m} {m'} t same = record {
    some_segments = t.some_segments;
    table_fits = t.table_fits;
    apart = t.apart;
    begins = λ i h.
        rw
          (
            place i h,
            read_64-Same erst (erst + 16 * n) (erst + 16 * i) m m' same (omega arith) (omega arith),
          )
          (rw (place i h) at (t.begins i h));
    counts = λ i h.
        rw
          (
            place i h,
            read32-Same erst (erst + 16 * n) (erst + 16 * i + 8) m m' same (omega arith)
                (omega arith),
          )
          (rw (place i h) at (t.counts i h));
    aligned = t.aligned;
    full = t.full;
    fits = t.fits;
  }
    where
      place : (i : ℕ) → i < n → u64 (erst + 16 * i) ≡ erst + 16 * i
      place i h = omega (arith, t.table_fits)

  -- One round of the loop of `Initialize`.
  memset-Same :
      (i lo hi : ℕ) (m : Memory)
      → i < n
      → SegmentsApart n base sizes lo hi
      → Same lo hi m (memset (base i) 0 (16 * sizes i) m)
  memset-Same i lo hi m h apart b low high =
      memset_lem (16 * sizes i) (base i) 0 b m ∙ ground (arith, apart i h)

  pub clear_segments-Same :
      (rounds i lo hi : ℕ) (m : Memory)
      → i + rounds ≤ n
      → IsTable regs erst n base sizes m
      → SegmentsApart n base sizes erst (erst + 16 * n)
      → SegmentsApart n base sizes lo hi
      → Same lo hi m (clear_segments regs rounds i erst m)
  unfolding clear_segments
  clear_segments-Same zero i lo hi m fits t table apart b low high = refl
  clear_segments-Same (suc rounds) i lo hi m fits t table apart b low high =
      rw (t.begins i (omega arith), t.counts i (omega arith))
        (clear_segments-Same rounds (i + 1) lo hi (memset (base i) 0 (16 * sizes i) m) (omega arith)
            (IsTable-Same t (memset-Same i erst (erst + 16 * n) m (omega arith) table)) table apart
            b low high
          ∙ memset-Same i lo hi m (omega arith) apart b low high)

  -- A byte that is 0 stays 0.
  clear_segments-zero :
      (rounds i b : ℕ) (m : Memory)
      → read8 m b ≡ 0
      → read8 (clear_segments regs rounds i erst m) b ≡ 0
  unfolding clear_segments
  clear_segments-zero zero i b m cleared = cleared
  clear_segments-zero (suc rounds) i b m cleared =
      clear_segments-zero rounds (i + 1) b _
        (memset_lem (16 * size m erst i) (begin m erst i) 0 b m ∙ ground (arith, cleared))

  pub clear_segments-cleared :
      (rounds i k b : ℕ) (m : Memory)
      → i + rounds ≤ n
      → IsTable regs erst n base sizes m
      → SegmentsApart n base sizes erst (erst + 16 * n)
      → i ≤ k
      → k < i + rounds
      → base k ≤ b
      → b < base k + 16 * sizes k
      → read8 (clear_segments regs rounds i erst m) b ≡ 0
  unfolding clear_segments
  clear_segments-cleared zero i k b m fits t table from until low high = absurd (omega arith)
  clear_segments-cleared (suc rounds) i k b m fits t table from until low high =
      elim (ℕ_discrete i k) [
        | yes here ↦ clear_segments-zero rounds (i + 1) b _ (
            memset_lem (16 * size m erst i) (begin m erst i) 0 b m
            ∙ rw (t.begins i (omega arith), t.counts i (omega arith), here) (ground arith))
        | no away ↦
            rw (t.begins i (omega arith), t.counts i (omega arith))
              (clear_segments-cleared rounds (i + 1) k b (memset (base i) 0 (16 * sizes i) m)
                (omega arith)
                (IsTable-Same t (memset-Same i erst (erst + 16 * n) m (omega arith) table)) table
                (omega arith) (omega arith) low high)
      ]
