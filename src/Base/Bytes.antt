-- ===== src/Base/Bytes.antt =====
-- Memory as bytes by address, with the little-endian accesses of the target.
use Prim.Native.Nat.{ℕ, ◌+◌, ◌*◌, ◌/◌, ◌%◌, ◌^◌, ◌<◌, ◌≤◌}
use mathlib.Core.Path.{◌≡◌}
use mathlib.Core.Logic.{◌⊎◌}
use native.Mathlib.Omega.{arith}
use seccamp_os.Base.Tests.{◌==◌, if◌then◌else◌}

abbrev pub Memory : Type 0
Memory = ℕ → ℕ

abbrev pub read8 : Memory → ℕ → ℕ
read8 m a = m a % 2 ^ 8

unfoldable pub write8 : Memory → ℕ → ℕ → Memory
write8 m a v b = if a == b then v % 2 ^ 8 else m b

unfoldable pub read32 : Memory → ℕ → ℕ
read32 m a =
    read8 m a + read8 m (a + 1) * 2 ^ 8 + read8 m (a + 2) * 2 ^ 16 + read8 m (a + 3) * 2 ^ 24

unfoldable pub write32 : Memory → ℕ → ℕ → Memory
unfolding write8
write32 m a v =
    write8 (write8 (write8 (write8 m a v) (a + 1) (v / 2 ^ 8)) (a + 2) (v / 2 ^ 16)) (a + 3)
      (v / 2 ^ 24)

pub read8-write8 :
    (m : Memory) (a v b : ℕ) → read8 (write8 m a v) b ≡ (if a == b then v % 2 ^ 8 else read8 m b)
unfolding write8
read8-write8 m a v b = ground arith

pub read8-write32_away :
    (m : Memory) (a v b : ℕ) → (b < a) ⊎ (a + 4 ≤ b) → read8 (write32 m a v) b ≡ read8 m b
unfolding write32
read8-write32_away m a v b h = ground arith

pub read32-lt : (m : Memory) (a : ℕ) → read32 m a < 2 ^ 32
unfolding read32
read32-lt m a = omega arith

-- A dword reads back, and leaves dwords that it does not overlap alone.
pub read32-write32 : (m : Memory) (a v : ℕ) → read32 (write32 m a v) a ≡ v % 2 ^ 32
unfolding read32 write32
read32-write32 m a v = ground arith

pub read32-write32_away :
    (m : Memory) (a v b : ℕ) → (b + 4 ≤ a) ⊎ (a + 4 ≤ b) → read32 (write32 m a v) b ≡ read32 m b
unfolding read32
read32-write32_away m a v b h = ground (
  arith,
  read8-write32_away m a v b,
  read8-write32_away m a v (b + 1),
  read8-write32_away m a v (b + 2),
  read8-write32_away m a v (b + 3),
)
