-- ===== src/Libc.antt =====
-- libc/func.c: `memcpy` and `memset`, without their return value, which is the first argument.
pub mod Laws
use seccamp_os.Base.{ℕ, zero, suc, ◌+◌, Memory, read8, write8}

unfoldable pub memcpy : ℕ → ℕ → ℕ → Memory → Memory
memcpy dest src zero m = m
memcpy dest src (suc n) m = memcpy (dest + 1) (src + 1) n (write8 m dest (read8 m src))

unfoldable pub memset : ℕ → ℕ → ℕ → Memory → Memory
memset s c zero m = m
memset s c (suc n) m = memset (s + 1) c n (write8 m s c)
