-- ===== src/Libc/Laws.antt =====
-- What `memcpy` and `memset` leave in memory.
use seccamp_os.Base.{
  ℕ, zero, suc, ◌+◌, ◌-◌, ◌≤◌, ◌≡◌, ◌⊎◌, inl, inr, arith, ◌&&◌, Bool, true, false, Bool-cases, ltb,
  leb, ◌==◌, if◌then◌else◌, Memory, read8, write8, read8-write8, u8, ◌∙◌,
}
use seccamp_os.Libc.{memcpy, memset}

-- The byte `b` is one of the `n` bytes from `s` on.
abbrev pub within : ℕ → ℕ → ℕ → Bool
within s n b = leb s b && ltb b (s + n)

-- `memset` gives the low byte of its second argument to the `n` bytes from `s` on, and leaves
-- every other byte as it was.
pub memset_lem :
    (n s c b : ℕ) (m : Memory)
    → read8 (memset s c n m) b ≡ (if within s n b then u8 c else read8 m b)
unfolding memset
memset_lem zero s c b m = ground arith
memset_lem (suc n) s c b m = memset_lem n (s + 1) c b _ ∙ ground (arith, read8-write8 m s c b)

-- If the source does not begin before a destination that it overlaps, `memcpy` leaves in the `n`
-- bytes from `dest` on what the bytes of the source held at first, and every other byte as it
-- was.
pub memcpy_lem :
    (n dest src b : ℕ) (m : Memory)
    → (dest ≤ src) ⊎ (src + n ≤ dest)
    → read8 (memcpy dest src n m) b
      ≡ (if within dest n b then read8 m (src + (b - dest)) else read8 m b)
unfolding memcpy
memcpy_lem zero dest src b m apart = ground arith
memcpy_lem (suc n) dest src b m apart =
    let m' = write8 m dest (read8 m src) in
    memcpy_lem n (dest + 1) (src + 1) b m' (ground arith)
    ∙ elim (Bool-cases (within (dest + 1) n b)) [
      | inl later ↦
          let same : src + 1 + (b - (dest + 1)) ≡ src + (b - dest) = ground arith in
          let copied : within dest (suc n) b ≡ true = ground arith in
          rw (later, same, copied)
            (ground (arith, read8-write8 m dest (read8 m src) (src + (b - dest))))
      | inr now ↦ elim (Bool-cases (dest == b)) [
        | inl first ↦
            let copied : within dest (suc n) b ≡ true = ground arith in
            let start : src + (b - dest) ≡ src = ground arith in
            rw (now, copied, start) (ground (arith, read8-write8 m dest (read8 m src) b))
        | inr away ↦
            let left : within dest (suc n) b ≡ false = ground arith in
            rw (now, left) (ground (arith, read8-write8 m dest (read8 m src) b))
      ]
    ]
