-- ===== src/Bitutil/Laws.antt =====
-- What the functions of bitutil.hpp compute.
use seccamp_os.Base.{
  ℕ, zero, suc, ◌+◌, ◌-◌, ◌*◌, ◌/◌, ◌%◌, ◌^◌, ◌<◌, ◌≤◌, ◌≡◌, ◌≢◌, arith, bit_or, ◌==◌,
  if◌then◌else◌, Memory, read8, read32, read32-lt, bit_or-lt, bit_or-high_low, bit_and-field,
  two_pow_add, double, ◌∙◌, Bool-cases, inl, inr, u32,
}
use native.Mathlib.Numerals.{add-one}
use native.Mathlib.Nat.{pow-suc, one-le-pow, mod-eq_of_lt}
use seccamp_os.Bitutil.{
  bsf, bit_scan_forward, clear_bits, read_loop, read_by_byte, read_64, read_64_by_32,
}

-- `k` is the index of the lowest bit of `value` that is set.
pub record IsLowestBit (value k : ℕ) : Type 0 where
  pub above : ℕ
  pub decomposed : value ≡ (2 * above + 1) * 2 ^ k

twice :
    (value q b : ℕ)
    → value % 2 ≡ 0
    → value / 2 ≡ (2 * q + 1) * 2 ^ b
    → value ≡ (2 * q + 1) * 2 ^ suc b
twice value q b even half = omega (arith, double (2 * q + 1) b, half)

bsf-IsLowestBit :
    (width value : ℕ)
    → value ≢ 0
    → value < 2 ^ width
    → (bsf width value < width) × IsLowestBit value (bsf width value)
unfolding bsf
bsf-IsLowestBit zero value ne lt = absurd (ne (omega arith))
bsf-IsLowestBit (suc width) value ne lt = elim (Bool-cases (value % 2 == 1)) [
  | inl odd ↦ rw odd (omega arith, record { above = value / 2; decomposed = ground arith })
  | inr even ↦
      let (fits, low) =
        bsf-IsLowestBit width (value / 2) (ground arith) (omega (arith, pow-suc 2 width)) in
      rw even (
        omega arith,
        record {
          above = low.above;
          decomposed = twice value low.above (bsf width (value / 2)) (ground arith) low.decomposed;
        },
      )
]

-- For a `uint64_t` other than 0, `BitScanForward` returns the index of the lowest bit that is
-- set, which is below 64.
pub bit_scan_forward_lem :
    (value : ℕ)
    → value < 2 ^ 64
    → value ≢ 0
    → (bit_scan_forward value < 64) × IsLowestBit value (bit_scan_forward value)
unfolding bit_scan_forward
bit_scan_forward_lem value lt ne =
    let (fits, low) = bsf-IsLowestBit 64 value ne lt in
    let same : (if value == 0 then 2 ^ 32 - 1 else u32 (bsf 64 value)) ≡ bsf 64 value =
      ground arith in
    rw same (fits, low)

pred_mul : (a b : ℕ) → 1 ≤ a → (a - 1) * b + b ≡ a * b
pred_mul zero b h = absurd (omega arith)
pred_mul (suc a) b h = let e : suc a - 1 ≡ a = omega arith in rw e (omega arith)

div_lt : (j k value : ℕ) → value < 2 ^ j * 2 ^ k → value / 2 ^ k < 2 ^ j
div_lt j k value h = grind arith

-- For a value of `j + k` bits, `ClearBits` of the `k` low bits rounds it down to a multiple of `2
-- ^ k`.
pub clear_bits-low :
    (j k value : ℕ)
    → value < 2 ^ (j + k)
    → clear_bits (j + k) value (2 ^ k - 1) ≡ value / 2 ^ k * 2 ^ k
unfolding clear_bits
clear_bits-low j k value lt = rw mask (bit_and-field j k value ∙ rw (mod-eq_of_lt fits))
  where
    fits : value / 2 ^ k < 2 ^ j
    fits = div_lt j k value (rw two_pow_add at lt)

    mask : 2 ^ (j + k) - 1 - (2 ^ k - 1) % 2 ^ (j + k) ≡ (2 ^ j - 1) * 2 ^ k
    mask =
        let small : (2 ^ k - 1) % 2 ^ (j + k) ≡ 2 ^ k - 1 =
          mod-eq_of_lt (grind (arith, two_pow_add j k, one-le-pow k 2, one-le-pow j 2)) in
        rw small (
          omega (
            arith,
            two_pow_add j k,
            one-le-pow k 2,
            pred_mul (2 ^ j) (2 ^ k) (one-le-pow j 2 (omega arith)),
          ))

-- The number that `n` bytes stand for, lowest byte first.
abbrev pub little_endian : ℕ → Memory → ℕ → ℕ
little_endian zero m a = 0
little_endian (suc n) m a = read8 m a + 256 * little_endian n m (a + 1)

little_endian-lt : (n : ℕ) (m : Memory) (a : ℕ) → little_endian n m a < 256 ^ n
little_endian-lt zero m a = omega arith
little_endian-lt (suc n) m a = omega (arith, little_endian-lt n m (a + 1), pow-suc 256 n)

pow_le : (i j : ℕ) → 256 ^ i ≤ 256 ^ (j + i)
pow_le i zero = let e : 0 + i ≡ i = omega arith in rw e (omega arith)
pow_le i (suc j) =
    let e : suc j + i ≡ suc (j + i) = omega arith in
    rw e (omega (arith, pow_le i j, pow-suc 256 (j + i)))

read_loop_lem :
    (size : ℕ) (p : Memory) (rounds i q : ℕ)
    → rounds + i ≡ size
    → read_loop size p rounds i (little_endian i p (q + rounds)) q ≡ little_endian size p q
unfolding read_loop
read_loop_lem size p zero i q e =
    let same : i ≡ size = omega arith in let start : q + 0 ≡ q = omega arith in rw (start, same)
read_loop_lem size p (suc rounds) i q e =
    rw (add-one, round) (read_loop_lem size p rounds (suc i) q (omega arith))
  where
    place : q + (size - 1 - i) ≡ q + rounds
    place = omega arith

    next : q + suc rounds ≡ q + rounds + 1
    next = omega arith

    small : little_endian i p (q + suc rounds) * 2 ^ 8 < 256 ^ size
    small =
        let up : 256 ^ suc i ≤ 256 ^ (rounds + suc i) = pow_le (suc i) rounds in
        let same : rounds + suc i ≡ size = omega arith in
        omega (arith, little_endian-lt i p (q + suc rounds), pow-suc 256 i, rw same at up)

    round :
        bit_or
          (little_endian i p (q + suc rounds) * 2 ^ 8 % 256 ^ size)
          (read8 p (q + (size - 1 - i)))
        ≡ little_endian (suc i) p (q + rounds)
    round =
        rw
          (
            mod-eq_of_lt small,
            bit_or-high_low 8 (little_endian i p (q + suc rounds)) (read8 p (q + (size - 1 - i)))
                (omega arith),
            place,
            next,
          )
          (omega arith)

-- `ReadByByte` returns the number that the bytes at `buf` stand for, lowest byte first, for a
-- type of any size.
pub read_by_byte_lem :
    (size : ℕ) (p : Memory) (buf : ℕ) → read_by_byte size p buf ≡ little_endian size p buf
unfolding read_by_byte
read_by_byte_lem size p buf = read_loop_lem size p size 0 buf (omega arith)

-- At an address whose upper 32 bits are not all 0, `Read64By32` differs from `Read64`.
pub read_64_by_32_ne :
    (m : Memory) (addr : ℕ) → read32 m (addr + 4) ≢ 0 → read_64_by_32 m addr ≢ read_64 m addr
unfolding read_64_by_32 read_64
read_64_by_32_ne m addr h e = omega (
  arith,
  bit_or-lt 32 (read32 m addr) (read32 m (addr + 4)) (read32-lt m addr) (read32-lt m (addr + 4)),
)
