-- ===== src/Pci/Device/Masks.antt =====
-- Arithmetic of what a base address register reads back after all ones.
use seccamp_os.Base.{
  ℕ, zero, suc, ◌+◌, ◌-◌, ◌*◌, ◌/◌, ◌%◌, ◌^◌, ◌<◌, ◌≤◌, ◌≡◌, ◌≢◌, refl, sym, ap, ◌∙◌, arith, false,
  two_pow_add, double, ◌==◌, Bool-cases, leb, inl, inr,
}
use native.Mathlib.Nat.{div-eq_of_lt, one-le-pow, pow-le-pow_right}
use seccamp_os.ErrorCode.{success}
use seccamp_os.Bitutil.{clear_bits, bit_scan_forward}
use seccamp_os.Bitutil.Laws.{IsLowestBit, bit_scan_forward_lem, clear_bits-low}
use seccamp_os.Pci.Device.{size_of_mask}

-- A number has one lowest bit.
lowest_unique : (j k q r : ℕ) → (2 * q + 1) * 2 ^ j ≡ (2 * r + 1) * 2 ^ k → j ≡ k
lowest_unique zero zero q r e = refl
lowest_unique zero (suc k) q r e = absurd (omega (arith, double (2 * r + 1) k))
lowest_unique (suc j) zero q r e = absurd (omega (arith, double (2 * q + 1) j))
lowest_unique (suc j) (suc k) q r e =
    ap suc (lowest_unique j k q r (omega (arith, double (2 * q + 1) j, double (2 * r + 1) k)))

IsLowestBit-scan :
    (value k : ℕ) → value < 2 ^ 64 → value ≢ 0 → IsLowestBit value k → bit_scan_forward value ≡ k
IsLowestBit-scan value k lt ne low =
    let (fits, found) = bit_scan_forward_lem value lt ne in
    lowest_unique (bit_scan_forward value) k found.above low.above
      (sym found.decomposed ∙ low.decomposed)

div_pred : (p m : ℕ) → 1 ≤ p → 1 ≤ m → (p * m - 1) / p ≡ m - 1
div_pred p m hp hm = grind arith

pub two_pow_split : (a b c : ℕ) → a + b ≡ c → 2 ^ a * 2 ^ b ≡ 2 ^ c
two_pow_split a b c e = sym (two_pow_add a b) ∙ ap (λ (t : ℕ). 2 ^ t) e

-- All ones of `w` bits, less those below bit `k`.
pub ones_above : (w k : ℕ) → k ≤ w → (2 ^ w - 1) / 2 ^ k * 2 ^ k ≡ 2 ^ w - 2 ^ k
ones_above w k h =
    let whole : 2 ^ k * 2 ^ (w - k) ≡ 2 ^ w = two_pow_split k (w - k) w (omega arith) in
    let quotient : (2 ^ w - 1) / 2 ^ k ≡ 2 ^ (w - k) - 1 =
      ap (λ (t : ℕ). (t - 1) / 2 ^ k) (sym whole)
      ∙ div_pred (2 ^ k) (2 ^ (w - k)) (one-le-pow k 2 (omega arith))
          (one-le-pow (w - k) 2 (omega arith)) in
    rw quotient
      (product (2 ^ (w - k)) (2 ^ k) (one-le-pow (w - k) 2 (omega arith)) ∙ omega (arith, whole))
  where
    product : (a b : ℕ) → 1 ≤ a → (a - 1) * b ≡ b * a - b
    product zero b h = absurd (omega arith)
    product (suc a) b h = let e : suc a - 1 ≡ a = omega arith in rw e (omega arith)

-- A mask of ones from bit `k` on, as an odd multiple.
odd_multiple : (w k : ℕ) → k < w → 2 ^ w - 2 ^ k ≡ (2 * (2 ^ (w - 1 - k) - 1) + 1) * 2 ^ k
odd_multiple w k h =
    let whole : 2 ^ (w - 1 - k) * 2 ^ k ≡ 2 ^ (w - 1) =
      two_pow_split (w - 1 - k) k (w - 1) (omega arith) in
    let twice : 2 ^ 1 * 2 ^ (w - 1) ≡ 2 ^ w = two_pow_split 1 (w - 1) w (omega arith) in
    omega (
      arith,
      expand (2 ^ (w - 1 - k)) (2 ^ k) (one-le-pow (w - 1 - k) 2 (omega arith)),
      whole,
      twice,
    )
  where
    expand : (a b : ℕ) → 1 ≤ a → (2 * (a - 1) + 1) * b + b ≡ 2 * (a * b)
    expand zero b h = absurd (omega arith)
    expand (suc a) b h = let e : suc a - 1 ≡ a = omega arith in rw e (omega arith)

pow_below : (k w : ℕ) → k < w → 2 * 2 ^ k ≤ 2 ^ w
pow_below k w h =
    let whole : 2 ^ (w - k - 1) * 2 ^ (1 + k) ≡ 2 ^ w =
      two_pow_split (w - k - 1) (1 + k) w (omega arith) in
    let twice : 2 ^ 1 * 2 ^ k ≡ 2 ^ (1 + k) = two_pow_split 1 k (1 + k) refl in
    omega (
      arith,
      times (2 ^ (w - k - 1)) (2 ^ (1 + k)) (one-le-pow (w - k - 1) 2 (omega arith)),
      whole,
      twice,
    )
  where
    times : (a b : ℕ) → 1 ≤ a → b ≤ a * b
    times a b h = grind arith

-- What a register of `w` bits and `2 ^ k` bytes reads back after all ones has that size.
pub size_of_mask_lem :
    (w k flags : ℕ)
    → 4 ≤ k
    → k < w
    → w ≤ 64
    → flags < 16
    → size_of_mask (clear_bits 64 (2 ^ w - 2 ^ k + flags) 0xf)
      ≡ record { value = 2 ^ k; error = success }
unfolding size_of_mask
size_of_mask_lem w k flags low high word fit =
    let below = pow_below k w high in
    let within : 2 ^ w ≤ 2 ^ 64 = pow-le-pow_right {n = 2} (omega arith) word in
    let some_bits = one-le-pow k 2 (omega arith) in
    let sixteen : 2 ^ (k - 4) * 2 ^ 4 ≡ 2 ^ k = two_pow_split (k - 4) 4 k (omega arith) in
    let more : 2 ^ (w - 4) * 2 ^ 4 ≡ 2 ^ w = two_pow_split (w - 4) 4 w (omega arith) in
    let cleared : clear_bits 64 (2 ^ w - 2 ^ k + flags) 0xf ≡ 2 ^ w - 2 ^ k =
      clear_bits-low 60 4 (2 ^ w - 2 ^ k + flags) (omega arith) ∙ omega arith in
    let scanned : bit_scan_forward (2 ^ w - 2 ^ k) ≡ k =
      IsLowestBit-scan (2 ^ w - 2 ^ k) k (omega arith) (omega arith)
        (record { above = 2 ^ (w - 1 - k) - 1; decomposed = odd_multiple w k high }) in
    let nonzero : (2 ^ w - 2 ^ k == 0) ≡ false = ground arith in
    let fits : 1 * 2 ^ k % 2 ^ 64 ≡ 2 ^ k = omega arith in
    rw (cleared, nonzero, scanned) (ap (λ (t : ℕ). record { value = t; error = success }) fits)

-- A register whose stored values are multiples of `2 ^ k` with four fixed bits.
pub flags_kept : (k x flags : ℕ) → 4 ≤ k → flags < 16 → (x * 2 ^ k + flags) / 4 % 2 ≡ flags / 4 % 2
flags_kept k x flags low fit =
    let split : 2 ^ (k - 4) * 2 ^ 4 ≡ 2 ^ k = two_pow_split (k - 4) 4 k (omega arith) in
    let multiple : x * 2 ^ k ≡ x * 2 ^ (k - 4) * 16 =
      ap (λ (t : ℕ). x * t) (sym split) ∙ omega arith in
    omega arith

pub multiple_fits :
    (k x flags : ℕ) → 4 ≤ k → flags < 16 → x * 2 ^ k < 2 ^ 32 → x * 2 ^ k + flags < 2 ^ 32
multiple_fits k x flags low fit bound =
    let split : 2 ^ (k - 4) * 2 ^ 4 ≡ 2 ^ k = two_pow_split (k - 4) 4 k (omega arith) in
    let multiple : x * 2 ^ k ≡ x * 2 ^ (k - 4) * 16 =
      ap (λ (t : ℕ). x * t) (sym split) ∙ omega arith in
    omega arith

-- The two halves of what is read back after all ones.
pub halves :
    (k flags : ℕ)
    → k < 64
    → (2 ^ 32 - 1) / 2 ^ k * 2 ^ k + flags + (2 ^ 32 - 1) / 2 ^ (k - 32) * 2 ^ (k - 32) * 2 ^ 32
      ≡ 2 ^ 64 - 2 ^ k + flags
halves k flags high = elim (Bool-cases (leb k 32)) [
  | inl within ↦
      let low : k ≤ 32 = ground arith in
      let one : k - 32 ≡ 0 = omega arith in
      rw (one, ones_above 32 k low) (omega (arith, pow-le-pow_right {n = 2} (omega arith) low))
  | inr beyond ↦
      let above : 32 < k = ground arith in
      let none_kept : (2 ^ 32 - 1) / 2 ^ k ≡ 0 =
        div-eq_of_lt (omega (arith, pow_below 32 k above)) in
      let split : 2 ^ (k - 32) * 2 ^ 32 ≡ 2 ^ k = two_pow_split (k - 32) 32 k (omega arith) in
      rw (none_kept, ones_above 32 (k - 32) (omega arith)) (omega arith)
]
