-- ===== src/Base/Bits.antt =====
-- Laws of `&` and `|` at variables: both work on the parts of a word below and above a bit
-- position separately, so fields of disjoint positions add up and masks cut fields out.
use Prim.Native.Nat.{
  ℕ, zero, suc, ◌+◌, ◌-◌, ◌*◌, ◌/◌, ◌%◌, ◌^◌, ◌≤◌, ◌<◌, min, max, bit_and, bit_or, digits,
  bit_and-bitwise, bit_or-bitwise,
}
use mathlib.Core.Path.{◌≡◌, refl, sym, ap, ◌∙◌}
use native.Mathlib.Nat.{pow-suc, one-le-pow}
use native.Mathlib.Omega.{arith}

-- What both operations do with the lowest digits.
record IsDigitwise (op digit : ℕ → ℕ → ℕ) : Type 0 where
  step : (a b : ℕ) → op a b ≡ op (a / 2) (b / 2) * 2 + digit (a % 2) (b % 2)
  low : op 0 0 ≡ 0

module _ (z : ℕ → ℕ) (digit : ℕ → ℕ → ℕ) where
  -- One round more than enough of the native definition makes no difference, and so do `extra`.
  one_more : (fuel x y : ℕ) → x ≤ fuel → digits z digit (suc fuel) x y ≡ digits z digit fuel x y
  one_more zero zero y h = refl
  one_more (suc fuel) zero y h = refl
  one_more zero (suc x) y h = absurd (omega arith)
  one_more (suc fuel) (suc x) y h =
      ap (λ (t : ℕ). t * 2 + digit (suc x % 2) (y % 2))
        (one_more fuel (suc x / 2) (y / 2) (omega arith))

  more :
      (extra fuel x y : ℕ) → x ≤ fuel → digits z digit (extra + fuel) x y ≡ digits z digit fuel x y
  more zero fuel x y h = let same : 0 + fuel ≡ fuel = omega arith in rw same refl
  more (suc extra) fuel x y h =
      let same : suc extra + fuel ≡ suc (extra + fuel) = omega arith in
      rw same (one_more (extra + fuel) x y (omega arith) ∙ more extra fuel x y h)

  lowest_digit :
      (op : ℕ → ℕ → ℕ)
      → ((x y : ℕ) → op x y ≡ digits z digit x x y)
      → (x y : ℕ) → op (suc x) y ≡ op (suc x / 2) (y / 2) * 2 + digit (suc x % 2) (y % 2)
  lowest_digit op means x y =
      let half = suc x / 2 in
      let split_fuel : x ≡ x - half + half = omega arith in
      means (suc x) y
      ∙ ap (λ (t : ℕ). t * 2 + digit (suc x % 2) (y % 2))
          (ap (λ t. digits z digit t half (y / 2)) split_fuel
            ∙ more (x - half) half half (y / 2) (omega arith)
            ∙ sym (means half (y / 2)))

and_digit : (a b : ℕ) → bit_and a b ≡ bit_and (a / 2) (b / 2) * 2 + min (a % 2) (b % 2)
and_digit zero b = rw (bit_and-bitwise 0 b, bit_and-bitwise 0 (b / 2)) (omega arith)
and_digit (suc x) b = lowest_digit (λ _. 0) min bit_and bit_and-bitwise x b

or_digit : (a b : ℕ) → bit_or a b ≡ bit_or (a / 2) (b / 2) * 2 + max (a % 2) (b % 2)
or_digit zero b = rw (bit_or-bitwise 0 b, bit_or-bitwise 0 (b / 2)) (omega arith)
or_digit (suc x) b = lowest_digit (λ y. y) max bit_or bit_or-bitwise x b

abbrev and_law : IsDigitwise bit_and min
and_law = record { step = and_digit; low = refl }

abbrev or_law : IsDigitwise bit_or max
or_law = record { step = or_digit; low = refl }

pub double : (q k : ℕ) → q * 2 ^ suc k ≡ 2 * (q * 2 ^ k)
double q k = omega (arith, ap (λ (t : ℕ). q * t) (pow-suc 2 k))

module _ {op digit : ℕ → ℕ → ℕ} (law : IsDigitwise op digit) where
  -- The operation acts on the parts above and below bit `k` separately.
  split :
      (k p r q s : ℕ)
      → r < 2 ^ k
      → s < 2 ^ k
      → op (p * 2 ^ k + r) (q * 2 ^ k + s) ≡ op p q * 2 ^ k + op r s
  split zero p r q s hr hs =
      let er : r ≡ 0 = omega arith in
      let es : s ≡ 0 = omega arith in
      let ep : p * 2 ^ 0 + 0 ≡ p = omega arith in
      let eq : q * 2 ^ 0 + 0 ≡ q = omega arith in rw (er, es, ep, eq, law.low) (omega arith)
  split (suc k) p r q s hr hs =
      law.step (p * 2 ^ suc k + r) (q * 2 ^ suc k + s)
      ∙ rw (left, right, low_left, low_right)
          (omega (
            arith,
            split k p (r / 2) q (s / 2) (omega (arith, pow-suc 2 k)) (omega (arith, pow-suc 2 k)),
            law.step r s,
            double (op p q) k,
          ))
    where
      left : (p * 2 ^ suc k + r) / 2 ≡ p * 2 ^ k + r / 2
      left = omega (arith, double p k)

      right : (q * 2 ^ suc k + s) / 2 ≡ q * 2 ^ k + s / 2
      right = omega (arith, double q k)

      low_left : (p * 2 ^ suc k + r) % 2 ≡ r % 2
      low_left = omega (arith, double p k)

      low_right : (q * 2 ^ suc k + s) % 2 ≡ s % 2
      low_right = omega (arith, double q k)

  split_at :
      (k p r q s : ℕ) {a b : ℕ}
      → a ≡ p * 2 ^ k + r
      → b ≡ q * 2 ^ k + s
      → r < 2 ^ k
      → s < 2 ^ k
      → op a b ≡ op p q * 2 ^ k + op r s
  split_at k p r q s ea eb hr hs = rw (ea, eb) (split k p r q s hr hs)

zero_right : (n a : ℕ) → a ≤ n → (bit_and a 0 ≡ 0) × (bit_or a 0 ≡ a)
zero_right n zero h = (refl, refl)
zero_right zero (suc a) h = absurd (omega arith)
zero_right (suc n) (suc a) h =
    let below = zero_right n (suc a / 2) (omega arith) in
    (omega (arith, and_digit (suc a) 0, below.0), omega (arith, or_digit (suc a) 0, below.1))

pub bit_and-zero : (a : ℕ) → bit_and a 0 ≡ 0
bit_and-zero a = (zero_right a a (omega arith)).0

pub bit_or-zero : (a : ℕ) → bit_or a 0 ≡ a
bit_or-zero a = (zero_right a a (omega arith)).1

pub zero-bit_or : (a : ℕ) → bit_or 0 a ≡ a
zero-bit_or a = bit_or-bitwise 0 a

pub zero-bit_and : (a : ℕ) → bit_and 0 a ≡ 0
zero-bit_and a = bit_and-bitwise 0 a

-- `|` of a value above bit `k` and a value below it is their sum, in either order.
pub bit_or-high_low : (k q r : ℕ) → r < 2 ^ k → bit_or (q * 2 ^ k) r ≡ q * 2 ^ k + r
bit_or-high_low k q r h =
    split_at or_law k q 0 0 r (omega arith) (omega arith) (omega arith) h
    ∙ rw (bit_or-zero, zero-bit_or)

pub bit_or-low_high : (k q r : ℕ) → r < 2 ^ k → bit_or r (q * 2 ^ k) ≡ q * 2 ^ k + r
bit_or-low_high k q r h =
    split_at or_law k 0 r q 0 (omega arith) (omega arith) h (omega arith)
    ∙ rw (bit_or-zero, zero-bit_or)

pub bit_or-add : (k a b : ℕ) → a % 2 ^ k ≡ 0 → b < 2 ^ k → bit_or a b ≡ a + b
bit_or-add k a b ha hb =
    let e : a ≡ a / 2 ^ k * 2 ^ k = omega arith in
    ap (λ t. bit_or t b) e ∙ bit_or-high_low k (a / 2 ^ k) b hb ∙ omega arith

pub bit_or-add_low : (k a b : ℕ) → a % 2 ^ k ≡ 0 → b < 2 ^ k → bit_or b a ≡ a + b
bit_or-add_low k a b ha hb =
    let e : a ≡ a / 2 ^ k * 2 ^ k = omega arith in
    ap (λ t. bit_or b t) e ∙ bit_or-low_high k (a / 2 ^ k) b hb ∙ omega arith

-- A mask of `k` ones keeps a number below `2 ^ k`.
bit_and-ones : (k r : ℕ) → r < 2 ^ k → bit_and r (2 ^ k - 1) ≡ r
bit_and-ones zero r h = let e : r ≡ 0 = omega arith in rw e (zero-bit_and (2 ^ 0 - 1))
bit_and-ones (suc k) r h =
    and_digit r (2 ^ suc k - 1)
    ∙ rw half (
        omega
          (arith, bit_and-ones k (r / 2) (omega (arith, pow-suc 2 k)), pow-suc 2 k, one-le-pow k 2))
  where
    half : (2 ^ suc k - 1) / 2 ≡ 2 ^ k - 1
    half = omega (arith, pow-suc 2 k, one-le-pow k 2)

-- `| 1` sets the lowest bit.
pub bit_or-one : (a : ℕ) → bit_or a 1 ≡ a / 2 * 2 + 1
bit_or-one a = or_digit a 1 ∙ rw (bit_or-zero (a / 2)) (grind arith)

-- `a & (2 ^ k - 1)` is the remainder by `2 ^ k`.
pub bit_and-low : (k a : ℕ) → bit_and a (2 ^ k - 1) ≡ a % 2 ^ k
bit_and-low k a =
    split_at and_law k (a / 2 ^ k) (a % 2 ^ k) 0 (2 ^ k - 1) (grind (arith, one-le-pow k 2))
      (omega arith) (grind (arith, one-le-pow k 2)) (omega (arith, one-le-pow k 2))
    ∙ rw (bit_and-zero, bit_and-ones k (a % 2 ^ k) (grind (arith, one-le-pow k 2))) (omega arith)

-- A mask of `j` ones at bit `k` keeps the field there.
pub bit_and-field : (j k a : ℕ) → bit_and a ((2 ^ j - 1) * 2 ^ k) ≡ a / 2 ^ k % 2 ^ j * 2 ^ k
bit_and-field j k a =
    split_at and_law k (a / 2 ^ k) (a % 2 ^ k) (2 ^ j - 1) 0 (grind (arith, one-le-pow k 2))
      (omega arith) (grind (arith, one-le-pow k 2)) (omega (arith, one-le-pow k 2))
    ∙ rw (bit_and-zero, bit_and-low j (a / 2 ^ k)) (omega arith)

-- `|` stays below a power of two.
pub bit_or-lt : (k a b : ℕ) → a < 2 ^ k → b < 2 ^ k → bit_or a b < 2 ^ k
bit_or-lt zero a b ha hb =
    let ea : a ≡ 0 = omega arith in
    let eb : b ≡ 0 = omega arith in rw (ea, eb) (omega (arith, bit_or-zero 0))
bit_or-lt (suc k) a b ha hb = omega (
  arith,
  or_digit a b,
  pow-suc 2 k,
  bit_or-lt k (a / 2) (b / 2) (omega (arith, pow-suc 2 k)) (omega (arith, pow-suc 2 k)),
)

pub two_pow_add : (j k : ℕ) → 2 ^ (j + k) ≡ 2 ^ j * 2 ^ k
two_pow_add zero k = let e : 0 + k ≡ k = omega arith in rw e (omega arith)
two_pow_add (suc j) k =
    let e : suc j + k ≡ suc (j + k) = omega arith in
    rw e (grind (arith, pow-suc 2 (j + k), pow-suc 2 j, two_pow_add j k))
