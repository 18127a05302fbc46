-- ===== src/Base/Bits.antt =====
-- `|` of two words with no bit in common is their sum, and `&` with a row of ones is a remainder, at
-- every width.
use Prim.Native.Nat.{ℕ, zero, suc, ◌+◌, ◌-◌, ◌*◌, ◌/◌, ◌%◌, ◌^◌, ◌≤◌, ◌<◌}
use Prim.Native.Nat.{bit_and, bit_or, max, min, digits, bit_and-bitwise, bit_or-bitwise}
use mathlib.Core.Path.{◌≡◌, refl, ap}
use native.Mathlib.Nat.{pow-suc, one-le-pow, le_refl}
use native.Mathlib.Omega.{arith}

-- The digits of an operation, by the digit for a zero and the digit for two digits, are the same at
-- any two amounts of fuel that cover the first number.
module _ (at_zero : ℕ → ℕ) (on_digits : ℕ → ℕ → ℕ) where
  same_digits :
      (a b fuel more : ℕ)
      → a ≤ fuel
      → a ≤ more
      → digits at_zero on_digits fuel a b ≡ digits at_zero on_digits more a b
  same_digits zero b zero zero _ _ = refl
  same_digits zero b zero (suc more) _ _ = refl
  same_digits zero b (suc fuel) zero _ _ = refl
  same_digits zero b (suc fuel) (suc more) _ _ = refl
  same_digits (suc a) b zero more low _ = absurd (omega arith)
  same_digits (suc a) b (suc fuel) zero _ low = absurd (omega arith)
  same_digits (suc a) b (suc fuel) (suc more) h k =
      let half = suc a / 2 in
      let fewer = same_digits half (b / 2) fuel more (omega arith) (omega arith) in
      omega (arith, fewer)

bit_or_halves : (a b : ℕ) → bit_or a b ≡ bit_or (a / 2) (b / 2) * 2 + max (a % 2) (b % 2)
bit_or_halves zero b = simp bit_or-bitwise (omega arith)
bit_or_halves (suc a) b = simp bit_or-bitwise (
    omega
      (arith, same_digits (λ y. y) max (suc a / 2) (b / 2) a (suc a / 2) (omega arith) (le_refl _)))

-- `r | (q << k)` where `r` fits `k` bits.
pub bit_or_shifted : (k q r : ℕ) → r < 2 ^ k → bit_or r (q * 2 ^ k) ≡ r + q * 2 ^ k
bit_or_shifted zero q zero h = simp bit_or-bitwise (omega arith)
bit_or_shifted zero q (suc r) h = absurd (omega arith)
bit_or_shifted (suc k) q r h = omega (
  arith,
  bit_or_halves r (q * 2 ^ suc k),
  pow-suc 2 k,
  ap (λ (t : ℕ). q * t) (pow-suc 2 k),
  ap (λ (t : ℕ). bit_or (r / 2) t) halved,
  bit_or_shifted k q (r / 2) (omega (arith, pow-suc 2 k)),
)
  where
    halved : q * 2 ^ suc k / 2 ≡ q * 2 ^ k
    halved = omega (arith, ap (λ (t : ℕ). q * t) (pow-suc 2 k))

bit_and_halves : (a b : ℕ) → bit_and a b ≡ bit_and (a / 2) (b / 2) * 2 + min (a % 2) (b % 2)
bit_and_halves zero b = simp bit_and-bitwise (omega arith)
bit_and_halves (suc a) b = simp bit_and-bitwise (
    omega (
      arith,
      same_digits (λ y. zero) min (suc a / 2) (b / 2) a (suc a / 2) (omega arith) (le_refl _),
    ))

half-shifted : (k p r : ℕ) → (p * 2 ^ suc k + r) / 2 ≡ p * 2 ^ k + r / 2
half-shifted k p r = omega (arith, ap (λ (t : ℕ). p * t) (pow-suc 2 k))

bit-shifted : (k p r : ℕ) → (p * 2 ^ suc k + r) % 2 ≡ r % 2
bit-shifted k p r = omega (arith, ap (λ (t : ℕ). p * t) (pow-suc 2 k))

-- The low `k` bits and the others apart.
pub bit_and_split :
    (k p q r s : ℕ)
    → r < 2 ^ k
    → s < 2 ^ k
    → bit_and (p * 2 ^ k + r) (q * 2 ^ k + s) ≡ bit_and p q * 2 ^ k + bit_and r s
bit_and_split zero p q zero zero h i = rw (nothing p, nothing q) (omega arith)
  where
    nothing : (n : ℕ) → n * 1 + 0 ≡ n
    nothing n = omega arith
bit_and_split zero p q zero (suc s) h i = absurd (omega arith)
bit_and_split zero p q (suc r) s h i = absurd (omega arith)
bit_and_split (suc k) p q r s h i = omega (
  arith,
  bit_and_halves (p * 2 ^ suc k + r) (q * 2 ^ suc k + s),
  bit_and_halves r s,
  ap (λ t. bit_and t ((q * 2 ^ suc k + s) / 2)) (half-shifted k p r),
  ap (λ t. bit_and (p * 2 ^ k + r / 2) t) (half-shifted k q s),
  bit-shifted k p r,
  bit-shifted k q s,
  ap (λ (t : ℕ). bit_and p q * t) (pow-suc 2 k),
  bit_and_split k p q (r / 2) (s / 2) (omega (arith, pow-suc 2 k)) (omega (arith, pow-suc 2 k)),
)

pub bit_or_split :
    (k p q r s : ℕ)
    → r < 2 ^ k
    → s < 2 ^ k
    → bit_or (p * 2 ^ k + r) (q * 2 ^ k + s) ≡ bit_or p q * 2 ^ k + bit_or r s
bit_or_split zero p q zero zero h i = rw (nothing p, nothing q) (omega arith)
  where
    nothing : (n : ℕ) → n * 1 + 0 ≡ n
    nothing n = omega arith
bit_or_split zero p q zero (suc s) h i = absurd (omega arith)
bit_or_split zero p q (suc r) s h i = absurd (omega arith)
bit_or_split (suc k) p q r s h i = omega (
  arith,
  bit_or_halves (p * 2 ^ suc k + r) (q * 2 ^ suc k + s),
  bit_or_halves r s,
  ap (λ t. bit_or t ((q * 2 ^ suc k + s) / 2)) (half-shifted k p r),
  ap (λ t. bit_or (p * 2 ^ k + r / 2) t) (half-shifted k q s),
  bit-shifted k p r,
  bit-shifted k q s,
  ap (λ (t : ℕ). bit_or p q * t) (pow-suc 2 k),
  bit_or_split k p q (r / 2) (s / 2) (omega (arith, pow-suc 2 k)) (omega (arith, pow-suc 2 k)),
)

zero-bit_and_up_to : (n a : ℕ) → a ≤ n → bit_and a 0 ≡ 0
zero-bit_and_up_to n zero h = refl
zero-bit_and_up_to zero (suc a) h = absurd (omega arith)
zero-bit_and_up_to (suc n) (suc a) h =
    omega (arith, bit_and_halves (suc a) 0, zero-bit_and_up_to n (suc a / 2) (omega arith))

-- `&` with `k` ones keeps the low `k` bits.
pub bit_and_ones_low : (k r : ℕ) → r < 2 ^ k → bit_and r (2 ^ k - 1) ≡ r
bit_and_ones_low zero zero h = refl
bit_and_ones_low zero (suc r) h = absurd (omega arith)
bit_and_ones_low (suc k) r h = omega (
  arith,
  bit_and_halves r (2 ^ suc k - 1),
  pow-suc 2 k,
  one-le-pow k 2,
  ap (λ t. bit_and (r / 2) t) half-ones,
  bit_and_ones_low k (r / 2) (omega (arith, pow-suc 2 k)),
)
  where
    half-ones : (2 ^ suc k - 1) / 2 ≡ 2 ^ k - 1
    half-ones = omega (arith, pow-suc 2 k)

pub bit_and_ones : (k q r : ℕ) → r < 2 ^ k → bit_and (q * 2 ^ k + r) (2 ^ k - 1) ≡ r
bit_and_ones k q r h = omega (
  arith,
  one-le-pow k 2,
  ap (λ t. bit_and (q * 2 ^ k + r) t) none_above,
  bit_and_split k q 0 r (2 ^ k - 1) h (omega (arith, one-le-pow k 2)),
  zero-bit_and_up_to q q (omega arith),
  ap (λ (t : ℕ). t * 2 ^ k) (zero-bit_and_up_to q q (omega arith)),
  bit_and_ones_low k r h,
)
  where
    none_above : 0 * 2 ^ k + (2 ^ k - 1) ≡ 2 ^ k - 1
    none_above = omega arith
