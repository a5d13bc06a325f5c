-- ===== src/Base/Bits.antt =====
-- Laws of the bit operations at variables: a low mask is a remainder, and flipping one bit of a
-- number adds or takes that power of two.
pub mod Fields
use Prim.Native.Nat.{digits, bitwise, differ, bit_and-bitwise, bit_xor-bitwise, bit_or-bitwise}
use native.Mathlib.Nat.{pow-suc, one-le-pow}
use zeroxos_os.Base.{
  ℕ, zero, suc, ◌+◌, ◌-◌, ◌*◌, ◌/◌, ◌%◌, ◌^◌, ◌≤◌, ◌<◌, min, max, bit_and, bit_or, bit_xor, ◌≡◌,
  refl, ap, arith,
}

-- The count of digits to go does not matter once it covers the first number.
module _ (z : ℕ → ℕ) (f : ℕ → ℕ → ℕ) where
  digits-count : (n m a b : ℕ) → a ≤ n → a ≤ m → digits z f n a b ≡ digits z f m a b
  digits-count zero zero zero b p q = refl
  digits-count zero (suc m) zero b p q = refl
  digits-count (suc n) zero zero b p q = refl
  digits-count (suc n) (suc m) zero b p q = refl
  digits-count zero m (suc a) b p q = absurd (omega arith)
  digits-count (suc n) zero (suc a) b p q = absurd (omega arith)
  digits-count (suc n) (suc m) (suc a) b p q =
      rw (digits-count n m (suc a / 2) (b / 2) (omega arith) (omega arith))

  bitwise-unfold :
      (a b : ℕ)
      → bitwise z f (suc a) b ≡ bitwise z f (suc a / 2) (b / 2) * 2 + f (suc a % 2) (b % 2)
  bitwise-unfold a b =
      omega (arith, digits-count a (suc a / 2) (suc a / 2) (b / 2) (omega arith) (omega arith))

pub bit_and-low : (a b : ℕ) → bit_and a b ≡ bit_and (a / 2) (b / 2) * 2 + min (a % 2) (b % 2)
bit_and-low zero b = simp bit_and-bitwise (omega arith)
bit_and-low (suc a) b = simp bit_and-bitwise (bitwise-unfold (λ y. 0) min a b)

pub bit_or-low : (a b : ℕ) → bit_or a b ≡ bit_or (a / 2) (b / 2) * 2 + max (a % 2) (b % 2)
bit_or-low zero b = simp bit_or-bitwise (omega arith)
bit_or-low (suc a) b = simp bit_or-bitwise (bitwise-unfold (λ y. y) max a b)

bit_xor-low : (a b : ℕ) → bit_xor a b ≡ bit_xor (a / 2) (b / 2) * 2 + differ (a % 2) (b % 2)
bit_xor-low zero b = simp bit_xor-bitwise (omega arith)
bit_xor-low (suc a) b = simp bit_xor-bitwise (bitwise-unfold (λ y. y) differ a b)

-- The laws at 0, by recursion on a bound of the number.
bit_and-zero_below : (n a : ℕ) → a ≤ n → bit_and a 0 ≡ 0
bit_and-zero_below n zero h = refl
bit_and-zero_below zero (suc a) h = absurd (omega arith)
bit_and-zero_below (suc n) (suc a) h =
    omega (arith, bit_and-low (suc a) 0, bit_and-zero_below n (suc a / 2) (omega arith))

pub bit_and-zero : (a : ℕ) → bit_and a 0 ≡ 0
bit_and-zero a = bit_and-zero_below a a (omega arith)

pub bit_or-zero_below : (n a : ℕ) → a ≤ n → bit_or a 0 ≡ a
bit_or-zero_below n zero h = refl
bit_or-zero_below zero (suc a) h = absurd (omega arith)
bit_or-zero_below (suc n) (suc a) h =
    omega (arith, bit_or-low (suc a) 0, bit_or-zero_below n (suc a / 2) (omega arith))

pub bit_or-zero : (a : ℕ) → bit_or a 0 ≡ a
bit_or-zero a = bit_or-zero_below a a (omega arith)

differ-zero : (a : ℕ) → differ a 0 ≡ a
differ-zero zero = refl
differ-zero (suc a) = refl

bit_xor-zero_below : (n a : ℕ) → a ≤ n → bit_xor a 0 ≡ a
bit_xor-zero_below n zero h = refl
bit_xor-zero_below zero (suc a) h = absurd (omega arith)
bit_xor-zero_below (suc n) (suc a) h = omega (
  arith,
  bit_xor-low (suc a) 0,
  differ-zero (suc a % 2),
  bit_xor-zero_below n (suc a / 2) (omega arith),
)

pub double-pow : (q k : ℕ) → q * 2 ^ suc k ≡ 2 * (q * 2 ^ k)
double-pow q k = omega (arith, ap (λ (t : ℕ). q * t) (pow-suc 2 k))

mask-fields : (k q r : ℕ) → r < 2 ^ k → bit_and (q * 2 ^ k + r) (2 ^ k - 1) ≡ r
mask-fields zero q r h = ground (arith, bit_and-zero (q + r), bit_and-zero (q * 1 + r))
mask-fields (suc k) q r h = ground (
  arith,
  bit_and-low (q * 2 ^ suc k + r) (2 ^ suc k - 1),
  double-pow q k,
  pow-suc 2 k,
  one-le-pow k 2,
  mask-fields k q (r / 2) (omega (arith, pow-suc 2 k)),
)

-- A mask of `k` ones keeps the remainder by `2 ^ k`.
pub bit_and-mask : (k a : ℕ) → bit_and a (2 ^ k - 1) ≡ a % 2 ^ k
bit_and-mask k a = ground (arith, one-le-pow k 2, mask-fields k (a / 2 ^ k) (a % 2 ^ k))

flip-clear_fields :
    (k q r : ℕ) → r < 2 ^ k → bit_xor (2 * q * 2 ^ k + r) (2 ^ k) ≡ (2 * q + 1) * 2 ^ k + r
flip-clear_fields zero q r h = ground (arith, bit_xor-low (2 * q * 1 + r) 1, bit_xor-zero_below q q)
flip-clear_fields (suc k) q r h = ground (
  arith,
  bit_xor-low (2 * q * 2 ^ suc k + r) (2 ^ suc k),
  double-pow (2 * q) k,
  double-pow (2 * q + 1) k,
  pow-suc 2 k,
  differ-zero (r % 2),
  flip-clear_fields k q (r / 2) (omega (arith, pow-suc 2 k)),
)

flip-set_fields :
    (k q r : ℕ) → r < 2 ^ k → bit_xor ((2 * q + 1) * 2 ^ k + r) (2 ^ k) ≡ 2 * q * 2 ^ k + r
flip-set_fields zero q r h =
    ground (arith, bit_xor-low ((2 * q + 1) * 1 + r) 1, bit_xor-zero_below q q)
flip-set_fields (suc k) q r h = ground (
  arith,
  bit_xor-low ((2 * q + 1) * 2 ^ suc k + r) (2 ^ suc k),
  double-pow (2 * q) k,
  double-pow (2 * q + 1) k,
  pow-suc 2 k,
  differ-zero (r % 2),
  flip-set_fields k q (r / 2) (omega (arith, pow-suc 2 k)),
)

-- The buddy of a block that starts at a multiple `m` of its size: the other half of the pair.
pub bit_xor-even : (k m q : ℕ) → m ≡ 2 * q → bit_xor (m * 2 ^ k) (2 ^ k) ≡ (m + 1) * 2 ^ k
bit_xor-even k m q e = ground (arith, one-le-pow k 2, flip-clear_fields k q 0)

pub bit_xor-odd : (k m q : ℕ) → m ≡ 2 * q + 1 → bit_xor (m * 2 ^ k) (2 ^ k) ≡ 2 * q * 2 ^ k
bit_xor-odd k m q e = ground (arith, one-le-pow k 2, flip-set_fields k q 0)
