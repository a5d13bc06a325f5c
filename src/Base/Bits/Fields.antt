-- ===== src/Base/Bits/Fields.antt =====
-- The bit operations on numbers that are cut in two at a bit: they work on each part by itself.
use native.Mathlib.Nat.{mod-eq_of_lt, mul-one, add-zero, pow-suc, one-le-pow}
use zeroxos_os.Base.{
  ◌∙◌, ℕ, zero, suc, ◌+◌, ◌-◌, ◌*◌, ◌/◌, ◌%◌, ◌^◌, ◌<◌, bit_and, bit_or, ◌≡◌, refl, sym, ap, arith,
}
use zeroxos_os.Base.Bits.{
  bit_or-zero, bit_or-bitwise, bit_and-bitwise, bit_and-low, bit_or-low, bit_and-zero, bit_and-mask,
  double-pow,
}

pub bit_and_fields :
    (k a b r s : ℕ)
    → r < 2 ^ k
    → s < 2 ^ k
    → bit_and (a * 2 ^ k + r) (b * 2 ^ k + s) ≡ bit_and a b * 2 ^ k + bit_and r s
bit_and_fields zero a b r s h i =
    let r0 : r ≡ 0 = omega arith in
    let s0 : s ≡ 0 = omega arith in
    rw (r0, s0, mul-one, mul-one, mul-one, add-zero, add-zero) (sym (add-zero (bit_and a b)))
bit_and_fields (suc k) a b r s h i = ground (
  arith,
  bit_and-low (a * 2 ^ suc k + r) (b * 2 ^ suc k + s),
  bit_and-low r s,
  double-pow a k,
  double-pow b k,
  double-pow (bit_and a b) k,
  pow-suc 2 k,
  bit_and_fields k a b (r / 2) (s / 2) (omega (arith, pow-suc 2 k)) (omega (arith, pow-suc 2 k)),
)

pub bit_or_fields :
    (k a b r s : ℕ)
    → r < 2 ^ k
    → s < 2 ^ k
    → bit_or (a * 2 ^ k + r) (b * 2 ^ k + s) ≡ bit_or a b * 2 ^ k + bit_or r s
bit_or_fields zero a b r s h i =
    let r0 : r ≡ 0 = omega arith in
    let s0 : s ≡ 0 = omega arith in
    rw (r0, s0, mul-one, mul-one, mul-one, add-zero, add-zero) (sym (add-zero (bit_or a b)))
bit_or_fields (suc k) a b r s h i = ground (
  arith,
  bit_or-low (a * 2 ^ suc k + r) (b * 2 ^ suc k + s),
  bit_or-low r s,
  double-pow a k,
  double-pow b k,
  double-pow (bit_or a b) k,
  pow-suc 2 k,
  bit_or_fields k a b (r / 2) (s / 2) (omega (arith, pow-suc 2 k)) (omega (arith, pow-suc 2 k)),
)

pub two_pow_add : (n k : ℕ) → 2 ^ (n + k) ≡ 2 ^ n * 2 ^ k
two_pow_add zero k = let e : 0 + k ≡ k = omega arith in rw e (omega arith)
two_pow_add (suc n) k =
    let e : suc n + k ≡ suc (n + k) = omega arith in
    rw e (
      omega (
        arith,
        pow-suc 2 (n + k),
        pow-suc 2 n,
        two_pow_add n k,
        double-pow (2 ^ n) k,
        ap (λ (t : ℕ). t * 2 ^ k) (pow-suc 2 n),
      ))

pub zero-bit_and : (a : ℕ) → bit_and 0 a ≡ 0
zero-bit_and a = simp bit_and-bitwise refl

-- A mask with ones from bit `k` up, over a number of `n` bits more, clears the low bits.
pub bit_and-high_mask :
    (n k x : ℕ) → x < 2 ^ n * 2 ^ k → bit_and x ((2 ^ n - 1) * 2 ^ k) ≡ x / 2 ^ k * 2 ^ k
bit_and-high_mask n k x h =
    let low : x % 2 ^ k < 2 ^ k = ground (arith, one-le-pow k 2) in
    let e : x ≡ x / 2 ^ k * 2 ^ k + x % 2 ^ k = ground (arith, one-le-pow k 2) in
    let m : (2 ^ n - 1) * 2 ^ k ≡ (2 ^ n - 1) * 2 ^ k + 0 = omega arith in
    let top : x / 2 ^ k < 2 ^ n = grind (arith, one-le-pow k 2) in
    ap (λ t. bit_and t ((2 ^ n - 1) * 2 ^ k)) e
    ∙ ap (bit_and (x / 2 ^ k * 2 ^ k + x % 2 ^ k)) m
    ∙ bit_and_fields k (x / 2 ^ k) (2 ^ n - 1) (x % 2 ^ k) 0 low (omega (arith, one-le-pow k 2))
    ∙ omega (
      arith,
      bit_and-zero (x % 2 ^ k),
      ap (λ (t : ℕ). t * 2 ^ k) (bit_and-mask n (x / 2 ^ k) ∙ mod-eq_of_lt top),
    )

-- The same for numbers that are known to be cut so.
pub bit_and_cut :
    (k a b r s x y : ℕ)
    → x ≡ a * 2 ^ k + r
    → y ≡ b * 2 ^ k + s
    → r < 2 ^ k
    → s < 2 ^ k
    → bit_and x y ≡ bit_and a b * 2 ^ k + bit_and r s
bit_and_cut k a b r s x y e f h i = rw (e, f) (bit_and_fields k a b r s h i)

pub bit_or_cut :
    (k a b r s x y : ℕ)
    → x ≡ a * 2 ^ k + r
    → y ≡ b * 2 ^ k + s
    → r < 2 ^ k
    → s < 2 ^ k
    → bit_or x y ≡ bit_or a b * 2 ^ k + bit_or r s
bit_or_cut k a b r s x y e f h i = rw (e, f) (bit_or_fields k a b r s h i)

pub zero-bit_or : (a : ℕ) → bit_or 0 a ≡ a
zero-bit_or a = simp bit_or-bitwise refl

-- A number below a bit and a multiple of it share no bit.
pub bit_or_above : (k m y x z : ℕ) → x ≡ y → z ≡ m * 2 ^ k → y < 2 ^ k → bit_or x z ≡ m * 2 ^ k + y
bit_or_above k m y x z e f l =
    bit_or_cut k 0 m y 0 x z (omega arith) (omega arith) l (omega arith)
    ∙ omega (arith, bit_or-zero y, ap (λ (t : ℕ). t * 2 ^ k) (zero-bit_or m))
