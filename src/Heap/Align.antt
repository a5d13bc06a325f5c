-- ===== src/Heap/Align.antt =====
-- `align_up` in arithmetic: the next multiple of a power of two.
use native.Mathlib.Nat.{
  one-le-pow, div-lt_iff_lt-mul, mul-le-mul_right, mul_assoc, lt-div-mul-add, div-mul-le_self,
  mul-mod_left, mod-add-div', mul-add-div_right, div-eq_of_lt,
}
use zeroxos_os.Base.{
  ℕ, zero, suc, ◌+◌, ◌-◌, ◌*◌, ◌/◌, ◌%◌, ◌^◌, ◌≤◌, ◌<◌, ◌≡◌, sym, ap, ◌∙◌, arith, add64, sub64,
  u64_mod,
}
use zeroxos_os.Base.Bits.Fields.{two_pow_add, bit_and-high_mask}
use zeroxos_os.Heap.{align_up, not64}

pub pred-mul : (a b : ℕ) → 0 < a → (a - 1) * b + b ≡ a * b
pred-mul zero b h = absurd (omega arith)
pred-mul (suc a) b h = grind arith

-- Rounding up to a multiple of `p`, in arithmetic.
round_up :
    (p addr : ℕ)
    → 0 < p
    → let a = (addr + p - 1) / p * p in
      (addr ≤ a) × (a < addr + p) × (a % p ≡ 0) × ((addr % p ≡ 0) → a ≡ addr)
round_up p addr pos = (
  omega (arith, lt-div-mul-add {a = addr + p - 1} {b = p} pos),
  omega (arith, div-mul-le_self (addr + p - 1) p),
  mul-mod_left ((addr + p - 1) / p) p,
  λ e.
      let c : addr ≡ addr / p * p = omega (arith, mod-add-div' addr p) in
      let d : addr + p - 1 ≡ addr / p * p + (p - 1) = omega arith in
      let q : (addr + p - 1) / p ≡ addr / p =
        ap (λ (t : ℕ). t / p) d
        ∙ mul-add-div_right pos (addr / p) (p - 1)
        ∙ omega (arith, div-eq_of_lt {n = p - 1} {m = p} (omega arith)) in
      ap (λ (t : ℕ). t * p) q ∙ sym c,
)

pub align_up-eq :
    (k addr : ℕ)
    → k ≤ 63
    → addr + 2 ^ k < u64_mod
    → align_up addr (2 ^ k) ≡ (addr + 2 ^ k - 1) / 2 ^ k * 2 ^ k
unfolding align_up
align_up-eq k addr h small =
    let width : 2 ^ (64 - k) * 2 ^ k ≡ u64_mod =
      let e : 64 - k + k ≡ 64 = omega arith in
      sym (two_pow_add (64 - k) k) ∙ ap (λ (t : ℕ). 2 ^ t) e in
    let mask : not64 (sub64 (2 ^ k) 1) ≡ (2 ^ (64 - k) - 1) * 2 ^ k = omega (
      arith,
      width,
      one-le-pow k 2,
      pred-mul (2 ^ (64 - k)) (2 ^ k) (omega (arith, one-le-pow (64 - k) 2)),
    ) in
    let word : sub64 (add64 addr (2 ^ k)) 1 ≡ addr + 2 ^ k - 1 = omega (arith, one-le-pow k 2) in
    rw (word, mask)
      (bit_and-high_mask (64 - k) k (addr + 2 ^ k - 1) (omega (arith, width, one-le-pow k 2)))

-- What is used of it.
pub align_up_bounds :
    (k addr : ℕ)
    → k ≤ 63
    → addr + 2 ^ k < u64_mod
    → let a = align_up addr (2 ^ k) in
      (addr ≤ a) × (a < addr + 2 ^ k) × (a % 2 ^ k ≡ 0) × ((addr % 2 ^ k ≡ 0) → a ≡ addr)
align_up_bounds k addr h small =
    rw (align_up-eq k addr h small) (round_up (2 ^ k) addr (omega (arith, one-le-pow k 2)))

-- It is the least one: a multiple of `2 ^ k` from the address on is not below it.
pub align_up_least :
    (k addr a : ℕ)
    → k ≤ 63
    → addr + 2 ^ k < u64_mod
    → a % 2 ^ k ≡ 0
    → addr ≤ a
    → align_up addr (2 ^ k) ≤ a
align_up_least k addr a h small e from =
    let pos : 0 < 2 ^ k = omega (arith, one-le-pow k 2) in
    let c : a ≡ a / 2 ^ k * 2 ^ k = omega (arith, mod-add-div' a (2 ^ k)) in
    let next : (a / 2 ^ k + 1) * 2 ^ k ≡ a / 2 ^ k * 2 ^ k + 2 ^ k = grind arith in
    let below : (addr + 2 ^ k - 1) / 2 ^ k < a / 2 ^ k + 1 =
      (div-lt_iff_lt-mul pos).1 (omega arith) in
    let scaled : (addr + 2 ^ k - 1) / 2 ^ k * 2 ^ k ≤ a / 2 ^ k * 2 ^ k =
      mul-le-mul_right (2 ^ k) (omega arith) in
    omega (arith, align_up-eq k addr h small)

-- A multiple of a power of two from 8 on is a multiple of 8.
pub mod_eight : (j x : ℕ) → 3 ≤ j → x % 2 ^ j ≡ 0 → x % 8 ≡ 0
mod_eight j x h e =
    let s : j - 3 + 3 ≡ j = omega arith in
    let w : 2 ^ j ≡ 2 ^ (j - 3) * 8 = ap (λ (t : ℕ). 2 ^ t) (sym s) ∙ two_pow_add (j - 3) 3 in
    let c : x ≡ x / 2 ^ j * 2 ^ (j - 3) * 8 = omega (
      arith,
      mod-add-div' x (2 ^ j),
      ap (λ (t : ℕ). x / 2 ^ j * t) w,
      mul_assoc (x / 2 ^ j) (2 ^ (j - 3)) 8,
    ) in
    ap (λ (t : ℕ). t % 8) c ∙ mul-mod_left (x / 2 ^ j * 2 ^ (j - 3)) 8
