-- ===== src/Memory/Buddy/Blocks.antt =====
-- Blocks of the buddy system: where they may start, and how two buddies make the next order.
use native.Mathlib.Nat.{pow-suc, pow-le-pow_right, one-le-pow}
use zeroxos_os.Base.{
  ℕ, zero, suc, ◌+◌, ◌*◌, ◌/◌, ◌%◌, ◌^◌, ◌≤◌, ◌<◌, min, bit_xor, ◌≡◌, ℕ_discrete, sym, ap, subst,
  ◌∙◌, ◌&&◌, List, [], ◌∷◌, if◌then◌else◌, leb, ltb, length, get_or, set, push, arith, All,
  All-push, u64_mod,
}
use zeroxos_os.Base.Bits.{bit_xor-even, bit_xor-odd}
use zeroxos_os.Memory.Buddy.{push_block}

-- A block of order `k` starts at a multiple of its size and does not leave the address space.
abbrev pub IsBlock : ℕ → ℕ → Type 0
IsBlock k b = (m : ℕ) × (b ≡ m * 2 ^ k) × (b + 2 ^ k ≤ u64_mod)

-- Every list holds blocks of its own order; the first list is list `i`.
abbrev pub AllBlocks : ℕ → List (List ℕ) → Type 0
AllBlocks i [] = Unit
AllBlocks i (l ∷ ls) = All (IsBlock i) l × AllBlocks (suc i) ls

AllBlocks-get_from :
    (i k j : ℕ) (ls : List (List ℕ))
    → j ≡ i + k
    → k < length ls
    → AllBlocks i ls
    → All (IsBlock j) (get_or ls k [])
AllBlocks-get_from i k j [] e lt h = elim lt [ ]
AllBlocks-get_from i zero j (l ∷ ls) e lt h = subst (λ t. All (IsBlock t) l) (omega arith) h.0
AllBlocks-get_from i (suc k) j (l ∷ ls) e lt h =
    AllBlocks-get_from (suc i) k j ls (omega arith) (omega arith) h.1

AllBlocks-set_from :
    (i k j : ℕ) (ls : List (List ℕ)) (l : List ℕ)
    → j ≡ i + k
    → AllBlocks i ls
    → All (IsBlock j) l
    → AllBlocks i (set ls k l)
AllBlocks-set_from i k j [] l e h a = tt
AllBlocks-set_from i zero j (x ∷ ls) l e h a = (subst (λ t. All (IsBlock t) l) (omega arith) a, h.1)
AllBlocks-set_from i (suc k) j (x ∷ ls) l e h a =
    (h.0, AllBlocks-set_from (suc i) k j ls l (omega arith) h.1 a)

pub AllBlocks-get :
    (k : ℕ) (ls : List (List ℕ)) → k < length ls → AllBlocks 0 ls → All (IsBlock k) (get_or ls k [])
AllBlocks-get k ls lt h = AllBlocks-get_from 0 k k ls (omega arith) lt h

pub AllBlocks-set :
    (k : ℕ) (ls : List (List ℕ)) (l : List ℕ)
    → AllBlocks 0 ls
    → All (IsBlock k) l
    → AllBlocks 0 (set ls k l)
AllBlocks-set k ls l h a = AllBlocks-set_from 0 k k ls l (omega arith) h a

pub AllBlocks-push :
    (k b : ℕ) (ls : List (List ℕ))
    → k < length ls
    → AllBlocks 0 ls
    → IsBlock k b
    → AllBlocks 0 (push_block k b ls)
unfolding push_block
AllBlocks-push k b ls lt h ok_b =
    AllBlocks-set k ls (push (get_or ls k []) b) h
      (All-push (IsBlock k) (get_or ls k []) b (AllBlocks-get k ls lt h) ok_b)

-- A weight that a block shares out to its two halves.
abbrev pub IsAdditive : (ℕ → ℕ → ℕ) → Type 0
IsAdditive f = (k b : ℕ) → f (suc k) b ≡ f k b + f k (b + 2 ^ k)

-- The number of pages of a block.
abbrev pub size : ℕ → ℕ → ℕ
size k b = 2 ^ k

pub size-IsAdditive : IsAdditive size
size-IsAdditive k b = omega (arith, pow-suc 2 k)

-- 1 for a page of the block, 0 for any other.
abbrev pub inside : ℕ → ℕ → ℕ → ℕ
inside p k b = if leb b p && ltb p (b + 2 ^ k) then 1 else 0

pub inside-IsAdditive : (p : ℕ) → IsAdditive (inside p)
inside-IsAdditive p k b = ground (arith, pow-suc 2 k, one-le-pow k 2)

pub pow-le_of_le : (k n : ℕ) → k ≤ n → 2 ^ k ≤ 2 ^ n
pow-le_of_le k n h = pow-le-pow_right (omega arith) h

-- The halves of a block.
pub IsBlock-halves : (k b : ℕ) → IsBlock (suc k) b → IsBlock k b × IsBlock k (b + 2 ^ k)
IsBlock-halves k b (m, e, h) = (
  (
    2 * m,
    omega (arith, pow-suc 2 k, ap (λ (t : ℕ). m * t) (pow-suc 2 k)),
    omega (arith, pow-suc 2 k),
  ),
  (
    2 * m + 1,
    omega (arith, pow-suc 2 k, ap (λ (t : ℕ). m * t) (pow-suc 2 k)),
    omega (arith, pow-suc 2 k),
  ),
)

-- Block `a` of the next order is the union of `b` and `c`.
abbrev pub Joins : ℕ → ℕ → ℕ → ℕ → Type 0
Joins k b c a = IsBlock (suc k) a × ((f : ℕ → ℕ → ℕ) → IsAdditive f → f (suc k) a ≡ f k b + f k c)

join-halves :
    (k q b c : ℕ) → b ≡ 2 * q * 2 ^ k → c ≡ b + 2 ^ k → c + 2 ^ k ≤ u64_mod → Joins k b c b
join-halves k q b c low high h = (
  (q, omega (arith, ap (λ (t : ℕ). q * t) (pow-suc 2 k)), omega (arith, pow-suc 2 k)),
  λ f add. add k b ∙ ap (λ (t : ℕ). f k b + f k t) (sym high),
)

Joins-swap : (k b c a : ℕ) → Joins k b c a → Joins k c b a
Joins-swap k b c a (block, worth) = (block, λ f add. omega (arith, worth f add))

-- The buddies make the block of the next order, which starts at the lower one.
pub buddy-Joins :
    (k b : ℕ)
    → IsBlock k b
    → IsBlock k (bit_xor b (2 ^ k))
    → Joins k b (bit_xor b (2 ^ k)) (min b (bit_xor b (2 ^ k)))
buddy-Joins k b (m, at, fits) (_, _, fits') = elim (ℕ_discrete (m % 2) 0) [
  | yes even ↦
      let flip : bit_xor b (2 ^ k) ≡ b + 2 ^ k =
        rw at (omega (arith, bit_xor-even k m (m / 2) (omega arith))) in
      let low : b ≡ 2 * (m / 2) * 2 ^ k = at ∙ ap (λ (t : ℕ). t * 2 ^ k) (omega arith) in
      let lower : min b (bit_xor b (2 ^ k)) ≡ b = omega arith in
      rw lower (join-halves k (m / 2) b (bit_xor b (2 ^ k)) low flip fits')
  | no odd ↦
      let c = bit_xor b (2 ^ k) in
      let odd_quotient : m ≡ 2 * (m / 2) + 1 = omega arith in
      let flip : c ≡ 2 * (m / 2) * 2 ^ k = rw at (bit_xor-odd k m (m / 2) (omega arith)) in
      let high : b ≡ c + 2 ^ k = at ∙ omega (arith, flip, ap (λ (t : ℕ). t * 2 ^ k) odd_quotient) in
      let lower : min b c ≡ c = omega arith in
      rw lower (Joins-swap k c b c (join-halves k (m / 2) c b flip high fits))
]
