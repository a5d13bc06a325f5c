-- ===== src/Memory/Buddy/Weight.antt =====
-- Sums over the free lists: every block `b` of list `k` counts `f k b`. With the size of a block
-- for `f` this is the number of free pages; with `inside p` it says how often page `p` is free.
use zeroxos_os.Base.{
  ℕ, zero, suc, ◌+◌, ◌<◌, ◌≡◌, sym, ap, subst, ◌∙◌, false, none, some, List, [], ◌∷◌, ◌==◌, length,
  get_or, set, push, swap_remove, position, arith, pop-cons, length-push, get_or-push_last,
  get_or-push_lt, inl, inr, Bool-cases, ==_iff, swap_remove, fill_with_last,
}
use zeroxos_os.Memory.Buddy.{push_block}

module _ (g : ℕ → ℕ) where
  abbrev pub sum_by : List ℕ → ℕ
  sum_by [] = 0
  sum_by (x ∷ xs) = g x + sum_by xs

  pub sum_by-push : (xs : List ℕ) (x : ℕ) → sum_by (push xs x) ≡ sum_by xs + g x
  sum_by-push [] x = omega arith
  sum_by-push (y ∷ xs) x = omega (arith, sum_by-push xs x)

  pub sum_by-set :
      (xs : List ℕ) (i x d : ℕ)
      → i < length xs
      → sum_by (set xs i x) + g (get_or xs i d) ≡ sum_by xs + g x
  sum_by-set [] i x d h = elim h [ ]
  sum_by-set (y ∷ xs) zero x d h = omega arith
  sum_by-set (y ∷ xs) (suc i) x d h = omega (arith, sum_by-set xs i x d (omega arith))

  sum_by-fill_with_last :
      (ys : List ℕ) (y i : ℕ)
      → i < suc (length ys)
      → sum_by (fill_with_last (some (y, ys)) i) + g (get_or (push ys y) i 0) ≡ sum_by (push ys y)
  unfolding fill_with_last
  sum_by-fill_with_last ys y i h = elim (Bool-cases (i == length ys)) [
    | inl end ↦
        rw (end, (==_iff i (length ys)).0 end)
          (omega (arith, ap g (get_or-push_last ys y 0), sum_by-push ys y))
    | inr mid ↦ rw mid (
        omega (
          arith,
          ap g (get_or-push_lt ys i y 0 (ground arith)),
          sum_by-set ys i y 0 (ground arith),
          sum_by-push ys y,
        ))
  ]

  -- `swap_remove` takes out one element, and keeps the others.
  pub sum_by-swap_remove :
      (xs : List ℕ) (i : ℕ)
      → i < length xs
      → sum_by (swap_remove xs i) + g (get_or xs i 0) ≡ sum_by xs
  sum_by-swap_remove [] i h = elim h [ ]
  sum_by-swap_remove (x ∷ xs) i h =
      let (y, ys, popped, whole) = pop-cons x xs in
      let n : suc (length xs) ≡ suc (length ys) = ap length whole ∙ length-push ys y in
      subst (λ o. sum_by (fill_with_last o i) + g (get_or (x ∷ xs) i 0) ≡ sum_by (x ∷ xs))
        (sym popped)
        (subst (λ l. sum_by (fill_with_last (some (y, ys)) i) + g (get_or l i 0) ≡ sum_by l)
          (sym whole) (sum_by-fill_with_last ys y i (omega arith)))

-- `position` gives an index in range, of an element that passes the test.
pub position-some :
    (a : ℕ) (xs : List ℕ) (i : ℕ)
    → position (λ b. b == a) xs ≡ some i
    → (i < length xs) × (get_or xs i 0 ≡ a)
position-some a [] i e = ground arith
position-some a (x ∷ xs) zero e = ground arith
position-some a (x ∷ xs) (suc i) e = ground (arith, position-some a xs i)

pub position-none :
    (a : ℕ) (xs : List ℕ) (i : ℕ)
    → position (λ b. b == a) xs ≡ none
    → i < length xs
    → (get_or xs i 0 == a) ≡ false
position-none a [] i e h = elim h [ ]
position-none a (x ∷ xs) zero e h = ground arith
position-none a (x ∷ xs) (suc i) e h = ground (arith, position-none a xs i)

module _ (f : ℕ → ℕ → ℕ) where
  -- The sum over the lists from list `i` on.
  abbrev pub weight : ℕ → List (List ℕ) → ℕ
  weight i [] = 0
  weight i (l ∷ ls) = sum_by (f i) l + weight (suc i) ls

  -- A new list `k` exchanges the weight of the old one for its own.
  weight-set_from :
      (i k j : ℕ) (ls : List (List ℕ)) (l : List ℕ)
      → j ≡ i + k
      → k < length ls
      → weight i (set ls k l) + sum_by (f j) (get_or ls k []) ≡ weight i ls + sum_by (f j) l
  weight-set_from i k j [] l e h = elim h [ ]
  weight-set_from i zero j (x ∷ ls) l e h = let e' : j ≡ i = omega arith in rw e' (omega arith)
  weight-set_from i (suc k) j (x ∷ ls) l e h =
      omega (arith, weight-set_from (suc i) k j ls l (omega arith) (omega arith))

  pub weight-set :
      (k : ℕ) (ls : List (List ℕ)) (l : List ℕ)
      → k < length ls
      → weight 0 (set ls k l) + sum_by (f k) (get_or ls k []) ≡ weight 0 ls + sum_by (f k) l
  weight-set k ls l h = weight-set_from 0 k k ls l (omega arith) h

  pub weight-push_block :
      (k b : ℕ) (ls : List (List ℕ))
      → k < length ls
      → weight 0 (push_block k b ls) ≡ weight 0 ls + f k b
  unfolding push_block
  weight-push_block k b ls h =
      omega
        (arith, weight-set k ls (push (get_or ls k []) b) h, sum_by-push (f k) (get_or ls k []) b)
