-- ===== src/Base/Vec.antt =====
-- `Vec<T>` as a list whose head is index 0, under native lengths.
use Prim.Native.Nat.{ℕ, zero, suc, ◌+◌, ◌≤◌, ◌<◌}
use mathlib.Core.Path.{◌≡◌, refl, ap, sym, subst}
use mathlib.Core.Logic.{inl, inr}
use mathlib.Core.Bool.{Bool, true, false}
use mathlib.Core.List.{List, [], ◌∷◌, ◌++◌}
use mathlib.Core.Option.{Option, none, some}
use native.Mathlib.Omega.{arith}
use zeroxos_os.Base.Tests.{if◌then◌else◌, ◌==◌, Bool-cases}

module _ {ℓ} {A : Type ℓ} where
  abbrev pub length : List A → ℕ
  length [] = 0
  length (x ∷ xs) = suc (length xs)

  abbrev pub get_or : List A → ℕ → A → A
  get_or [] i d = d
  get_or (x ∷ xs) zero d = x
  get_or (x ∷ xs) (suc i) d = get_or xs i d

  abbrev pub get_elem? : List A → ℕ → Option A
  get_elem? [] i = none
  get_elem? (x ∷ xs) zero = some x
  get_elem? (x ∷ xs) (suc i) = get_elem? xs i

  abbrev pub set : List A → ℕ → A → List A
  set [] i v = []
  set (x ∷ xs) zero v = v ∷ xs
  set (x ∷ xs) (suc i) v = x ∷ set xs i v

  abbrev pub take : ℕ → List A → List A
  take zero xs = []
  take (suc n) [] = []
  take (suc n) (x ∷ xs) = x ∷ take n xs

  abbrev pub drop : ℕ → List A → List A
  drop zero xs = xs
  drop (suc n) [] = []
  drop (suc n) (x ∷ xs) = drop n xs

  abbrev pub replicate : ℕ → A → List A
  replicate zero a = []
  replicate (suc n) a = a ∷ replicate n a

  -- `v.push(x)`.
  abbrev pub push : List A → A → List A
  push xs a = xs ++ a ∷ []

  abbrev pub is_empty : List A → Bool
  is_empty [] = true
  is_empty (x ∷ xs) = false

  -- `v.pop()`: the last element, and what stays.
  abbrev pub pop : List A → Option (A × List A)
  pop [] = none
  pop (x ∷ xs) = elim (pop xs) [ none ↦ some (x, []) | some (y, ys) ↦ some (y, x ∷ ys) ]

  -- `v.swap_remove(i)`: the last element takes the place of element `i`.
  unfoldable pub fill_with_last : Option (A × List A) → ℕ → List A
  fill_with_last none i = []
  fill_with_last (some (last, ys)) i = if i == length ys then ys else set ys i last

  abbrev pub swap_remove : List A → ℕ → List A
  swap_remove xs i = fill_with_last (pop xs) i

  -- `v.retain(keep)`.
  abbrev pub retain : (A → Bool) → List A → List A
  retain keep [] = []
  retain keep (x ∷ xs) = if keep x then x ∷ retain keep xs else retain keep xs

  -- `v.iter().find(test)`.
  abbrev pub find : (A → Bool) → List A → Option A
  find test [] = none
  find test (x ∷ xs) = if test x then some x else find test xs

  -- `v.iter().position(test)`.
  abbrev pub position : (A → Bool) → List A → Option ℕ
  position test [] = none
  position test (x ∷ xs) =
      if test x then some 0 else (elim (position test xs) [ none ↦ none | some i ↦ some (suc i) ])

  -- `if let Some(x) = v.iter_mut().find(test) { *x = change(x) }`.
  abbrev pub update_first : (A → Bool) → (A → A) → List A → List A
  update_first test change [] = []
  update_first test change (x ∷ xs) =
      if test x then change x ∷ xs else x ∷ update_first test change xs

  pub length-append : (xs ys : List A) → length (xs ++ ys) ≡ length xs + length ys
  length-append [] ys = omega arith
  length-append (x ∷ xs) ys = omega (arith, length-append xs ys)

  pub length-set : (xs : List A) (i : ℕ) (v : A) → length (set xs i v) ≡ length xs
  length-set [] i v = refl
  length-set (x ∷ xs) zero v = refl
  length-set (x ∷ xs) (suc i) v = ap suc (length-set xs i v)

  pub length-retain-le : (keep : A → Bool) (xs : List A) → length (retain keep xs) ≤ length xs
  length-retain-le keep [] = omega arith
  length-retain-le keep (x ∷ xs) = ground (arith, length-retain-le keep xs)

  pub length-update_first :
      (test : A → Bool) (change : A → A) (xs : List A)
      → length (update_first test change xs) ≡ length xs
  length-update_first test change [] = refl
  length-update_first test change (x ∷ xs) = ground (arith, length-update_first test change xs)

  -- A list that is not empty pops its last element.
  pub pop-cons :
      (x : A) (xs : List A)
      → (y : A) × (ys : List A) × (pop (x ∷ xs) ≡ some (y, ys)) × (x ∷ xs ≡ push ys y)
  pop-cons x [] = (x, [], refl, refl)
  pop-cons x (x' ∷ xs) =
      let (y, ys, e, split) = pop-cons x' xs in (y, x ∷ ys, rw e, ap (◌∷◌ x) split)

  pub push-append : (xs ys : List A) (x : A) → push xs x ++ ys ≡ xs ++ (x ∷ ys)
  push-append [] ys x = refl
  push-append (y ∷ xs) ys x = ap (λ t. y ∷ t) (push-append xs ys x)

  pub push-eq-append : (xs : List A) (x : A) → push xs x ≡ xs ++ (x ∷ [])
  push-eq-append [] x = refl
  push-eq-append (y ∷ xs) x = ap (λ t. y ∷ t) (push-eq-append xs x)

  pub length-push : (xs : List A) (x : A) → length (push xs x) ≡ suc (length xs)
  length-push [] x = refl
  length-push (y ∷ xs) x = ap suc (length-push xs x)

  pub get_or-push_last : (xs : List A) (x d : A) → get_or (push xs x) (length xs) d ≡ x
  get_or-push_last [] x d = refl
  get_or-push_last (y ∷ xs) x d = get_or-push_last xs x d

  pub get_or-push_lt :
      (xs : List A) (i : ℕ) (x d : A) → i < length xs → get_or (push xs x) i d ≡ get_or xs i d
  get_or-push_lt [] i x d h = elim h [ ]
  get_or-push_lt (y ∷ xs) zero x d h = refl
  get_or-push_lt (y ∷ xs) (suc i) x d h = get_or-push_lt xs i x d (omega arith)

-- A predicate on every element.
module _ {ℓ κ} {A : Type ℓ} (P : A → Type κ) where
  abbrev pub All : List A → Type κ
  All [] = Unit
  All (x ∷ xs) = P x × All xs

  pub All-push : (xs : List A) (x : A) → All xs → P x → All (push xs x)
  All-push [] x h p = (p, tt)
  All-push (y ∷ xs) x h p = (h.0, All-push xs x h.1 p)

  pub All-push_inv : (xs : List A) (x : A) → All (push xs x) → P x × All xs
  All-push_inv [] x h = (h.0, tt)
  All-push_inv (y ∷ xs) x h = let (p, q) = All-push_inv xs x h.1 in (p, (h.0, q))

  pub All-set : (xs : List A) (i : ℕ) (x : A) → All xs → P x → All (set xs i x)
  All-set [] i x h p = tt
  All-set (y ∷ xs) zero x h p = (p, h.1)
  All-set (y ∷ xs) (suc i) x h p = (h.0, All-set xs i x h.1 p)

  pub All-get_or : (xs : List A) (i : ℕ) (d : A) → All xs → i < length xs → P (get_or xs i d)
  All-get_or [] i d h lt = elim lt [ ]
  All-get_or (x ∷ xs) zero d h lt = h.0
  All-get_or (x ∷ xs) (suc i) d h lt = All-get_or xs i d h.1 (omega arith)

  All-fill_with_last :
      (ys : List A) (y : A) (i : ℕ) → All ys → P y → All (fill_with_last (some (y, ys)) i)
  unfolding fill_with_last
  All-fill_with_last ys y i h p = elim (Bool-cases (i == length ys)) [
    | inl e ↦ rw e h
    | inr e ↦ rw e (All-set ys i y h p)
  ]

  pub All-swap_remove : (xs : List A) (i : ℕ) → All xs → All (swap_remove xs i)
  unfolding fill_with_last
  All-swap_remove [] i h = tt
  All-swap_remove (x ∷ xs) i h =
      let (y, ys, popped, whole) = pop-cons x xs in
      let (p, q) = All-push_inv ys y (subst All whole h) in
      subst (λ o. All (fill_with_last o i)) (sym popped) (All-fill_with_last ys y i q p)

  pub All-retain : (keep : A → Bool) (xs : List A) → All xs → All (retain keep xs)
  All-retain keep [] h = tt
  All-retain keep (x ∷ xs) h = elim (Bool-cases (keep x)) [
    | inl e ↦ rw e (h.0, All-retain keep xs h.1)
    | inr e ↦ rw e (All-retain keep xs h.1)
  ]
