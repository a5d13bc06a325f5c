-- ===== src/Paging/Tree.antt =====
-- The tables as a tree: each table has one place in it, the indices that lead there, last first.
use zeroxos_os.Base.{
  is_some, bit_or, ℕ_discrete, Bool-cases, ◌⊎◌, ==_ne, ==_self, ◌<◌, ℕ, ◌+◌, ◌≡◌, ◌≢◌, refl, sym,
  ap, ◌∙◌, arith, true, false, Option, none, some, List, [], ◌∷◌, ◌++◌, length, if◌then◌else◌, ◌==◌,
  inl, inr,
}
use zeroxos_os.Paging.{
  Tables, FrameAllocator, present, huge, address, store, translate_from, unmap_from, page_offset,
}
use zeroxos_os.Paging.Entries.{IsFrame}

-- Where a table is: `none` for a frame that holds no table.
abbrev pub Places : Type 0
Places = ℕ → Option (List ℕ)

abbrev pub place_at : Places → ℕ → List ℕ → Places
place_at place frame path p = if p == frame then some path else place p

-- An entry above the leaves that is present and not a huge page leads to the table at its place.
unfoldable pub IsTree : Places → Tables → Type 0
IsTree place t =
    (p i : ℕ) (path : List ℕ)
    → place p ≡ some path
    → length path < 3
    → present (t p i) ≡ true
    → huge (t p i) ≡ false
    → place (address (t p i)) ≡ some (i ∷ path)

-- What the code relies on: a frame that is given was free, is aligned, and comes zeroed; the
-- other tables stay as they are, and the frame is not free any more.
pub record IsAllocator {S : Type 0} (frames : FrameAllocator S) (IsFree : S → ℕ → Type 0)
    : Type 0 where
  pub aligned :
      (s s' : S) (t t' : Tables) (new : ℕ)
      → frames.alloc_zeroed s t ≡ some (new, (s', t'))
      → IsFrame new
  pub was_free :
      (s s' : S) (t t' : Tables) (new : ℕ)
      → frames.alloc_zeroed s t ≡ some (new, (s', t'))
      → IsFree s new
  pub zeroed :
      (s s' : S) (t t' : Tables) (new : ℕ)
      → frames.alloc_zeroed s t ≡ some (new, (s', t'))
      → (i : ℕ) → t' new i ≡ 0
  pub others :
      (s s' : S) (t t' : Tables) (new : ℕ)
      → frames.alloc_zeroed s t ≡ some (new, (s', t'))
      → (p i : ℕ) → p ≢ new
      → t' p i ≡ t p i
  pub taken :
      (s s' : S) (t t' : Tables) (new : ℕ)
      → frames.alloc_zeroed s t ≡ some (new, (s', t'))
      → (p : ℕ) → IsFree s' p
      → IsFree s p × (p ≢ new)

-- A walk through an empty table finds nothing.
pub translate-empty :
    (level : ℕ) (is : List ℕ) (last virt p : ℕ) (t : Tables)
    → ((i : ℕ) → t p i ≡ 0)
    → translate_from level is last virt p t ≡ none
unfolding translate_from
translate-empty level [] last virt p t h = rw (h last) refl
translate-empty level (i ∷ is) last virt p t h = rw (h i) refl

-- The indices from the root: a path, which is last first, and what follows it.
unfoldable pub full : List ℕ → List ℕ → List ℕ
full [] is = is
full (i ∷ path) is = full path (i ∷ is)

-- Walks that leave a table known in `place` for a page in `Covered` find the same in both memories.
unfoldable pub Agree : (List ℕ → Type 0) → Places → Tables → Tables → Type 0
Agree Covered place t t' =
    (level : ℕ) (is : List ℕ) (last virt p : ℕ) (path : List ℕ)
    → place p ≡ some path
    → length path + length is ≡ 3
    → Covered (full path (is ++ (last ∷ [])))
    → translate_from level is last virt p t' ≡ translate_from level is last virt p t

abbrev pub AllPages : List ℕ → Type 0
AllPages page = Unit

abbrev pub Not : List ℕ → List ℕ → Type 0
Not page other = other ≢ page

pub translate-leaf :
    (level last virt p : ℕ) (t t' : Tables)
    → t' p last ≡ t p last
    → translate_from level [] last virt p t' ≡ translate_from level [] last virt p t
unfolding translate_from
translate-leaf level last virt p t t' e = rw e refl

pub translate-step :
    (level i : ℕ) (is : List ℕ) (last virt p : ℕ) (t t' : Tables)
    → t' p i ≡ t p i
    → (present (t p i) ≡ true
        → huge (t p i) ≡ false
        → translate_from (level + 1) is last virt (address (t p i)) t'
          ≡ translate_from (level + 1) is last virt (address (t p i)) t)
    → translate_from level (i ∷ is) last virt p t' ≡ translate_from level (i ∷ is) last virt p t
unfolding translate_from
translate-step level i is last virt p t t' e k = elim (Bool-cases (present (t p i))) [
  | inr n ↦ rw (e, n) refl
  | inl y ↦ elim (Bool-cases (huge (t p i))) [
    | inl h ↦ rw (e, y, h) refl
    | inr n ↦ rw (e, y, n) (k y n)
  ]
]

pub translate-absent :
    (level i : ℕ) (is : List ℕ) (last virt p : ℕ) (t : Tables)
    → present (t p i) ≡ false
    → translate_from level (i ∷ is) last virt p t ≡ none
unfolding translate_from
translate-absent level i is last virt p t n = rw n refl

pub translate-through :
    (level i : ℕ) (is : List ℕ) (last virt p next : ℕ) (t : Tables)
    → present (t p i) ≡ true
    → huge (t p i) ≡ false
    → address (t p i) ≡ next
    → translate_from level (i ∷ is) last virt p t ≡ translate_from (level + 1) is last virt next t
unfolding translate_from
translate-through level i is last virt p next t y n e = rw (y, n, e) refl

pub translate-leaf_absent :
    (level last virt p : ℕ) (t : Tables)
    → present (t p last) ≡ false
    → translate_from level [] last virt p t ≡ none
unfolding translate_from
translate-leaf_absent level last virt p t n = rw n refl

pub translate-leaf_present :
    (level last virt p leaf : ℕ) (t : Tables)
    → t p last ≡ leaf
    → present leaf ≡ true
    → translate_from level [] last virt p t ≡ some (bit_or (address leaf) (page_offset virt))
unfolding translate_from
translate-leaf_present level last virt p leaf t e y = rw (e, y) refl

pub translate-huge :
    (level i : ℕ) (is : List ℕ) (last virt p : ℕ) (t : Tables)
    → present (t p i) ≡ true
    → huge (t p i) ≡ true
    → is_some (translate_from level (i ∷ is) last virt p t) ≡ true
unfolding translate_from
translate-huge level i is last virt p t y h = rw (y, h) refl

pub unmap-through :
    (i : ℕ) (is : List ℕ) (last p next : ℕ) (t : Tables)
    → present (t p i) ≡ true
    → huge (t p i) ≡ false
    → address (t p i) ≡ next
    → unmap_from (i ∷ is) last p t ≡ unmap_from is last next t
unfolding unmap_from
unmap-through i is last p next t y n e = rw (y, n, e) refl

pub unmap-leaf_present :
    (last p leaf : ℕ) (t : Tables)
    → t p last ≡ leaf
    → present leaf ≡ true
    → unmap_from [] last p t ≡ (some (address leaf), store t p last 0)
unfolding unmap_from
unmap-leaf_present last p leaf t e y = rw (e, y) refl

pub store_self : (t : Tables) (p i x : ℕ) → store t p i x p i ≡ x
store_self t p i x = rw (==_self p, ==_self i) refl

pub store-other_frame : (t : Tables) (p i x q j : ℕ) → q ≢ p → store t p i x q j ≡ t q j
store-other_frame t p i x q j d = rw (==_ne q p d) refl

pub store-other_index : (t : Tables) (p i x q j : ℕ) → j ≢ i → store t p i x q j ≡ t q j
store-other_index t p i x q j d = rw (==_ne j i d) (ground arith)

-- Two entries are the same one or not.
pub entry-cases :
    (p i q j : ℕ) → ((q ≡ p) × (j ≡ i)) ⊎ ((t : Tables) (x : ℕ) → store t p i x q j ≡ t q j)
entry-cases p i q j = elim (ℕ_discrete q p) [
  | no d ↦ inr λ t x. store-other_frame t p i x q j d
  | yes e ↦ elim (ℕ_discrete j i) [
    | no d ↦ inr λ t x. store-other_index t p i x q j d
    | yes f ↦ inl (e, f)
  ]
]

pub some-injective : {A : Type 0} (d a b : A) → some a ≡ some b → a ≡ b
some-injective d a b e = ap (λ o. elim o [ none ↦ d | some x ↦ x ]) e

-- A frame has one place.
pub same_place :
    (place : Places) (p q : ℕ) (path other : List ℕ)
    → place p ≡ some path
    → place q ≡ some other
    → p ≡ q
    → path ≡ other
same_place place p q path other e f d = some-injective [] path other (sym e ∙ ap place d ∙ f)

-- A leaf is written: only its page changes.
pub store-Agree :
    (place : Places) (t : Tables) (table last leaf : ℕ) (path : List ℕ)
    → IsTree place t
    → place table ≡ some path
    → length path ≡ 3
    → Agree (Not (full path (last ∷ []))) place t (store t table last leaf)
unfolding Agree IsTree full
store-Agree place t table last leaf path tree at three level [] last' virt p path' at' e d =
    translate-leaf level last' virt p t _ (elim (entry-cases table last p last') [
      | inr other ↦ other t leaf
      | inl (f, g) ↦ absurd (d (rw (g, same_place place p table path' path at' at f) refl))
    ])
store-Agree place t table last leaf path tree at three level (i ∷ is) last' virt p path' at' e d =
    translate-step level i is last' virt p t _
      (store-other_frame t table last leaf p i
        λ f. omega (arith, ap length (same_place place p table path' path at' at f)))
      λ y n.
        store-Agree place t table last leaf path tree at three (level + 1) is last' virt _
          (i ∷ path') (tree p i path' at' (omega arith) y n) (omega arith) d

-- A leaf is not an entry of the tree above it.
pub store-IsTree :
    (place : Places) (t : Tables) (table last leaf : ℕ) (path : List ℕ)
    → IsTree place t
    → place table ≡ some path
    → length path ≡ 3
    → IsTree place (store t table last leaf)
unfolding IsTree
store-IsTree place t table last leaf path tree at three p i path' at' l y n =
    let same =
      store-other_frame t table last leaf p i
        λ f. omega (arith, ap length (same_place place p table path' path at' at f)) in
    rw same (tree p i path' at' l (rw (sym same) y) (rw (sym same) n))
