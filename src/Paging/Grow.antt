-- ===== src/Paging/Grow.antt =====
-- A table is added to the tree: what is found stays the same.
use zeroxos_os.Base.{
  ℕ, ◌+◌, ◌<◌, ◌≡◌, ◌≢◌, refl, sym, ap, ◌∙◌, arith, true, false, none, some, List, [], ◌∷◌, length,
  ==_ne, inl, inr, ◌⊎◌, ==_self, ℕ_discrete,
}
use zeroxos_os.Paging.{Tables, present, huge, address, store}
use zeroxos_os.Paging.Tree.{
  translate-absent, translate-through, translate-leaf, Places, place_at, IsTree, Agree, AllPages,
  translate-step, translate-empty, store_self, store-other_frame, entry-cases, same_place,
}

-- A place in the first stays in the second.
unfoldable pub Extends : Places → Places → Type 0
Extends place place' = (p : ℕ) (path : List ℕ) → place p ≡ some path → place' p ≡ some path

-- Entries that are present stay as they are.
unfoldable pub Kept : Places → Tables → Tables → Type 0
Kept place t t' =
    (p i : ℕ) (path : List ℕ) → place p ≡ some path → present (t p i) ≡ true → t' p i ≡ t p i

-- A write to an entry that is not present.
pub store-Kept :
    (place : Places) (t : Tables) (table i entry : ℕ)
    → present (t table i) ≡ false
    → Kept place t (store t table i entry)
unfolding Kept
store-Kept place t table i entry absent p j path at y = elim (entry-cases table i p j) [
  | inr same ↦ same t entry
  | inl (f, g) ↦ (let no : present (t p j) ≡ false = rw (f, g) absent in absurd cc)
]

pub Agree-trans :
    (Covered : List ℕ → Type 0) (place place' : Places) (t t1 t2 : Tables)
    → Extends place place'
    → Agree Covered place t t1
    → Agree Covered place' t1 t2
    → Agree Covered place t t2
unfolding Agree Extends
Agree-trans Covered place place' t t1 t2 grows a b level is last virt p path at e c =
    b level is last virt p path (grows p path at) e c ∙ a level is last virt p path at e c

pub Kept-trans :
    (place place' : Places) (t t1 t2 : Tables)
    → Extends place place'
    → Kept place t t1
    → Kept place' t1 t2
    → Kept place t t2
unfolding Kept Extends
Kept-trans place place' t t1 t2 grows a b p i path at y =
    let same = a p i path at y in b p i path (grows p path at) (rw same y) ∙ same

-- `t0` has a zeroed frame `new`, which the entry `i` of `table` leads to.
module _ (place : Places) (t t0 : Tables) (table i new entry : ℕ) (path : List ℕ)
    (tree : IsTree place t) (at : place table ≡ some path) (above : length path < 3)
    (absent : present (t table i) ≡ false) (unused : place new ≡ none)
    (zeroed : (j : ℕ) → t0 new j ≡ 0) (others : (p j : ℕ) → p ≢ new → t0 p j ≡ t p j)
    (there : present entry ≡ true) (small : huge entry ≡ false) (leads : address entry ≡ new) where
  abbrev pub grown : Tables
  grown = store t0 table i entry

  abbrev pub grown_place : Places
  grown_place = place_at place new (i ∷ path)

  known-ne : (p : ℕ) (other : List ℕ) → place p ≡ some other → p ≢ new
  known-ne p other e d = let f : none ≡ some other = sym unused ∙ ap place (sym d) ∙ e in cc

  grown_place-old : (p : ℕ) → p ≢ new → grown_place p ≡ place p
  grown_place-old p d = rw (==_ne p new d) refl

  grow-Extends : Extends place grown_place
  unfolding Extends
  grow-Extends p other e = rw (==_ne p new (known-ne p other e)) e

  grown-new : (j : ℕ) → grown new j ≡ 0
  grown-new j =
      store-other_frame t0 table i entry new j (λ e. known-ne table path at (sym e)) ∙ zeroed j

  -- An entry of a table that was there: the one that was written, or the one it was.
  grown-cases :
      (p j : ℕ) (other : List ℕ)
      → place p ≡ some other
      → ((p ≡ table) × (j ≡ i) × (grown p j ≡ entry)) ⊎ (grown p j ≡ t p j)
  grown-cases p j other e = elim (entry-cases table i p j) [
    | inl (f, g) ↦ inl (f, g, rw (f, g) (store_self t0 table i entry))
    | inr same ↦ inr (same t0 entry ∙ others p j (known-ne p other e))
  ]

  grow-Kept : Kept place t grown
  unfolding Kept
  grow-Kept p j other e y = elim (grown-cases p j other e) [
    | inl (f, g, w) ↦ (let no : present (t p j) ≡ false = rw (f, g) absent in absurd cc)
    | inr same ↦ same
  ]

  grow-Agree : Agree AllPages place t grown
  unfolding Agree IsTree
  grow-Agree level [] last virt p other e l c =
      translate-leaf level last virt p t grown (elim (grown-cases p last other e) [
        | inr same ↦ same
        | inl (f, g, w) ↦ omega (arith, ap length (same_place place p table other path e at f))
      ])
  grow-Agree level (j ∷ is) last virt p other e l c = elim (grown-cases p j other e) [
    | inl (f, g, w) ↦
        translate-through level j is last virt p new grown (rw w there) (rw w small) (rw w leads)
        ∙ translate-empty (level + 1) is last virt new grown grown-new
        ∙ sym (translate-absent level j is last virt p t (rw (f, g) absent))
    | inr same ↦ translate-step level j is last virt p t grown same λ y n.
        grow-Agree (level + 1) is last virt _ (j ∷ other) (tree p j other e (omega arith) y n)
          (omega arith) c
  ]

  grow-IsTree : IsTree grown_place grown
  unfolding IsTree Extends
  grow-IsTree p j other e l y n = elim (ℕ_discrete p new) [
    | yes d ↦
        (let zero_there : grown p j ≡ 0 = rw d (grown-new j) in
          let no : present (grown p j) ≡ false = rw zero_there refl in absurd cc)
    | no d ↦
        let known : place p ≡ some other = sym (grown_place-old p d) ∙ e in
        elim (grown-cases p j other known) [
          | inl (f, g, w) ↦
              ap (λ x. grown_place (address x)) w
              ∙ ap grown_place leads
              ∙ rw (==_self new, g, same_place place p table other path known at f) refl
          | inr same ↦
              ap (λ x. grown_place (address x)) same
              ∙ grow-Extends _ _ (tree p j other known l (rw (sym same) y) (rw (sym same) n))
        ]
  ]

  pub grow_lem :
      Extends place grown_place
      × Kept place t grown
      × Agree AllPages place t grown
      × IsTree grown_place grown
  grow_lem = (grow-Extends, grow-Kept, grow-Agree, grow-IsTree)
