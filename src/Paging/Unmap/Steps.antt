-- ===== src/Paging/Unmap/Steps.antt =====
-- The rounds of `unmap_page_in`, each from one table to the next.
use zeroxos_os.Base.{
  ℕ, ◌+◌, ◌<◌, ◌≡◌, refl, ap, ◌∙◌, arith, true, false, Option, none, some, List, [], ◌∷◌, ◌++◌,
  length, Bool-cases, inl, inr, bit_or,
}
use zeroxos_os.Paging.{Tables, present, huge, address, translate_from, page_offset, unmap_from}
use zeroxos_os.Paging.Tree.{
  unmap-through, unmap-leaf_present, store-other_frame, same_place, Places, IsTree, Agree, Not,
  full, translate-through, translate-leaf_absent, translate-leaf_present, store-Agree, store-IsTree,
  store_self,
}

-- A walk that ends early unmaps nothing.
pub unmap-absent :
    (i : ℕ) (is : List ℕ) (last p : ℕ) (t : Tables)
    → present (t p i) ≡ false
    → unmap_from (i ∷ is) last p t ≡ (none, t)
unfolding unmap_from
unmap-absent i is last p t n = rw n refl

pub unmap-huge :
    (i : ℕ) (is : List ℕ) (last p : ℕ) (t : Tables)
    → present (t p i) ≡ true
    → huge (t p i) ≡ true
    → unmap_from (i ∷ is) last p t ≡ (none, t)
unfolding unmap_from
unmap-huge i is last p t y h = rw (y, h) refl

pub unmap-leaf_absent :
    (last p : ℕ) (t : Tables) → present (t p last) ≡ false → unmap_from [] last p t ≡ (none, t)
unfolding unmap_from
unmap-leaf_absent last p t n = rw n refl

-- Where the walk ends: nothing is unmapped, or a leaf was there and is cleared, and no entry above
-- the leaves is touched.
unfoldable pub Unmapped : List ℕ → List ℕ → ℕ → ℕ → Places → Tables → Option ℕ × Tables → Type 0
Unmapped page is last table place t (none, t') = t' ≡ t
Unmapped page is last table place t (some frame, t') =
    IsTree place t'
    × Agree (Not page) place t t'
    × ((level virt : ℕ)
        → translate_from level is last virt table t ≡ some (bit_or frame (page_offset virt)))
    × ((level virt : ℕ) → translate_from level is last virt table t' ≡ none)
    × ((p i : ℕ) (path : List ℕ) → place p ≡ some path → length path < 3 → t' p i ≡ t p i)

lift-Unmapped :
    (page is : List ℕ) (last i table next : ℕ) (path : List ℕ) (place : Places) (t : Tables)
    → place table ≡ some path
    → length path < 3
    → present (t table i) ≡ true
    → huge (t table i) ≡ false
    → address (t table i) ≡ next
    → (r : Option ℕ × Tables) → Unmapped page is last next place t r
    → Unmapped page (i ∷ is) last table place t r
unfolding Unmapped
lift-Unmapped page is last i table next path place t at l y n e (none, t') h = h
lift-Unmapped page is last i table next path place t at l y n e (some frame, t')
      (tree, agrees, before, after, upper) =
    let same = upper table i path at l in
    (
      tree,
      agrees,
      λ level virt.
          translate-through level i is last virt table next t y n e ∙ before (level + 1) virt,
      λ level virt.
          translate-through level i is last virt table next t' (rw same y) (rw same n) (rw same e)
          ∙ after (level + 1) virt,
      upper,
    )

pub unmap_from-Unmapped :
    (is : List ℕ) (last table : ℕ) (path : List ℕ) (place : Places) (t : Tables)
    → IsTree place t
    → place table ≡ some path
    → length path + length is ≡ 3
    → Unmapped (full path (is ++ (last ∷ []))) is last table place t (unmap_from is last table t)
unfolding Unmapped full IsTree
unmap_from-Unmapped [] last table path place t tree at l =
    elim (Bool-cases (present (t table last))) [
      | inr n ↦ rw (unmap-leaf_absent last table t n) refl
      | inl y ↦ rw (unmap-leaf_present last table (t table last) t refl y) (
        store-IsTree place t table last 0 path tree at (omega arith),
        store-Agree place t table last 0 path tree at (omega arith),
        λ level virt. translate-leaf_present level last virt table _ t refl y,
        λ level virt.
            translate-leaf_absent level last virt table _ (rw (store_self t table last 0) refl),
        λ p i other at' l'.
            store-other_frame t table last 0 p i
              λ f. omega (arith, ap length (same_place place p table other path at' at f)),
      )
    ]
unmap_from-Unmapped (i ∷ is) last table path place t tree at l =
    elim (Bool-cases (present (t table i))) [
      | inr n ↦ rw (unmap-absent i is last table t n) refl
      | inl y ↦ elim (Bool-cases (huge (t table i))) [
        | inl h ↦ rw (unmap-huge i is last table t y h) refl
        | inr n ↦ rw (unmap-through i is last table _ t y n refl) (
            lift-Unmapped _ is last i table _ path place t at (omega arith) y n refl _ (
              unmap_from-Unmapped is last _ (i ∷ path) place t tree
                (tree table i path at (omega arith) y n) (omega arith)))
      ]
    ]
