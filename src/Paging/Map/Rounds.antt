-- ===== src/Paging/Map/Rounds.antt =====
-- The walk of `map_page_in` from any table on.
use zeroxos_os.Base.{
  ==_ne, ==_self, ℕ, suc, ◌+◌, ◌≡◌, refl, ap, arith, true, false, some, is_some, List, [], ◌∷◌,
  ◌++◌, length, Bool-cases, Option-cases, inl, inr, bit_or,
}
use zeroxos_os.Paging.{
  pte_present, pte_writable, pte_user, Tables, FrameAllocator, Attempt, ok, present, huge, address,
  store, map_from,
}
use zeroxos_os.Paging.Entries.{table_entry_lem}
use zeroxos_os.Paging.Tree.{
  unmap-leaf_present, translate-huge, translate-leaf_absent, place_at, translate-leaf_present,
  Places, IsTree, IsAllocator, Agree, AllPages, full, store-Agree, store-IsTree, store_self,
}
use zeroxos_os.Paging.Grow.{grow_lem, store-Kept, Extends, Kept}
use zeroxos_os.Paging.Map.Steps.{IsClear, Moved, Reason, Outcome, lift-Outcome, rebase-Outcome}

module _ {S : Type 0} (frames : FrameAllocator S) (IsFree : S → ℕ → Type 0) where
  Moved-refl :
      (Covered : List ℕ → Type 0) (place : Places) (t : Tables) (s : S)
      → IsTree place t
      → IsClear frames IsFree place s
      → Moved frames IsFree Covered place t s t
  unfolding Extends Kept Agree
  Moved-refl Covered place t s tree clear = record {
    later = place;
    tree = tree;
    clear = clear;
    extends = λ p path e. e;
    kept = λ p i path e y. refl;
    agrees = λ level is last virt p path e l c. refl;
  }

  leaf-Outcome :
      (last table leaf : ℕ) (path : List ℕ) (place : Places) (s : S) (t : Tables)
      → present leaf ≡ true
      → IsTree place t
      → IsClear frames IsFree place s
      → place table ≡ some path
      → length path ≡ 3
      → present (t table last) ≡ false
      → Outcome frames IsFree
          (full path (last ∷ []))
          leaf
          []
          last
          table
          place
          t
          (ok s (store t table last leaf))
  unfolding Outcome Extends
  leaf-Outcome last table leaf path place s t there tree clear at l n = (
    record {
      later = place;
      tree = store-IsTree place t table last leaf path tree at l;
      clear = clear;
      extends = λ p other e. e;
      kept = store-Kept place t table last leaf n;
      agrees = store-Agree place t table last leaf path tree at l;
    },
    λ level virt.
        translate-leaf_present level last virt table leaf _ (store_self t table last leaf) there,
    λ level virt. translate-leaf_absent level last virt table t n,
    ap (λ u. u.0) (unmap-leaf_present last table leaf _ (store_self t table last leaf) there),
  )

  -- After a table was added, the rounds that follow start in it.
  grow-Outcome :
      (law : IsAllocator frames IsFree) (i : ℕ) (is : List ℕ) (last table leaf : ℕ) (path : List ℕ)
      (place : Places) (s : S) (t : Tables) (new : ℕ) (s' : S) (t' : Tables)
      → IsTree place t
      → IsClear frames IsFree place s
      → place table ≡ some path
      → length path + suc (length is) ≡ 3
      → present (t table i) ≡ false
      → frames.alloc_zeroed s t ≡ some (new, (s', t'))
      → (page : List ℕ) (r : S → Tables → Attempt S)
      → ((place1 : Places) (t1 : Tables)
          → IsTree place1 t1
          → IsClear frames IsFree place1 s'
          → place1 new ≡ some (i ∷ path)
          → Outcome frames IsFree page leaf is last new place1 t1 (r s' t1))
      → Outcome frames IsFree page leaf
          (i ∷ is)
          last
          table
          place
          t
          (r s' (store t' table i (bit_or (bit_or (bit_or new pte_present) pte_writable) pte_user)))
  unfolding IsClear Agree Extends
  grow-Outcome law i is last table leaf path place s t new s' t' tree clear at l n given page r
        next =
      let entry = bit_or (bit_or (bit_or new pte_present) pte_writable) pte_user in
      let (there, small, leads) = table_entry_lem new (law.aligned s s' t t' new given) in
      let unused = clear new (law.was_free s s' t t' new given) in
      let zeroed = law.zeroed s s' t t' new given in
      let others = law.others s s' t t' new given in
      let place1 = place_at place new (i ∷ path) in
      let t1 = store t' table i entry in
      let (grows, kept, agrees, tree1) =
        grow_lem place t t' table i new entry path tree at (omega arith) n unused zeroed others
          there small leads in
      let written = store_self t' table i entry in
      rebase-Outcome frames IsFree page leaf (i ∷ is) last table place place1 t t1 grows kept agrees
        (λ level virt. agrees level (i ∷ is) last virt table path at l tt) _
        (lift-Outcome frames IsFree page is leaf last i table new path place1 t1
          (grows table path at) (rw written there) (rw written small) (rw written leads) _
          (next place1 t1 tree1
            (λ p f.
              let (free, other) = law.taken s s' t t' new given p f in
              rw (==_ne p new other) (clear p free))
            (rw (==_self new) refl)))

  -- What the rounds come to, with the indices and the path of the table where they start.
  pub map_from-Outcome :
      IsAllocator frames IsFree
      → (is : List ℕ) (last table leaf : ℕ) (path : List ℕ) (place : Places) (s : S) (t : Tables)
      → present leaf ≡ true
      → IsTree place t
      → IsClear frames IsFree place s
      → place table ≡ some path
      → length path + length is ≡ 3
      → Outcome frames IsFree
          (full path (is ++ (last ∷ [])))
          leaf
          is
          last
          table
          place
          t
          (map_from frames is last table leaf s t)
  unfolding map_from Outcome Reason full IsTree
  map_from-Outcome law [] last table leaf path place s t there tree clear at l =
      elim (Bool-cases (present (t table last))) [
        | inl y ↦
            rw (map_from, y)
              (
                Moved-refl AllPages place t s tree clear,
                λ level virt. ap is_some (translate-leaf_present level last virt table _ t refl y),
              )
        | inr n ↦
            rw (map_from, n)
              (leaf-Outcome last table leaf path place s t there tree clear at (omega arith) n)
      ]
  map_from-Outcome law (i ∷ is) last table leaf path place s t there tree clear at l =
      elim (Bool-cases (present (t table i))) [
        | inl y ↦ elim (Bool-cases (huge (t table i))) [
          | inl h ↦
              rw (map_from, y, h)
                (
                  Moved-refl AllPages place t s tree clear,
                  λ level virt. translate-huge level i is last virt table t y h,
                )
          | inr n ↦
              rw (map_from, y, n)
                (lift-Outcome frames IsFree _ is leaf last i table (address (t table i)) path place
                  t at y n refl _
                  (map_from-Outcome law is last (address (t table i)) leaf (i ∷ path) place s t
                    there tree clear (tree table i path at (omega arith) y n) (omega arith)))
        ]
        | inr n ↦ elim (Option-cases (frames.alloc_zeroed s t)) [
          | inl none_left ↦
              rw (map_from, n, none_left) (Moved-refl AllPages place t s tree clear, none_left)
          | inr ((new, (s', t')), given) ↦
              rw (map_from, n, given)
                (grow-Outcome law i is last table leaf path place s t new s' t' tree clear at l n
                  given _ (map_from frames is last new leaf)
                  λ place1 t1 tree1 clear1 at1.
                    map_from-Outcome law is last new leaf (i ∷ path) place1 s' t1 there tree1 clear1
                      at1 (omega arith))
        ]
      ]
