-- ===== src/Paging/Map/Steps.antt =====
-- The rounds of `map_page_in`, each from one table to the next.
use zeroxos_os.Base.{
  ℕ, ◌+◌, ◌≡◌, sym, ap, ◌∙◌, true, false, Option, none, some, is_some, List, ◌∷◌, bit_or,
}
use zeroxos_os.Paging.{
  unmap_from, Tables, FrameAllocator, Attempt, ok, err, MapError, out_of_frames, already_mapped,
  huge_page_present, present, huge, address, translate_from, page_offset,
}
use zeroxos_os.Paging.Tree.{unmap-through, Places, IsTree, Agree, AllPages, Not, translate-through}
use zeroxos_os.Paging.Grow.{Extends, Kept, Agree-trans, Kept-trans}

module _ {S : Type 0} (frames : FrameAllocator S) (IsFree : S → ℕ → Type 0) where
  -- A free frame is not a table.
  unfoldable pub IsClear : Places → S → Type 0
  IsClear place s = (p : ℕ) → IsFree s p → place p ≡ none

  -- From one memory to a later one: the tree has grown, and the pages in `Covered` are the same.
  pub record Moved (Covered : List ℕ → Type 0) (place : Places) (t : Tables) (s' : S) (t' : Tables)
      : Type 0 where
    pub later : Places
    pub tree : IsTree later t'
    pub clear : IsClear later s'
    pub extends : Extends place later
    pub kept : Kept place t t'
    pub agrees : Agree Covered place t t'

  -- What a walk from a table finds.
  abbrev pub Walk : Type 0
  Walk = ℕ → ℕ → Tables → Option ℕ

  abbrev pub walk : List ℕ → ℕ → ℕ → Walk
  walk is last table level virt t = translate_from level is last virt table t

  unfoldable pub Reason : MapError → Walk → Tables → S → Tables → Type 0
  Reason out_of_frames w t s' t' = frames.alloc_zeroed s' t' ≡ none
  Reason already_mapped w t s' t' = (level virt : ℕ) → is_some (w level virt t) ≡ true
  Reason huge_page_present w t s' t' = (level virt : ℕ) → is_some (w level virt t) ≡ true

  unfoldable pub Outcome : List ℕ → ℕ → List ℕ → ℕ → ℕ → Places → Tables → Attempt S → Type 0
  Outcome page leaf is last table place t (ok s' t') =
      Moved (Not page) place t s' t'
      × ((level virt : ℕ)
          → walk is last table level virt t' ≡ some (bit_or (address leaf) (page_offset virt)))
      × ((level virt : ℕ) → walk is last table level virt t ≡ none)
      × ((unmap_from is last table t').0 ≡ some (address leaf))
  Outcome page leaf is last table place t (err e s' t') =
      Moved AllPages place t s' t' × Reason e (walk is last table) t s' t'

  -- One level up: the entry that leads to the next table stays.
  pub lift-Outcome :
      (page is : List ℕ) (leaf last i table next : ℕ) (path : List ℕ) (place : Places) (t : Tables)
      → place table ≡ some path
      → present (t table i) ≡ true
      → huge (t table i) ≡ false
      → address (t table i) ≡ next
      → (r : Attempt S) → Outcome page leaf is last next place t r
      → Outcome page leaf (i ∷ is) last table place t r
  unfolding Outcome Kept Reason
  lift-Outcome page is leaf last i table next path place t at y n e (ok s' t')
        (m, found, before, there) =
      let same = m.kept table i path at y in
      (
        m,
        λ level virt.
            translate-through level i is last virt table next t' (rw same y) (rw same n) (rw same e)
            ∙ found (level + 1) virt,
        λ level virt.
            translate-through level i is last virt table next t y n e ∙ before (level + 1) virt,
        ap (λ u. u.0) (unmap-through i is last table next t' (rw same y) (rw same n) (rw same e))
            ∙ there,
      )
  lift-Outcome page is leaf last i table next path place t at y n e (err out_of_frames s' t')
        (m, r) =
      (m, r)
  lift-Outcome page is leaf last i table next path place t at y n e (err already_mapped s' t')
        (m, r) =
      (
        m,
        λ level virt.
            ap is_some (translate-through level i is last virt table next t y n e)
            ∙ r (level + 1) virt,
      )
  lift-Outcome page is leaf last i table next path place t at y n e (err huge_page_present s' t')
        (m, r) =
      (
        m,
        λ level virt.
            ap is_some (translate-through level i is last virt table next t y n e)
            ∙ r (level + 1) virt,
      )

  -- From an earlier memory.
  rebase-Moved :
      (Covered : List ℕ → Type 0) (place place1 : Places) (t t1 : Tables) (s' : S) (t' : Tables)
      → Extends place place1
      → Kept place t t1
      → Agree Covered place t t1
      → Moved Covered place1 t1 s' t'
      → Moved Covered place t s' t'
  unfolding Extends
  rebase-Moved Covered place place1 t t1 s' t' grows kept agrees m = record {
    later = m.later;
    tree = m.tree;
    clear = m.clear;
    extends = λ p path e. m.extends p path (grows p path e);
    kept = Kept-trans place place1 t t1 t' grows kept m.kept;
    agrees = Agree-trans Covered place place1 t t1 t' grows agrees m.agrees;
  }

  pub rebase-Outcome :
      (page : List ℕ) (leaf : ℕ) (is : List ℕ) (last table : ℕ) (place place1 : Places)
      (t t1 : Tables)
      → Extends place place1
      → Kept place t t1
      → Agree AllPages place t t1
      → ((level virt : ℕ) → walk is last table level virt t1 ≡ walk is last table level virt t)
      → (r : Attempt S) → Outcome page leaf is last table place1 t1 r
      → Outcome page leaf is last table place t r
  unfolding Outcome Agree Reason
  rebase-Outcome page leaf is last table place place1 t t1 grows kept agrees same (ok s' t')
        (m, found, before, there) =
      (
        rebase-Moved (Not page) place place1 t t1 s' t' grows kept
            (λ level js last' virt p path at l c. agrees level js last' virt p path at l tt) m,
        found,
        λ level virt. sym (same level virt) ∙ before level virt,
        there,
      )
  rebase-Outcome page leaf is last table place place1 t t1 grows kept agrees same
        (err out_of_frames s' t') (m, r) =
      (rebase-Moved AllPages place place1 t t1 s' t' grows kept agrees m, r)
  rebase-Outcome page leaf is last table place place1 t t1 grows kept agrees same
        (err already_mapped s' t') (m, r) =
      (
        rebase-Moved AllPages place place1 t t1 s' t' grows kept agrees m,
        λ level virt. ap is_some (sym (same level virt)) ∙ r level virt,
      )
  rebase-Outcome page leaf is last table place place1 t t1 grows kept agrees same
        (err huge_page_present s' t') (m, r) =
      (
        rebase-Moved AllPages place place1 t t1 s' t' grows kept agrees m,
        λ level virt. ap is_some (sym (same level virt)) ∙ r level virt,
      )
