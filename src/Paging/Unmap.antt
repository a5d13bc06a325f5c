-- ===== src/Paging/Unmap.antt =====
-- `unmap_page_in`, alone and after `map_page_in`.
pub mod Steps
use zeroxos_os.Base.{
  subst, ℕ, ◌+◌, ◌≡◌, ◌≢◌, refl, sym, ap, ◌∙◌, arith, Bool, true, false, Option, none, some, List,
  [], ◌∷◌, length, Bool-cases, inl, inr, ◌⊎◌, bit_or, ℕ_discrete,
}
use zeroxos_os.Paging.{
  Tables, FrameAllocator, Attempt, ok, err, already_mapped, present, huge, address, translate_from,
  translate_in, page_offset, virt_to_indices, unmap_from, unmap_page_in, map_from, map_page_in,
  PageFlags,
}
use zeroxos_os.Paging.Tree.{Places, IsTree, IsAllocator, Agree, Not, full, unmap-through}
use zeroxos_os.Paging.Map.{
  IsRooted, MapOutcome, SamePage, OthersSame, other_page, upper, lowest, as_list,
  map_page_in-MapOutcome,
}
use zeroxos_os.Paging.Unmap.Steps.{
  Unmapped, unmap_from-Unmapped, unmap-absent, unmap-huge, unmap-leaf_absent,
}

nothing_unmapped :
    {A : Type 0} (u : Option ℕ × Tables) (t : Tables) (frame : ℕ)
    → u ≡ (none, t)
    → u.0 ≡ some frame
    → A
nothing_unmapped u t frame e f = let no : none ≡ some frame = sym (ap (λ v. v.0) e) ∙ f in absurd cc

-- Where a leaf can be unmapped, the map finds it.
map_from-again :
    {S : Type 0} (frames : FrameAllocator S) (is : List ℕ) (last table leaf frame : ℕ) (s : S)
    (t : Tables)
    → (unmap_from is last table t).0 ≡ some frame
    → map_from frames is last table leaf s t ≡ err already_mapped s t
unfolding map_from
map_from-again frames [] last table leaf frame s t e = elim (Bool-cases (present (t table last))) [
  | inl y ↦ rw (map_from, y) refl
  | inr n ↦ nothing_unmapped _ t frame (unmap-leaf_absent last table t n) e
]
map_from-again frames (i ∷ is) last table leaf frame s t e =
    elim (Bool-cases (present (t table i))) [
      | inr n ↦ nothing_unmapped _ t frame (unmap-absent i is last table t n) e
      | inl y ↦ elim (Bool-cases (huge (t table i))) [
        | inl h ↦ nothing_unmapped _ t frame (unmap-huge i is last table t y h) e
        | inr n ↦
            rw (map_from, y, n)
              (map_from-again frames is last _ leaf frame s t
                (sym (ap (λ u. u.0) (unmap-through i is last table _ t y n refl)) ∙ e))
      ]
    ]

tuple_cases : (x y : ℕ × ℕ × ℕ × ℕ) → (x ≡ y) ⊎ (x ≢ y)
tuple_cases (a, b, c, d) (a', b', c', d') = elim (ℕ_discrete a a') [
  | no n ↦ inr λ p. n (ap (λ x. x.0) p)
  | yes e ↦ elim (ℕ_discrete b b') [
    | no n ↦ inr λ p. n (ap (λ x. x.1) p)
    | yes f ↦ elim (ℕ_discrete c c') [
      | no n ↦ inr λ p. n (ap (λ x. x.2) p)
      | yes g ↦ elim (ℕ_discrete d d') [
        | no n ↦ inr λ p. n (ap (λ x. x.3) p)
        | yes h ↦ inl (rw (e, f, g, h) refl)
      ]
    ]
  ]
]

page_cases : (v w : ℕ) → SamePage v w ⊎ ¬ SamePage v w
page_cases v w = tuple_cases (virt_to_indices v) (virt_to_indices w)

module _ {S : Type 0} (frames : FrameAllocator S) (IsFree : S → ℕ → Type 0) (root : ℕ) where
  unfoldable pub UnmapOutcome : ℕ → S → Tables → Option ℕ × Tables → Type 0
  UnmapOutcome virt s t (none, t') = t' ≡ t
  UnmapOutcome virt s t (some frame, t') =
      ((place : Places) × IsRooted frames IsFree root place s t')
      × ((w : ℕ)
          → SamePage w virt
          → (translate_in root w t ≡ some (bit_or frame (page_offset w)))
            × (translate_in root w t' ≡ none))
      × OthersSame frames IsFree root virt t t'

  unmap_outcome :
      (place : Places) (virt : ℕ) (s : S) (t : Tables)
      → IsRooted frames IsFree root place s t
      → (r : Option ℕ × Tables)
      → Unmapped (as_list (virt_to_indices virt)) (upper virt) (lowest virt) root place t r
      → UnmapOutcome virt s t r
  unfolding Unmapped UnmapOutcome Agree translate_in full
  unmap_outcome place virt s t r (none, t') h = h
  unmap_outcome place virt s t r (some frame, t') (tree, agrees, before, after, above) = (
    (place, record { at_root = r.at_root; tree = tree; clear = r.clear }),
    λ w same. (rw same (before 0 w), rw same (after 0 w)),
    λ w other. agrees 0 (upper w) (lowest w) w root [] r.at_root refl (other_page w virt other),
  )

  -- On tables that are a tree below the root, away from the free frames, `unmap_page_in` changes
  -- nothing where it gives no frame; where it gives one, each address of the page was translated to
  -- that frame with its offset and now is not translated, every other page is translated as before,
  -- and the tables are a tree as before.
  pub unmap_page_in-UnmapOutcome :
      (place : Places) (virt : ℕ) (s : S) (t : Tables)
      → IsRooted frames IsFree root place s t
      → UnmapOutcome virt s t (unmap_page_in root virt t)
  unfolding unmap_page_in Unmapped full
  unmap_page_in-UnmapOutcome place virt s t r =
      unmap_outcome place virt s t r _
        (unmap_from-Unmapped (upper virt) (lowest virt) root [] place t r.tree r.at_root refl)

  -- The same, when the frame that is found is known.
  unmap_some :
      (virt frame : ℕ) (s : S) (t : Tables) (u : Option ℕ × Tables)
      → u.0 ≡ some frame
      → UnmapOutcome virt s t u
      → UnmapOutcome virt s t (some frame, u.1)
  unmap_some virt frame s t (o, t') e h = subst (λ x. UnmapOutcome virt s t (x, t')) e h

  -- With such an allocator and such tables, unmapping a page that `map_page_in` has just mapped
  -- gives back the frame, and every address is then translated as before the map.
  pub map_page_in-unmap_page_in :
      (place : Places) (virt phys : ℕ) (flags : PageFlags) (s s' : S) (t t' : Tables)
      → IsAllocator frames IsFree
      → IsRooted frames IsFree root place s t
      → map_page_in frames root virt phys flags s t ≡ ok s' t'
      → (unmap_page_in root virt t').0 ≡ some (address phys)
        × ((w : ℕ) → translate_in root w (unmap_page_in root virt t').1 ≡ translate_in root w t)
  unfolding UnmapOutcome
  map_page_in-unmap_page_in place virt phys flags s s' t t' law r e =
      let ((later, r'), before, found, others, there) =
        subst (MapOutcome frames IsFree root virt phys t) e
          (map_page_in-MapOutcome frames IsFree root place virt phys flags s t law r) in
      let (rooted, gone, kept) =
        unmap_some virt (address phys) s' t' _ there
          (unmap_page_in-UnmapOutcome later virt s' t' r') in
      (
        there,
        λ w. elim (page_cases w virt) [
          | inl same ↦ (gone w same).1 ∙ sym (before w same)
          | inr other ↦ kept w other ∙ others w other
        ],
      )

  -- With such an allocator and such tables, a page that was mapped cannot be mapped again, to any
  -- frame with any flags: `AlreadyMapped`, and neither the tables nor the allocator change.
  pub map_page_in-map_page_in :
      (place : Places) (virt phys other : ℕ) (flags more : PageFlags) (s s' : S) (t t' : Tables)
      → IsAllocator frames IsFree
      → IsRooted frames IsFree root place s t
      → map_page_in frames root virt phys flags s t ≡ ok s' t'
      → map_page_in frames root virt other more s' t' ≡ err already_mapped s' t'
  unfolding map_page_in unmap_page_in
  map_page_in-map_page_in place virt phys other flags more s s' t t' law r e =
      let (rooted, before, found, others, there) =
        subst (MapOutcome frames IsFree root virt phys t) e
          (map_page_in-MapOutcome frames IsFree root place virt phys flags s t law r) in
      map_from-again frames (upper virt) (lowest virt) root _ (address phys) s' t' there
