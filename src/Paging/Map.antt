-- ===== src/Paging/Map.antt =====
-- `map_page_in`: where a page is mapped, and what it leaves alone.
pub mod Steps
pub mod Rounds
use zeroxos_os.Base.{
  ℕ, ◌≡◌, ◌≢◌, refl, ap, ◌∙◌, sym, Option, none, some, is_some, List, [], ◌∷◌, bit_or, true, arith,
}
use zeroxos_os.Paging.{
  unmap_page_in, Tables, FrameAllocator, Attempt, ok, err, MapError, PageFlags, out_of_frames,
  already_mapped, huge_page_present, address, translate_from, translate_in, page_offset,
  virt_to_indices, map_page_in, pte_flags_from,
}
use zeroxos_os.Paging.Entries.{
  IsFrame, IsFlags, flags_over, address-IsFrame, pte_flags_from-IsFlags,
}
use zeroxos_os.Paging.Tree.{Places, IsTree, IsAllocator, Agree, AllPages, Not, full}
use zeroxos_os.Paging.Grow.{Extends}
use zeroxos_os.Paging.Map.Steps.{IsClear, Moved, Reason, Outcome, walk}
use zeroxos_os.Paging.Map.Rounds.{map_from-Outcome}

abbrev pub as_list : ℕ × ℕ × ℕ × ℕ → List ℕ
as_list (a, b, c, d) = a ∷ b ∷ c ∷ d ∷ []

-- The three indices of the levels above the leaf, and the index of the leaf.
abbrev pub upper : ℕ → List ℕ
upper virt = let (a, b, c, d) = virt_to_indices virt in a ∷ b ∷ c ∷ []

abbrev pub lowest : ℕ → ℕ
lowest virt = let (a, b, c, d) = virt_to_indices virt in d

from_list : List ℕ → ℕ × ℕ × ℕ × ℕ
from_list (a ∷ b ∷ c ∷ d ∷ []) = (a, b, c, d)
from_list is = (0, 0, 0, 0)

-- Two addresses in one page go the same way through the tables.
abbrev pub SamePage : ℕ → ℕ → Type 0
SamePage v w = virt_to_indices v ≡ virt_to_indices w

pub other_page :
    (v w : ℕ) → ¬ SamePage v w → as_list (virt_to_indices v) ≢ as_list (virt_to_indices w)
unfolding from_list
other_page v w d e = d (ap from_list e)

module _ {S : Type 0} (frames : FrameAllocator S) (IsFree : S → ℕ → Type 0) (root : ℕ) where
  -- The tables below `root` are a tree, and the frames that are free are not among them.
  pub record IsRooted (place : Places) (s : S) (t : Tables) : Type 0 where
    pub at_root : place root ≡ some []
    pub tree : IsTree place t
    pub clear : IsClear frames IsFree place s

  -- Every page but that of `virt` is translated as before.
  abbrev pub OthersSame : ℕ → Tables → Tables → Type 0
  OthersSame virt t t' =
      (w : ℕ) → ¬ SamePage w virt → translate_in root w t' ≡ translate_in root w t

  abbrev pub Refused : ℕ → Tables → S → Tables → MapError → Type 0
  Refused virt t s' t' out_of_frames = frames.alloc_zeroed s' t' ≡ none
  Refused virt t s' t' already_mapped = is_some (translate_in root virt t) ≡ true
  Refused virt t s' t' huge_page_present = is_some (translate_in root virt t) ≡ true

  abbrev pub MapOutcome : ℕ → ℕ → Tables → Attempt S → Type 0
  MapOutcome virt phys t (ok s' t') =
      ((place : Places) × IsRooted place s' t')
      × ((w : ℕ) → SamePage w virt → translate_in root w t ≡ none)
      × ((w : ℕ)
          → SamePage w virt
          → translate_in root w t' ≡ some (bit_or (address phys) (page_offset w)))
      × OthersSame virt t t'
      × ((unmap_page_in root virt t').0 ≡ some (address phys))
  MapOutcome virt phys t (err e s' t') =
      ((place : Places) × IsRooted place s' t')
      × ((w : ℕ) → translate_in root w t' ≡ translate_in root w t)
      × Refused virt t s' t' e

  after_move :
      (Covered : List ℕ → Type 0) (place : Places) (s s' : S) (t t' : Tables)
      → IsRooted place s t
      → Moved frames IsFree Covered place t s' t'
      → (later : Places) × IsRooted later s' t'
  unfolding Extends
  after_move Covered place s s' t t' r m =
      (m.later, record { at_root = m.extends root [] r.at_root; tree = m.tree; clear = m.clear })

  abbrev FromRoot : ℕ → ℕ → Places → Tables → Attempt S → Type 0
  FromRoot virt leaf place t r =
      Outcome frames IsFree (as_list (virt_to_indices virt)) leaf (upper virt) (lowest virt) root
        place t r

  from_root :
      (place : Places) (virt phys leaf : ℕ) (s : S) (t : Tables)
      → address leaf ≡ address phys
      → IsRooted place s t
      → (r : Attempt S) → FromRoot virt leaf place t r
      → MapOutcome virt phys t r
  unfolding Outcome Agree translate_in unmap_page_in Reason full
  from_root place virt phys leaf s t e r (ok s' t') (m, found, before, there) = (
    after_move _ place s s' t t' r m,
    λ w same. rw same (before 0 w),
    λ w same. rw (same, ← e) (found 0 w),
    λ w other. m.agrees 0 (upper w) (lowest w) w root [] r.at_root refl (other_page w virt other),
    there ∙ ap some e,
  )
  from_root place virt phys leaf s t e r (err out_of_frames s' t') (m, why) = (
    after_move _ place s s' t t' r m,
    λ w. m.agrees 0 (upper w) (lowest w) w root [] r.at_root refl tt,
    why,
  )
  from_root place virt phys leaf s t e r (err already_mapped s' t') (m, why) = (
    after_move _ place s s' t t' r m,
    λ w. m.agrees 0 (upper w) (lowest w) w root [] r.at_root refl tt,
    why 0 virt,
  )
  from_root place virt phys leaf s t e r (err huge_page_present s' t') (m, why) = (
    after_move _ place s s' t t' r m,
    λ w. m.agrees 0 (upper w) (lowest w) w root [] r.at_root refl tt,
    why 0 virt,
  )

  -- With a frame allocator that gives free, aligned and zeroed frames and tables that are a tree
  -- below the root, away from the free frames: where `map_page_in` succeeds, the page was not
  -- mapped, every address of it is translated to the bits of the frame that the address mask keeps
  -- with the offset of the address, `unmap_page_in` would find that frame, and every other page is
  -- translated as before; where it fails, no page is translated otherwise, although tables may have
  -- been added, and an error is given for a page that is translated already, or because no frame was
  -- left. Either way the tables are again a tree away from the free frames.
  pub map_page_in-MapOutcome :
      (place : Places) (virt phys : ℕ) (flags : PageFlags) (s : S) (t : Tables)
      → IsAllocator frames IsFree
      → IsRooted place s t
      → MapOutcome virt phys t (map_page_in frames root virt phys flags s t)
  unfolding map_page_in Outcome full
  map_page_in-MapOutcome place virt phys flags s t law r =
      let (there, leads) =
        flags_over (address phys) (pte_flags_from flags) (address-IsFrame phys)
          (pte_flags_from-IsFlags flags) in
      from_root place virt phys _ s t leads r _ (
        map_from-Outcome frames IsFree law (upper virt) (lowest virt) root _ [] place s t there
          r.tree r.clear r.at_root refl)
