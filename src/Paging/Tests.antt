-- ===== src/Paging/Tests.antt =====
-- The page tables on a pool of frames, as the tests of the source have it: the frame 0 is the root
-- and a counter gives out the next one.
use zeroxos_os.Base.{
  ◌/◌, ◌%◌, ◌^◌, ◌↔◌, ==_self, ==_ne, subst, ℕ, ◌+◌, ◌*◌, ◌<◌, ◌≤◌, ◌≡◌, ◌≢◌, refl, ap, sym, ◌∙◌,
  arith, none, some, [], ◌==◌, if◌then◌else◌, ltb, Bool-cases, inl, inr,
}
use zeroxos_os.Paging.{
  already_mapped, Tables, FrameAllocator, Attempt, ok, err, map_page_in, translate_in,
  unmap_page_in, write, read, map_from, virt_to_indices,
}
use zeroxos_os.Paging.Flags.{virt_to_indices_iff}
use zeroxos_os.Paging.Entries.{IsFrame}
use zeroxos_os.Paging.Tree.{some-injective, Places, IsTree, IsAllocator}
use zeroxos_os.Paging.Map.{IsRooted, MapOutcome, map_page_in-MapOutcome}
use zeroxos_os.Paging.Map.Steps.{IsClear}
use zeroxos_os.Paging.Unmap.{
  UnmapOutcome, unmap_page_in-UnmapOutcome, map_page_in-unmap_page_in, map_page_in-map_page_in,
}

abbrev zero_frame : Tables → ℕ → Tables
zero_frame t frame p i = if p == frame then 0 else t p i

-- The next frame of 64, which is zeroed.
abbrev bump : FrameAllocator ℕ
bump = record {
  alloc_zeroed = λ next t.
      if ltb next 64 then some (next * 4096, (next + 1, zero_frame t (next * 4096))) else none;
}

abbrev IsFree : ℕ → ℕ → Type 0
IsFree next p = (m : ℕ) × (p ≡ m * 4096) × (next ≤ m)

abbrev blank : Tables
blank p i = 0

abbrev only_root : Places
only_root p = if p == 0 then some [] else none

blank-IsRooted : IsRooted bump IsFree 0 only_root 1 blank
unfolding IsTree IsClear
blank-IsRooted = record {
  at_root = refl;
  tree = λ p i path e l y n. absurd cc;
  clear = λ p (m, e, l). rw (==_ne p 0 (λ z. omega arith)) refl;
}

abbrev next_frame : ℕ → Tables → ℕ × (ℕ × Tables)
next_frame s t = (s * 4096, (s + 1, zero_frame t (s * 4096)))

bump_given :
    (s s' : ℕ) (t t' : Tables) (new : ℕ)
    → bump.alloc_zeroed s t ≡ some (new, (s', t'))
    → (s < 64) × (next_frame s t ≡ (new, (s', t')))
bump_given s s' t t' new e = elim (Bool-cases (ltb s 64)) [
  | inr n ↦
      (let none_left : bump.alloc_zeroed s t ≡ none = rw n refl in
        let no : none ≡ some (new, (s', t')) = sym none_left ∙ e in absurd cc)
  | inl y ↦
      (let here : bump.alloc_zeroed s t ≡ some (next_frame s t) = rw y refl in
        (ground arith, some-injective (0, (0, blank)) _ _ (sym here ∙ e)))
]

bump-IsAllocator : IsAllocator bump IsFree
unfolding IsFrame
bump-IsAllocator = record {
  aligned = λ s s' t t' new e.
      let (l, g) = bump_given s s' t t' new e in (s, sym (ap (λ x. x.0) g), omega arith);
  was_free = λ s s' t t' new e.
      let (l, g) = bump_given s s' t t' new e in (s, sym (ap (λ x. x.0) g), omega arith);
  zeroed = λ s s' t t' new e i.
      let (l, g) = bump_given s s' t t' new e in
      subst (λ x. x.1.1 x.0 i ≡ 0) g (rw (==_self (s * 4096)) refl);
  others = λ s s' t t' new e p i.
      let (l, g) = bump_given s s' t t' new e in
      subst (λ x. p ≢ x.0 → x.1.1 p i ≡ t p i) g λ d. rw (==_ne p (s * 4096) d) refl;
  taken = λ s s' t t' new e p.
      let (l, g) = bump_given s s' t t' new e in
      subst (λ x. IsFree x.1.0 p → IsFree s p × (p ≢ x.0)) g
        λ (m, f, k). ((m, f, omega arith), λ z. omega arith);
}

abbrev after_map : Attempt ℕ
after_map = map_page_in bump 0 0x7F0012345000 0x10000 write 1 blank

mapped : (s : ℕ) × (t : Tables) × (after_map ≡ ok s t)
unfolding map_page_in map_from virt_to_indices
mapped = (_, _, refl)

map_page_in-MapOutcome_example : MapOutcome bump IsFree 0 0x7F0012345000 0x10000 blank after_map
map_page_in-MapOutcome_example =
    map_page_in-MapOutcome bump IsFree 0 only_root 0x7F0012345000 0x10000 write 1 blank
      bump-IsAllocator blank-IsRooted

unmap_page_in-UnmapOutcome_example :
    UnmapOutcome bump IsFree 0 0x2000 1 blank (unmap_page_in 0 0x2000 blank)
unmap_page_in-UnmapOutcome_example =
    unmap_page_in-UnmapOutcome bump IsFree 0 only_root 0x2000 1 blank blank-IsRooted

map_page_in-unmap_page_in_example :
    ((unmap_page_in 0 0x7F0012345000 mapped.1).0 ≡ some 0x10000)
    × ((w : ℕ)
        → translate_in 0 w (unmap_page_in 0 0x7F0012345000 mapped.1).1 ≡ translate_in 0 w blank)
map_page_in-unmap_page_in_example =
    map_page_in-unmap_page_in bump IsFree 0 only_root 0x7F0012345000 0x10000 write 1 mapped.0 blank
      mapped.1 bump-IsAllocator blank-IsRooted mapped.2

map_page_in-map_page_in_example :
    map_page_in bump 0 0x7F0012345000 0x6000 read mapped.0 mapped.1
    ≡ err already_mapped mapped.0 mapped.1
map_page_in-map_page_in_example =
    map_page_in-map_page_in bump IsFree 0 only_root 0x7F0012345000 0x10000 0x6000 write read 1
      mapped.0 blank mapped.1 bump-IsAllocator blank-IsRooted mapped.2

virt_to_indices_iff_example :
    (virt_to_indices 0x1000 ≡ virt_to_indices 0x1234)
    ↔ (0x1000 / 2 ^ 12 % 2 ^ 36 ≡ 0x1234 / 2 ^ 12 % 2 ^ 36)
virt_to_indices_iff_example = virt_to_indices_iff 0x1000 0x1234
