-- ===== src/Memory/Manager/Accounts.antt =====
-- The byte counter FREE_MEMORY against the allocator's page counter, through every operation.
use zeroxos_os.Base.{
  ℕ, ◌*◌, ◌%◌, ◌^◌, ◌≤◌, ◌≡◌, refl, sym, ap, subst, ◌∙◌, ◌⊎◌, inl, inr, Bool-cases, Option, none,
  some, [], arith, ◌==◌, ==_iff, u64_mod, add64, sub64, Run, ok, panic, get_or,
}
use zeroxos_os.Memory.Buddy
use zeroxos_os.Memory.Buddy.{BuddyAllocator, max_order}
use zeroxos_os.Memory.Buddy.Blocks.{IsBlock, size, size-IsAdditive}
use zeroxos_os.Memory.Buddy.Alloc.{IsWf, Allocated, AllocOutcome, alloc-AllocOutcome}
use zeroxos_os.Memory.Buddy.Free.{Freed, FreeOutcome, free-FreeOutcome}
use zeroxos_os.Memory.Buddy.Region.{add_region_lem}
use zeroxos_os.Memory.Manager.{
  MemoryManager, Statics, page_size, huge_page_2m, init, alloc_page, alloc_huge_page, free_page,
  free_huge_page, cow_fault, fake_pages,
}

-- The allocator is well formed, and FREE_MEMORY is the size of its free pages.
pub record IsBalanced (m : MemoryManager) (g : Statics) : Type 0 where
  pub valid : IsWf m.buddy
  pub bytes : g.free_memory ≡ m.buddy.free_pages * page_size % u64_mod

-- The outcome of an allocation of order `k`: nothing changed and no block of that order or a
-- larger one free, or a block out of the free ones with both counters in step.
abbrev pub PageOutcome :
    MemoryManager → Statics → ℕ → Run (Option ℕ × MemoryManager × Statics) → Type 0
PageOutcome m g k (ok (none, m', g')) =
    (m' ≡ m) × (g' ≡ g) × ((j : ℕ) → k ≤ j → j ≤ max_order → get_or m.buddy.free_lists j [] ≡ [])
PageOutcome m g k (ok (some f, m', g')) =
    Allocated m.buddy k f m'.buddy
    × IsBalanced m' g'
    × (m'.cow_faults ≡ m.cow_faults)
    × (g'.cow_faults ≡ g.cow_faults)
PageOutcome m g k panic = ⊥

-- What the two allocating methods make of the allocator's result: for a block of order `k` the
-- counters change by `bytes`, and the count of huge pages becomes `huge`.
abbrev after_alloc :
    MemoryManager
    → Statics
    → ℕ
    → ℕ
    → Run (Option ℕ × BuddyAllocator × ℕ)
    → Run (Option ℕ × MemoryManager × Statics)
after_alloc m g bytes huge r = elim r [
  | panic ↦ panic
  | ok (none, b, allocated) ↦
      ok (none, record m { buddy = b }, record g { pages_allocated = allocated })
  | ok (some f, b, allocated) ↦ ok (
    some f,
    record m { buddy = b },
    record g {
      pages_allocated = allocated;
      free_memory = sub64 g.free_memory bytes;
      huge_pages = huge;
    },
  )
]

after_alloc-PageOutcome :
    (m : MemoryManager) (g : Statics) (k bytes huge : ℕ) (r : Run (Option ℕ × BuddyAllocator × ℕ))
    → bytes ≡ 2 ^ k * page_size
    → bytes ≤ huge_page_2m
    → IsBalanced m g
    → AllocOutcome m.buddy g.pages_allocated k r
    → PageOutcome m g k (after_alloc m g bytes huge r)
after_alloc-PageOutcome m g k bytes huge panic e h s a = a
after_alloc-PageOutcome m g k bytes huge (ok (none, b, allocated)) e h s (same, counted, empty) =
    ((λ i. record m { buddy = same i }), (λ i. record g { pages_allocated = counted i }), empty)
after_alloc-PageOutcome m g k bytes huge (ok (some f, b, allocated)) e h s (a, counted) = (
  a,
  record {
    valid = a.valid;
    bytes = omega (arith, a.valid.counted, s.valid.counted, a.worth size size-IsAdditive, s.bytes);
  },
  refl,
  refl,
)

-- `alloc_page`, where the allocator is well-formed and FREE_MEMORY is the size of the free pages,
-- does not panic. It gives out a page that was free and is so no more, keeps the other free pages
-- and the balance, and counts no fault; or no block is free at all and nothing changes.
pub alloc_page-PageOutcome :
    (m : MemoryManager) (g : Statics) → IsBalanced m g → PageOutcome m g 0 (alloc_page m g)
unfolding alloc_page
alloc_page-PageOutcome m g s =
    after_alloc-PageOutcome m g 0 page_size g.huge_pages (Buddy.alloc m.buddy g.pages_allocated 0)
      refl (omega arith) s (alloc-AllocOutcome m.buddy g.pages_allocated 0 s.valid (omega arith))

-- `alloc_huge_page` does the same for 2 MB, at the largest order.
pub alloc_huge_page-PageOutcome :
    (m : MemoryManager) (g : Statics)
    → IsBalanced m g
    → PageOutcome m g max_order (alloc_huge_page m g)
unfolding alloc_huge_page
alloc_huge_page-PageOutcome m g s =
    after_alloc-PageOutcome m g max_order huge_page_2m (add64 g.huge_pages 1)
      (Buddy.alloc m.buddy g.pages_allocated max_order) refl (omega arith) s
      (alloc-AllocOutcome m.buddy g.pages_allocated max_order s.valid (omega arith))

-- The outcome of a free of a block of order `k`.
abbrev pub FreedOutcome : MemoryManager → ℕ → ℕ → Run (MemoryManager × Statics) → Type 0
FreedOutcome m k frame (ok (m', g')) = Freed m.buddy k frame m'.buddy × IsBalanced m' g'
FreedOutcome m k frame panic = ⊥

abbrev after_free :
    MemoryManager → Statics → ℕ → ℕ → Run (BuddyAllocator × ℕ) → Run (MemoryManager × Statics)
after_free m g bytes huge r = elim r [
  | panic ↦ panic
  | ok (b, allocated) ↦ ok (
    record m { buddy = b },
    record g {
      pages_allocated = allocated;
      free_memory = add64 g.free_memory bytes;
      huge_pages = huge;
    },
  )
]

after_free-FreedOutcome :
    (m : MemoryManager) (g : Statics) (k frame bytes huge : ℕ) (r : Run (BuddyAllocator × ℕ))
    → bytes ≡ 2 ^ k * page_size
    → k ≤ max_order
    → IsBalanced m g
    → FreeOutcome m.buddy g.pages_allocated frame k r
    → FreedOutcome m k frame (after_free m g bytes huge r)
after_free-FreedOutcome m g k frame bytes huge panic e h s f = absurd (omega arith)
after_free-FreedOutcome m g k frame bytes huge (ok (b, allocated)) e h s (_, f, counted) = (
  f,
  record {
    valid = f.valid;
    bytes = omega (arith, f.valid.counted, s.valid.counted, f.worth size size-IsAdditive, s.bytes);
  },
)

-- `free_page`, of a page in the address space and under the same balance, does not panic, makes
-- that page free and no other, and keeps FREE_MEMORY the size of the free pages.
pub free_page-FreedOutcome :
    (m : MemoryManager) (g : Statics) (frame : ℕ)
    → IsBalanced m g
    → IsBlock 0 frame
    → FreedOutcome m 0 frame (free_page m g frame)
unfolding free_page
free_page-FreedOutcome m g frame s blk =
    after_free-FreedOutcome m g 0 frame page_size g.huge_pages
      (Buddy.free m.buddy g.pages_allocated frame 0) refl (omega arith) s
      (free-FreeOutcome m.buddy g.pages_allocated frame 0 s.valid blk)

-- `free_huge_page` does the same for an aligned 2 MB block.
pub free_huge_page-FreedOutcome :
    (m : MemoryManager) (g : Statics) (frame : ℕ)
    → IsBalanced m g
    → IsBlock max_order frame
    → FreedOutcome m max_order frame (free_huge_page m g frame)
unfolding free_huge_page
free_huge_page-FreedOutcome m g frame s blk =
    after_free-FreedOutcome m g max_order frame huge_page_2m (sub64 g.huge_pages 1)
      (Buddy.free m.buddy g.pages_allocated frame max_order) refl (omega arith) s
      (free-FreeOutcome m.buddy g.pages_allocated frame max_order s.valid blk)

-- The outcome of a copy-on-write fault on `src`: the frame of the copy is a page that was free;
-- only where no block is free at all it is `src` itself. Both fault counters go up.
abbrev pub CowOutcome : MemoryManager → Statics → ℕ → Run (ℕ × MemoryManager × Statics) → Type 0
CowOutcome m g src (ok (f, m', g')) =
    IsBalanced m' g'
    × (m'.cow_faults ≡ add64 m.cow_faults 1)
    × (g'.cow_faults ≡ add64 g.cow_faults 1)
    × (Allocated m.buddy 0 f m'.buddy
        ⊎ ((f ≡ src)
            × (m'.buddy ≡ m.buddy)
            × ((j : ℕ) → j ≤ max_order → get_or m.buddy.free_lists j [] ≡ [])))
CowOutcome m g src panic = ⊥

AfterCow : MemoryManager → Statics → ℕ → Run (Option ℕ × MemoryManager × Statics) → Type 0
AfterCow m g src r = CowOutcome m g src (elim r [
  | panic ↦ panic
  | ok (none, m', g') ↦ ok (src, m', g')
  | ok (some f, m', g') ↦ ok (f, m', g')
])

AfterCow-holds :
    (m n : MemoryManager) (g h : Statics) (src : ℕ) (r : Run (Option ℕ × MemoryManager × Statics))
    → n ≡ record m { cow_faults = add64 m.cow_faults 1 }
    → h ≡ record g { cow_faults = add64 g.cow_faults 1 }
    → IsBalanced n h
    → PageOutcome n h 0 r
    → AfterCow m g src r
unfolding AfterCow
AfterCow-holds m n g h src panic e f s o = o
AfterCow-holds m n g h src (ok (none, m', g')) e f s (same, same', empty) = (
  subst (λ x. IsBalanced x g') (sym same) (subst (IsBalanced n) (sym same') s),
  ap (λ (x : MemoryManager). x.cow_faults) (same ∙ e),
  ap (λ (x : Statics). x.cow_faults) (same' ∙ f),
  inr (
    refl,
    ap (λ (x : MemoryManager). x.buddy) (same ∙ e),
    λ j top.
        subst (λ (x : MemoryManager). get_or x.buddy.free_lists j [] ≡ []) e
          (empty j (omega arith) top),
  ),
)
AfterCow-holds m n g h src (ok (some x, m', g')) e f s (a, balanced, same, same') = (
  balanced,
  same ∙ ap (λ (y : MemoryManager). y.cow_faults) e,
  same' ∙ ap (λ (y : Statics). y.cow_faults) f,
  inl (subst (λ (y : MemoryManager). Allocated y.buddy 0 x m'.buddy) e a),
)

-- `cow_fault`, where FREE_MEMORY is the size of the free pages, does not panic: the frame that it
-- returns is a page that was free, which leaves the free pages, every other free page staying one;
-- or no block at all is free, and it returns the source frame and leaves the allocator alone. It
-- counts the fault in both counters and keeps FREE_MEMORY in step.
pub cow_fault-CowOutcome :
    (m : MemoryManager) (g : Statics) (src : ℕ)
    → IsBalanced m g
    → CowOutcome m g src (cow_fault m g src)
unfolding cow_fault AfterCow
cow_fault-CowOutcome m g src s =
    let n : MemoryManager = record m { cow_faults = add64 m.cow_faults 1 } in
    let h : Statics = record g { cow_faults = add64 g.cow_faults 1 } in
    let s' : IsBalanced n h = record { valid = s.valid; bytes = s.bytes } in
    AfterCow-holds m n g h src (alloc_page n h) refl refl s' (alloc_page-PageOutcome n h s')

-- `init`, on a well-formed allocator from which nothing was taken yet, keeps its pages, or fills
-- an empty one; then TOTAL_MEMORY and FREE_MEMORY are both the size of the free pages.
pub init-IsBalanced :
    (m : MemoryManager) (g : Statics)
    → IsWf m.buddy
    → m.buddy.free_pages ≡ m.buddy.total_pages
    → IsBalanced (init m g).0 (init m g).1
      × ((init m g).1.total_memory ≡ (init m g).1.free_memory)
      × ((m.buddy.total_pages ≡ 0) ⊎ ((init m g).0 ≡ m))
unfolding init
init-IsBalanced m g wf untouched = elim (Bool-cases (m.buddy.total_pages == 0)) [
  | inl e ↦
      rw (e, init)
        (let none_yet = (==_iff m.buddy.total_pages 0).0 e in
          let (valid, total, free, _) = add_region_lem m.buddy 0 fake_pages wf (omega arith) in
          (
            record {
              valid = valid;
              bytes = omega (
                arith,
                ap (λ (t : ℕ). t * page_size % u64_mod)
                    (total ∙ ap (λ (t : ℕ). add64 t fake_pages) (sym untouched) ∙ sym free),
              );
            },
            refl,
            inl none_yet,
          ))
  | inr e ↦ rw (e, init) (record { valid = wf; bytes = rw untouched }, refl, inr refl)
]
