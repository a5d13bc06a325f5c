-- ===== src/Heap/Regions.antt =====
-- The free regions of the heap byte by byte, and what the loop and the list operations do to them.
use zeroxos_os.Base.{
  ℕ, ◌+◌, ◌%◌, ◌≤◌, ◌<◌, ◌≡◌, refl, inl, inr, Bool-cases, true, false, ◌&&◌, Option, none, some,
  List, [], ◌∷◌, if◌then◌else◌, ltb, leb, All, arith, add64, sub64, u64_mod, ◌-◌, ◌*◌,
}
use zeroxos_os.Heap.{
  init, empty, FreeBlock, Heap, min_block, align_up, add_free_region, fits, take_fit,
}
use zeroxos_os.Heap.Align.{align_up_bounds}

-- Byte `p` lies in the `n` bytes from `a` on.
abbrev pub inside : ℕ → ℕ → ℕ → ℕ
inside p a n = if leb a p && ltb p (a + n) then 1 else 0

-- How often byte `p` is free.
abbrev pub held : ℕ → List FreeBlock → ℕ
held p [] = 0
held p (b ∷ bs) = inside p b.start b.size + held p bs

-- Free memory ends four times `room` below the end of the address space, where `room` bounds the
-- size and the alignment of a request, so that the end of a block does not wrap around.
abbrev pub memory_end : ℕ → ℕ
memory_end room = u64_mod - 4 * room

abbrev pub IsRegion : ℕ → FreeBlock → Type 0
IsRegion room b =
    (0 < b.start) × (b.start % 8 ≡ 0) × (min_block ≤ b.size) × (b.start + b.size ≤ memory_end room)

abbrev pub IsWf : ℕ → Heap → Type 0
IsWf room h = All (IsRegion room) h.head

-- A region that starts at a multiple of 8 is added as it is, at the front.
pub add_free_region_aligned :
    (room : ℕ) (h : Heap) (addr size : ℕ)
    → 1 ≤ room
    → addr % 8 ≡ 0
    → min_block ≤ size
    → addr + size ≤ memory_end room
    → add_free_region h addr size
      ≡ record h { head = record { start = addr; size = size } ∷ h.head }
unfolding add_free_region
add_free_region_aligned room h addr size least e large low =
    let same : align_up addr 8 ≡ addr = (align_up_bounds 3 addr (omega arith) (omega arith)).3 e in
    rw same (ground arith)

-- Otherwise it loses the bytes before the next multiple of 8, and is dropped if too little is left.
pub add_free_region_lem :
    (room : ℕ) (h : Heap) (addr size : ℕ)
    → 3 ≤ room
    → IsWf room h
    → 0 < addr
    → addr + size ≤ memory_end room
    → let h' = add_free_region h addr size in
      IsWf room h'
      × (h'.total ≡ h.total)
      × (h'.allocated ≡ h.allocated)
      × ((p : ℕ) → held p h'.head ≤ held p h.head + inside p addr size)
      × (min_block + 7 ≤ size
          → (p : ℕ) → addr + 7 ≤ p
          → held p h'.head ≡ held p h.head + inside p addr size)
unfolding add_free_region
add_free_region_lem room h addr size least wf pos low =
    let (a, b, c, _) = align_up_bounds 3 addr (omega arith) (omega arith) in
    elim (Bool-cases (ltb size (add64 (sub64 (align_up addr 8) addr) min_block))) [
      | inl y ↦ rw y (wf, refl, refl, λ p. omega arith, λ large p from. ground arith)
      | inr y ↦
          rw y ((ground arith, wf), refl, refl, λ p. ground arith, λ large p from. ground arith)
    ]

-- What the loop over `bs` ends with: a region that fits and the others, or no region that fits.
abbrev pub TakeOutcome : ℕ → ℕ → List FreeBlock → Option (FreeBlock × List FreeBlock) → Type 0
TakeOutcome size align bs none = All (λ b. fits size align b ≡ false) bs
TakeOutcome size align bs (some (region, others)) =
    (fits size align region ≡ true)
    × ((p : ℕ) → held p bs ≡ inside p region.start region.size + held p others)
    × ((room : ℕ) → All (IsRegion room) bs → IsRegion room region × All (IsRegion room) others)

keep_one :
    (size align : ℕ) (b : FreeBlock) (bs : List FreeBlock) (o : Option (FreeBlock × List FreeBlock))
    → fits size align b ≡ false
    → TakeOutcome size align bs o
    → TakeOutcome size align
        (b ∷ bs)
        (elim o [ none ↦ none | some (found, others) ↦ some (found, b ∷ others) ])
keep_one size align b bs none e t = (e, t)
keep_one size align b bs (some (region, others)) e (f, worth, valid) =
    (f, λ p. omega (arith, worth p), λ room v. let (x, y) = valid room v.1 in (x, (v.0, y)))

pub take_fit-TakeOutcome :
    (size align : ℕ) (bs : List FreeBlock) → TakeOutcome size align bs (take_fit size align bs)
unfolding take_fit
take_fit-TakeOutcome size align [] = tt
take_fit-TakeOutcome size align (b ∷ bs) = elim (Bool-cases (fits size align b)) [
  | inl y ↦ rw y (y, λ p. refl, λ room v. v)
  | inr y ↦ rw y (keep_one size align b bs _ y (take_fit-TakeOutcome size align bs))
]

-- A region that is given to an empty heap: it is free from the first multiple of 8 in it on.
pub init_lem :
    (room start size : ℕ)
    → 3 ≤ room
    → 0 < start
    → start + size ≤ memory_end room
    → let h = init empty start size in
      IsWf room h
      × (h.total ≡ size)
      × (h.allocated ≡ 0)
      × ((p : ℕ) → held p h.head ≤ inside p start size)
unfolding init empty
init_lem room start size least pos low =
    let (wf, total, allocated, bytes, _) =
      add_free_region_lem room empty start size least tt pos low in
    (wf, omega (arith, total), allocated, λ p. omega (arith, bytes p))
