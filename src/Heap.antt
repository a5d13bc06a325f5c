-- ===== src/Heap.antt =====
-- crates/zerox-kernel/src/heap.rs: the first-fit heap. A pointer is a number, and 0 is null. The
-- free list, whose nodes the code keeps inside the free regions, is a list of regions: `head` is
-- where the list starts. A node is written only when its region is free, and the holders of
-- blocks keep to theirs, so the nodes are what was written. `LockedHeap` holds its lock for a
-- whole call.
pub mod Align
pub mod Regions
pub mod Alloc
pub mod Client
mod Tests
use zeroxos_os.Base.{
  ℕ, ◌+◌, ◌-◌, max, bit_and, Bool, true, false, Option, none, some, List, [], ◌∷◌, if◌then◌else◌,
  ltb, leb, add64, sub64, u64_mod,
}

pub record FreeBlock : Type 0 where
  pub start : ℕ
  pub size : ℕ

-- `size_of::<FreeBlock>()` and `align_of::<FreeBlock>()`, of two words.
abbrev pub min_block : ℕ
min_block = 16

abbrev pub min_align : ℕ
min_align = 8

-- `core::alloc::Layout`
pub record Layout : Type 0 where
  pub size : ℕ
  pub align : ℕ

-- `!x`
abbrev pub not64 : ℕ → ℕ
not64 x = u64_mod - 1 - x

pub align_up : ℕ → ℕ → ℕ
align_up addr align = bit_and (sub64 (add64 addr align) 1) (not64 (sub64 align 1))

pub record Heap : Type 0 where
  pub head : List FreeBlock
  pub total : ℕ
  pub allocated : ℕ

pub empty : Heap
empty = record { head = []; total = 0; allocated = 0 }

pub add_free_region : Heap → ℕ → ℕ → Heap
add_free_region h addr size =
    let aligned = align_up addr min_align in
    let adjust = sub64 aligned addr in
    if ltb size (add64 adjust min_block)
    then h
    else record h { head = record { start = aligned; size = sub64 size adjust } ∷ h.head }

pub init : Heap → ℕ → ℕ → Heap
init h start size =
    let h' = add_free_region h start size in record h' { total = add64 h'.total size }

-- The size and the alignment.
pub adjust_layout : Layout → ℕ × ℕ
adjust_layout layout =
    let align = max layout.align min_align in (align_up (max layout.size min_block) align, align)

-- The test of the loop, on one region.
pub fits : ℕ → ℕ → FreeBlock → Bool
fits size align region =
    leb (add64 (align_up region.start align) size) (add64 region.start region.size)

-- The loop up to the first region that fits: that region, and the list without it.
pub take_fit : ℕ → ℕ → List FreeBlock → Option (FreeBlock × List FreeBlock)
take_fit size align [] = none
take_fit size align (region ∷ rest) =
    if fits size align region then some (region, rest) else elim (take_fit size align rest) [
      | none ↦ none
      | some (found, others) ↦ some (found, region ∷ others)
    ]

-- A part of the region that is left over becomes free again, if it can hold a node.
pub give_back : Heap → ℕ → ℕ → Heap
give_back h addr size = if leb min_block size then add_free_region h addr size else h

pub alloc_first_fit : Heap → Layout → ℕ × Heap
alloc_first_fit h layout =
    let (size, align) = adjust_layout layout in
    elim (take_fit size align h.head) [
      | none ↦ (0, h)
      | some (region, others) ↦
          let region_end = add64 region.start region.size in
          let alloc_start = align_up region.start align in
          let alloc_end = add64 alloc_start size in
          let h1 =
            give_back (record h { head = others }) region.start (sub64 alloc_start region.start) in
          let h2 = give_back h1 alloc_end (sub64 region_end alloc_end) in
          (alloc_start, record h2 { allocated = add64 h2.allocated size })
    ]

pub dealloc : Heap → ℕ → Layout → Heap
dealloc h ptr layout =
    let (size, align) = adjust_layout layout in
    let h' = add_free_region h ptr size in record h' { allocated = sub64 h'.allocated size }
