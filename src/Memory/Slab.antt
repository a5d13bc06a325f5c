-- ===== src/Memory/Slab.antt =====
-- `SlabAllocator` of crates/zerox-kernel/src/memory.rs. A pointer is a number; the one that the
-- host's allocator would hand out is an argument of `alloc`.
pub mod Reuse
mod Tests
use zeroxos_os.Base.{
  ℕ, ◌+◌, ◌-◌, ◌^◌, Bool, true, false, Option, none, some, List, [], ◌∷◌, if◌then◌else◌, leb, push,
  pop, add64, sub64, Run, ok, panic,
}

pub record SlabAllocator : Type 0 where
  pub object_size : ℕ
  pub free_list : List ℕ
  pub in_use : ℕ

pub new : ℕ → SlabAllocator
new object_size = record { object_size = object_size; free_list = []; in_use = 0 }

-- `Layout::from_size_align(size, 8)` fails, and its `unwrap` panics, where the size rounded up to
-- the alignment passes `isize::MAX`.
abbrev pub max_layout : ℕ
max_layout = 2 ^ 63 - 8

pub alloc : SlabAllocator → ℕ → Run (ℕ × SlabAllocator)
alloc s fresh = elim (pop s.free_list) [
  | some (ptr, rest) ↦ ok (ptr, record s { free_list = rest; in_use = add64 s.in_use 1 })
  | none ↦
      if leb s.object_size max_layout
      then ok (fresh, record s { in_use = add64 s.in_use 1 })
      else panic
]

pub free : SlabAllocator → ℕ → SlabAllocator
free s ptr = record s { free_list = push s.free_list ptr; in_use = sub64 s.in_use 1 }
