-- ===== src/Memory/Manager/Tests.antt =====
-- The manager's theorems at small inputs.
use zeroxos_os.Base.{refl, [], ◌∷◌, arith}
use zeroxos_os.Memory.Buddy.{BuddyAllocator}
use zeroxos_os.Memory.Buddy.Alloc.{IsWf}
use zeroxos_os.Memory.Manager.{MemoryManager, Statics, cow_fault}
use zeroxos_os.Memory.Manager.Accounts.{IsBalanced, CowOutcome, cow_fault-CowOutcome}

-- One block of order 9, the pages from 512 on.
abbrev huge_block : BuddyAllocator
huge_block = record {
  free_lists = [] ∷ [] ∷ [] ∷ [] ∷ [] ∷ [] ∷ [] ∷ [] ∷ [] ∷ (512 ∷ []) ∷ [];
  total_pages = 512;
  free_pages = 512;
}

abbrev manager : MemoryManager
manager = record { buddy = huge_block; numa_nodes = 1; cow_faults = 0 }

abbrev counters : Statics
counters = record {
  total_memory = 0x200000;
  free_memory = 0x200000;
  pages_allocated = 0;
  cow_faults = 0;
  huge_pages = 0;
}

huge_block-IsWf : IsWf huge_block
huge_block-IsWf = record {
  lists = refl;
  blocks = (tt, (tt, (tt, (tt, (tt, (tt, (tt, (tt, (tt, (((1, refl, omega arith), tt), tt))))))))));
  counted = refl;
}

manager-IsBalanced : IsBalanced manager counters
manager-IsBalanced = record { valid = huge_block-IsWf; bytes = refl }

cow_fault-CowOutcome_example : CowOutcome manager counters 3 (cow_fault manager counters 3)
cow_fault-CowOutcome_example = cow_fault-CowOutcome manager counters 3 manager-IsBalanced
