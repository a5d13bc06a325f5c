-- ===== src/Memory/Slab/Tests.antt =====
-- The slab's theorems at small inputs.
use zeroxos_os.Base.{[], ◌∷◌}
use zeroxos_os.Memory.Slab.{SlabAllocator}

abbrev slab : SlabAllocator
slab = record { object_size = 64; free_list = 0x100 ∷ []; in_use = 0 }

abbrev used : SlabAllocator
used = record { object_size = 64; free_list = []; in_use = 1 }
