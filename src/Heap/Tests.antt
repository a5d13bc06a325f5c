-- ===== src/Heap/Tests.antt =====
-- The heap on an arena of 1 MiB in the upper half of the address space, where the kernel is linked
-- (linker/x86_64.ld), and its theorems there.
use zeroxos_os.Base.{ℕ, ◌^◌, ap, ◌≡◌, refl, [], ◌∷◌, arith}
use zeroxos_os.Heap.{
  Heap, Layout, adjust_layout, align_up, alloc_first_fit, dealloc, take_fit, give_back,
  add_free_region, fits,
}
use zeroxos_os.Heap.Regions.{IsWf}
use zeroxos_os.Heap.Alloc.{IsRequest}
use zeroxos_os.Heap.Client.{
  IsUsed, alloc-dealloc, Client, Reach, here, next, takes, IsIntact, Reach-IsIntact,
}

abbrev arena : Heap
arena = record {
  head = record { start = 0xFFFFFFFF80400000; size = 0x100000 } ∷ [];
  total = 0x100000;
  allocated = 0;
}

-- Requests of up to 256 MiB.
abbrev room : ℕ
room = 2 ^ 28

abbrev layout : Layout
layout = record { size = 100; align = 64 }

layout_rounds : adjust_layout layout ≡ (128, 64)
unfolding adjust_layout align_up
layout_rounds = refl

abbrev after_first : Heap
after_first = record {
  head = record { start = 0xFFFFFFFF80400080; size = 0xFFF80 } ∷ [];
  total = 0x100000;
  allocated = 128;
}

first_fit : alloc_first_fit arena layout ≡ (0xFFFFFFFF80400000, after_first)
unfolding alloc_first_fit take_fit fits give_back add_free_region adjust_layout align_up
first_fit = refl

arena-IsWf : IsWf room arena
arena-IsWf = ((omega arith, refl, omega arith, omega arith), tt)

layout-IsRequest : IsRequest room layout
layout-IsRequest = record {
  room_least = omega arith;
  room_most = omega arith;
  power = 6;
  power_bound = omega arith;
  is_power = refl;
  align_bound = omega arith;
  size_bound = omega arith;
}

block-IsUsed : IsUsed room (0xFFFFFFFF80400000, layout)
block-IsUsed = (layout-IsRequest, omega arith, refl, omega (arith, ap (λ p. p.0) layout_rounds))

abbrev client : Client
client = record { heap = arena; live = [] }

client-IsIntact : IsIntact room client
client-IsIntact = record { valid = arena-IsWf; blocks = tt; counted = refl }

one_call :
    Reach room client (record { heap = after_first; live = (0xFFFFFFFF80400000, layout) ∷ [] })
one_call = next here (
    takes client layout 0xFFFFFFFF80400000 after_first layout-IsRequest (λ e. omega arith)
      first_fit)

alloc-dealloc_example :
    alloc_first_fit (dealloc after_first 0xFFFFFFFF80400000 layout) layout
    ≡ (0xFFFFFFFF80400000, after_first)
alloc-dealloc_example =
    alloc-dealloc room after_first 0xFFFFFFFF80400000 layout block-IsUsed (rw layout_rounds refl)
      (omega arith)

Reach-IsIntact_example :
    IsIntact room (record { heap = after_first; live = (0xFFFFFFFF80400000, layout) ∷ [] })
Reach-IsIntact_example = (Reach-IsIntact one_call client-IsIntact).0

-- A request of 2 GiB on the same arena: the end of the block wraps around to 0x400000, so that the
-- request succeeds, and the bytes from there on are called free.
wrapped_end : alloc_first_fit arena (record { size = 2 ^ 31; align = 8 }) ≡ (
  0xFFFFFFFF80400000,
  record {
    head = record { start = 0x400000; size = 0xFFFFFFFF80100000 } ∷ [];
    total = 0x100000;
    allocated = 2 ^ 31;
  },
)
unfolding alloc_first_fit take_fit fits give_back add_free_region adjust_layout align_up
wrapped_end = refl
