-- ===== src/Memory/Buddy/Tests.antt =====
-- Runs of the buddy allocator on small inputs, and its theorems at them.
use zeroxos_os.Base.{ℕ, ◌≡◌, refl, none, some, [], ◌∷◌, arith, ok, fill_with_last}
use zeroxos_os.Memory.Buddy.{
  BuddyAllocator, new, push_block, fit_order, add_blocks, add_region, find_fit, split, alloc,
  coalesce, free,
}
use zeroxos_os.Memory.Buddy.Alloc.{IsWf, AllocOutcome, alloc-AllocOutcome}
use zeroxos_os.Memory.Buddy.Free.{Coalesced, coalesce-Coalesced, FreeOutcome, free-FreeOutcome}
use zeroxos_os.Memory.Buddy.Region.{add_region_lem}
use zeroxos_os.Memory.Buddy.Client.{Client, Reach, here, next, takes, IsSound, owned, Reach-IsSound}

program : Unit {0}
unfolding new push_block fit_order add_blocks add_region find_fit split alloc coalesce free
    fill_with_last
program = tt

-- Pages 0 to 3 as one block of order 2.
abbrev four : BuddyAllocator
four = record {
  free_lists = [] ∷ [] ∷ (0 ∷ []) ∷ [] ∷ [] ∷ [] ∷ [] ∷ [] ∷ [] ∷ [] ∷ [];
  total_pages = 4;
  free_pages = 4;
}

-- After one page was taken from it.
abbrev three : BuddyAllocator
three = record {
  free_lists = (1 ∷ []) ∷ (2 ∷ []) ∷ [] ∷ [] ∷ [] ∷ [] ∷ [] ∷ [] ∷ [] ∷ [] ∷ [];
  total_pages = 4;
  free_pages = 3;
}

add_region-four : add_region new 0 4 ≡ four
unfolding program
add_region-four = refl

-- A region that starts on an odd page begins with a single page.
add_region_odd :
    (add_region new 1 4).free_lists
    ≡ (1 ∷ 4 ∷ []) ∷ (2 ∷ []) ∷ [] ∷ [] ∷ [] ∷ [] ∷ [] ∷ [] ∷ [] ∷ [] ∷ []
unfolding program
add_region_odd = refl

alloc_splits : alloc four 0 0 ≡ ok (some 0, three, 1)
unfolding program
alloc_splits = refl

alloc_fails : alloc three 1 2 ≡ ok (none, three, 1)
unfolding program
alloc_fails = refl

free_coalesces : free three 1 0 0 ≡ ok (four, 0)
unfolding program
free_coalesces = refl

four-IsWf : IsWf four
four-IsWf = record {
  lists = refl;
  blocks = (tt, (tt, (((0, refl, omega arith), tt), (tt, (tt, (tt, (tt, (tt, (tt, (tt, tt))))))))));
  counted = refl;
}

three-IsWf : IsWf three
three-IsWf = record {
  lists = refl;
  blocks = (
    ((1, refl, omega arith), tt),
    (((1, refl, omega arith), tt), (tt, (tt, (tt, (tt, (tt, (tt, (tt, (tt, tt))))))))),
  );
  counted = refl;
}

alloc-AllocOutcome_example : AllocOutcome four 0 1 (alloc four 0 1)
alloc-AllocOutcome_example = alloc-AllocOutcome four 0 1 four-IsWf (omega arith)

free-FreeOutcome_example : FreeOutcome three 1 0 0 (free three 1 0 0)
free-FreeOutcome_example = free-FreeOutcome three 1 0 0 three-IsWf (0, refl, omega arith)

coalesce-Coalesced_example : Coalesced 0 0 three.free_lists (coalesce 9 0 0 three.free_lists)
coalesce-Coalesced_example =
    coalesce-Coalesced 9 0 0 three.free_lists refl refl three-IsWf.blocks (0, refl, omega arith)

add_region_lem_example : IsWf (add_region four 9 7)
add_region_lem_example = (add_region_lem four 9 7 four-IsWf (omega arith)).0

abbrev idle_client : Client
idle_client = record { buddy = four; pages_allocated = 0; live = [] }

abbrev busy_client : Client
busy_client = record {
  buddy = record {
    free_lists = [] ∷ (2 ∷ []) ∷ [] ∷ [] ∷ [] ∷ [] ∷ [] ∷ [] ∷ [] ∷ [] ∷ [];
    total_pages = 4;
    free_pages = 2;
  };
  pages_allocated = 2;
  live = (0, 1) ∷ (0, 0) ∷ [];
}

idle-IsSound : IsSound idle_client
idle-IsSound = record { valid = four-IsWf; blocks = tt; counted = refl }

two_taken : Reach idle_client busy_client
unfolding program
two_taken = next (next here (takes idle_client 0 0 1 three (omega arith) refl)) (
    takes (record { buddy = three; pages_allocated = 1; live = (0, 0) ∷ [] }) 0 1 2
      busy_client.buddy (omega arith) refl)

Reach-IsSound_example : IsSound busy_client × ((p : ℕ) → owned p busy_client ≡ owned p idle_client)
Reach-IsSound_example = Reach-IsSound two_taken idle-IsSound
