-- ===== src/Memory/Buddy.antt =====
-- `BuddyAllocator` of crates/zerox-kernel/src/memory.rs. A `PageFrame` is its number; the array of
-- free lists is a list of `MAX_ORDER + 1` lists. The static page counter is threaded through.
pub mod Weight
pub mod Blocks
pub mod Alloc
pub mod Free
pub mod Region
pub mod Client
mod Tests
use zeroxos_os.Base.{
  ℕ, zero, suc, ◌+◌, ◌-◌, ◌^◌, min, bit_and, bit_xor, ◌≡◌, Bool, true, false, ◌&&◌, Option, none,
  some, List, [], ◌∷◌, if◌then◌else◌, ◌==◌, ltb, leb, get_or, set, push, pop, swap_remove, position,
  is_empty, replicate, add64, sub64, shl_one, Run, ok, panic,
}

-- The largest order: 4 KB << 9 = 2 MB.
abbrev pub max_order : ℕ
max_order = 9

pub record BuddyAllocator : Type 0 where
  pub free_lists : List (List ℕ)
  pub total_pages : ℕ
  pub free_pages : ℕ

pub new : BuddyAllocator
new = record { free_lists = replicate (max_order + 1) []; total_pages = 0; free_pages = 0 }

-- `self.free_lists[k].push(PageFrame(pfn))`
pub push_block : ℕ → ℕ → List (List ℕ) → List (List ℕ)
push_block k pfn lists = set lists k (push (get_or lists k []) pfn)

-- The inner loop of `add_region`: the largest order that fits the size left and the alignment.
pub fit_order : ℕ → ℕ → ℕ → ℕ
fit_order zero remaining pfn = 0
fit_order (suc k) remaining pfn =
    if leb (shl_one (suc k)) remaining && bit_and pfn (shl_one (suc k) - 1) == 0
    then suc k
    else fit_order k remaining pfn

-- The outer loop. Each round takes at least one page, so `page_count` rounds are enough.
pub add_blocks : ℕ → ℕ → ℕ → List (List ℕ) → List (List ℕ)
add_blocks zero remaining pfn lists = lists
add_blocks (suc n) remaining pfn lists = elim (remaining == 0) [
  | true ↦ lists
  | false ↦
      let order = fit_order max_order remaining pfn in
      add_blocks n (remaining - shl_one order) (add64 pfn (shl_one order))
        (push_block order pfn lists)
]

pub add_region : BuddyAllocator → ℕ → ℕ → BuddyAllocator
add_region b start page_count = record {
  free_lists = add_blocks page_count page_count start b.free_lists;
  total_pages = add64 b.total_pages page_count;
  free_pages = add64 b.free_pages page_count;
}

-- `while o <= MAX_ORDER && free_lists[o].is_empty() { o += 1 }`, with the rounds left first: there
-- are `MAX_ORDER + 1 - o` of them.
pub find_fit : ℕ → ℕ → List (List ℕ) → ℕ
find_fit zero o lists = o
find_fit (suc n) o lists = elim (is_empty (get_or lists o [])) [
  | true ↦ find_fit n (o + 1) lists
  | false ↦ o
]

-- `while o > order { o -= 1; ... }`: there are `o - order` rounds, and the last one is at `order`.
pub split : ℕ → ℕ → ℕ → List (List ℕ) → List (List ℕ)
split zero order block lists = lists
split (suc n) order block lists =
    split n order block (push_block (order + n) (add64 block (shl_one (order + n))) lists)

-- The result, the allocator, and the static `PAGES_ALLOCATED`.
pub alloc : BuddyAllocator → ℕ → ℕ → Run (Option ℕ × BuddyAllocator × ℕ)
alloc b pages_allocated order =
    let o = find_fit (max_order + 1 - order) order b.free_lists in
    if ltb max_order o
    then ok (none, b, pages_allocated)
    else (elim (pop (get_or b.free_lists o [])) [
      | none ↦ panic
      | some (block, rest) ↦ ok (
        some block,
        record b {
          free_lists = split (o - order) order block (set b.free_lists o rest);
          free_pages = sub64 b.free_pages (shl_one order);
        },
        add64 pages_allocated (shl_one order),
      )
    ])

-- `while o < MAX_ORDER { ... }` with its `break`: at most `MAX_ORDER - o` rounds. The result is
-- the coalesced frame, its order, and the lists without the buddies that it took in.
pub coalesce : ℕ → ℕ → ℕ → List (List ℕ) → ℕ × ℕ × List (List ℕ)
coalesce zero pfn o lists = (pfn, o, lists)
coalesce (suc n) pfn o lists =
    elim (position (λ b. b == bit_xor pfn (shl_one o)) (get_or lists o [])) [
      | none ↦ (pfn, o, lists)
      | some i ↦
          coalesce n (min pfn (bit_xor pfn (shl_one o))) (o + 1)
            (set lists o (swap_remove (get_or lists o []) i))
    ]

-- An order above `MAX_ORDER` indexes past the array, and panics.
pub free : BuddyAllocator → ℕ → ℕ → ℕ → Run (BuddyAllocator × ℕ)
free b pages_allocated frame order =
    if ltb max_order order
    then panic
    else (let (pfn, o, lists) = coalesce (max_order - order) frame order b.free_lists in
        ok (
          record b {
            free_lists = push_block o pfn lists;
            free_pages = add64 b.free_pages (shl_one order);
          },
          sub64 pages_allocated (shl_one order),
        ))
