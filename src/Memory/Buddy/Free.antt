-- ===== src/Memory/Buddy/Free.antt =====
-- `BuddyAllocator::free` and its loop that takes in free buddies.
use zeroxos_os.Base.{
  panic, dec_le, ℕ, zero, suc, ◌+◌, ◌-◌, ◌≤◌, ◌<◌, ◌≡◌, min, bit_xor, refl, ap, subst, ◌∙◌, ◌⊎◌,
  inl, inr, false, Option, none, some, List, [], ◌==◌, ltb, length, get_or, set, position,
  swap_remove, arith, All-get_or, All-swap_remove, length-set, Option-cases, add64, sub64, shl_one,
  Run, ok,
}
use zeroxos_os.Memory.Buddy.{BuddyAllocator, max_order, push_block, coalesce, free}
use zeroxos_os.Memory.Buddy.Weight.{
  sum_by-swap_remove, position-some, weight, weight-set, weight-push_block,
}
use zeroxos_os.Memory.Buddy.Blocks.{
  IsBlock, AllBlocks, AllBlocks-get, AllBlocks-set, AllBlocks-push, IsAdditive, buddy-Joins, size,
  size-IsAdditive,
}
use zeroxos_os.Memory.Buddy.Alloc.{IsWf, length-push_block}

-- Whether the buddy of a block is free, where `free` looks for it.
abbrev pub buddy_at : ℕ → ℕ → List (List ℕ) → Option ℕ
buddy_at o pfn ls = position (λ b. b == bit_xor pfn (shl_one o)) (get_or ls o [])

-- What a run of coalescing makes of a block and the lists.
abbrev pub Coalesced : ℕ → ℕ → List (List ℕ) → ℕ × ℕ × List (List ℕ) → Type 0
Coalesced o pfn ls (pfn', o', ls') =
    (o ≤ o')
    × (o' ≤ max_order)
    × (length ls' ≡ max_order + 1)
    × AllBlocks 0 ls'
    × IsBlock o' pfn'
    × ((o' ≡ max_order) ⊎ (buddy_at o' pfn' ls' ≡ none))
    × ((f : ℕ → ℕ → ℕ) → IsAdditive f → weight f 0 ls' + f o' pfn' ≡ weight f 0 ls + f o pfn)

-- One round: the buddy leaves its list, and the pair is a block of the next order.
merge_round :
    (o pfn i : ℕ) (ls : List (List ℕ))
    → o < length ls
    → AllBlocks 0 ls
    → IsBlock o pfn
    → buddy_at o pfn ls ≡ some i
    → let ls' = set ls o (swap_remove (get_or ls o []) i) in
      let low = min pfn (bit_xor pfn (shl_one o)) in
      AllBlocks 0 ls'
      × IsBlock (suc o) low
      × ((f : ℕ → ℕ → ℕ) → IsAdditive f → weight f 0 ls' + f (suc o) low ≡ weight f 0 ls + f o pfn)
merge_round o pfn i ls lt all blk found =
    let l = get_or ls o [] in
    let (in_range, is_buddy) = position-some (bit_xor pfn (shl_one o)) l i found in
    let here = AllBlocks-get o ls lt all in
    let buddy_blk = subst (IsBlock o) is_buddy (All-get_or (IsBlock o) l i 0 here in_range) in
    let (joined, worth) = buddy-Joins o pfn blk buddy_blk in
    (
      AllBlocks-set o ls (swap_remove l i) all (All-swap_remove (IsBlock o) l i here),
      joined,
      λ f add. omega (
        arith,
        worth f add,
        weight-set f o ls (swap_remove l i) lt,
        sum_by-swap_remove (f o) l i in_range,
        ap (f o) is_buddy,
      ),
    )

-- The coalescing loop, on well-formed lists and an aligned block with as many rounds as there are
-- orders left, ends with an aligned block that either has the largest order or has no free buddy;
-- the lists stay well-formed, and every additive measure of the blocks is kept.
pub coalesce-Coalesced :
    (n pfn o : ℕ) (ls : List (List ℕ))
    → length ls ≡ max_order + 1
    → o + n ≡ max_order
    → AllBlocks 0 ls
    → IsBlock o pfn
    → Coalesced o pfn ls (coalesce n pfn o ls)
unfolding coalesce
coalesce-Coalesced zero pfn o ls len e all blk =
    (omega arith, omega arith, len, all, blk, inl (omega arith), λ f add. refl)
coalesce-Coalesced (suc n) pfn o ls len e all blk = elim (Option-cases (buddy_at o pfn ls)) [
  | inl lone ↦
      rw (lone, coalesce) (omega arith, omega arith, len, all, blk, inr lone, λ f add. refl)
  | inr (i, found) ↦
      rw (found, coalesce)
        (let ls' = set ls o (swap_remove (get_or ls o []) i) in
          let low = min pfn (bit_xor pfn (shl_one o)) in
          let (all', blk', worth) = merge_round o pfn i ls (omega arith) all blk found in
          let up : suc o ≡ o + 1 = omega arith in
          let (h₁, h₂, h₃, h₄, h₅, h₆, total) =
            coalesce-Coalesced n low (o + 1) ls'
              (length-set ls o (swap_remove (get_or ls o []) i) ∙ len) (omega arith) all'
              (subst (λ t. IsBlock t low) up blk') in
          (
            omega arith,
            h₂,
            h₃,
            h₄,
            h₅,
            h₆,
            λ f add. omega (arith, total f add, worth f add, ap (λ (t : ℕ). f t low) up),
          ))
]

-- What holds after a block of the order is freed.
pub record Freed (b : BuddyAllocator) (order frame : ℕ) (b' : BuddyAllocator) : Type 0 where
  pub valid : IsWf b'
  pub total : b'.total_pages ≡ b.total_pages
  pub worth :
      (f : ℕ → ℕ → ℕ)
      → IsAdditive f
      → weight f 0 b'.free_lists ≡ weight f 0 b.free_lists + f order frame

-- `free` of an order past the array panics; of a block it adds the pages.
abbrev pub FreeOutcome : BuddyAllocator → ℕ → ℕ → ℕ → Run (BuddyAllocator × ℕ) → Type 0
FreeOutcome b pages_allocated frame order (ok (b', pages_allocated')) =
    (order ≤ max_order)
    × Freed b order frame b'
    × (pages_allocated' ≡ sub64 pages_allocated (shl_one order))
FreeOutcome b pages_allocated frame order panic = max_order < order

free_cases :
    (b : BuddyAllocator) (pages_allocated frame order : ℕ)
    → IsWf b
    → order ≤ max_order
    → IsBlock order frame
    → (b' : BuddyAllocator) × (free b pages_allocated frame order
        ≡ ok (b', sub64 pages_allocated (shl_one order)))
      × Freed b order frame b'
unfolding free
free_cases b g frame order wf h blk =
    let r = coalesce (max_order - order) frame order b.free_lists in
    let (up, top, len, all, blk', _, worth) =
      coalesce-Coalesced (max_order - order) frame order b.free_lists wf.lists (omega arith)
        wf.blocks blk in
    let small : ltb max_order order ≡ false = ground arith in
    let total = λ (f : ℕ → ℕ → ℕ) (add : IsAdditive f).
      let e : weight f 0 (push_block r.1 r.0 r.2) ≡ weight f 0 b.free_lists + f order frame =
        omega (arith, worth f add, weight-push_block f r.1 r.0 r.2 (omega arith)) in
      e in
    (
      record b {
        free_lists = push_block r.1 r.0 r.2;
        free_pages = add64 b.free_pages (shl_one order);
      },
      rw small,
      record {
        valid = record {
          lists = length-push_block r.1 r.0 r.2 ∙ len;
          blocks = AllBlocks-push r.1 r.0 r.2 (omega arith) all blk';
          counted = omega (arith, total size size-IsAdditive, wf.counted);
        };
        total = refl;
        worth = total;
      },
    )

-- An order past the array of free lists panics.
free_panic :
    (b : BuddyAllocator) (pages_allocated frame order : ℕ)
    → max_order < order
    → free b pages_allocated frame order ≡ panic
unfolding free
free_panic b g frame order h = ground arith

-- `free`, on a well-formed allocator, of a block that is aligned to its order and lies in the
-- address space: for an order up to `MAX_ORDER` it adds the pages of the block to the free ones,
-- whatever buddies it takes in, changes no other page, keeps the invariant and takes the pages off
-- the counter; it panics only for a larger order.
pub free-FreeOutcome :
    (b : BuddyAllocator) (pages_allocated frame order : ℕ)
    → IsWf b
    → IsBlock order frame
    → FreeOutcome b pages_allocated frame order (free b pages_allocated frame order)
free-FreeOutcome b g frame order wf blk = elim (dec_le order max_order) [
  | yes h ↦ let (b', e, f) = free_cases b g frame order wf h blk in rw e (h, f, refl)
  | no h ↦ rw (free_panic b g frame order (omega arith)) (omega arith)
]
