-- ===== src/Memory/Buddy/Region.antt =====
-- `BuddyAllocator::add_region`: how a region is cut into aligned blocks.
use native.Mathlib.Nat.{pow-suc, one-le-pow}
use zeroxos_os.Base.{
  ℕ_discrete, ◌≢◌, ℕ, zero, suc, ◌+◌, ◌-◌, ◌*◌, ◌/◌, ◌%◌, ◌^◌, ◌≤◌, ◌<◌, ◌≡◌, bit_and, refl, sym,
  ap, subst, ◌∙◌, inl, inr, true, false, ◌&&◌, List, if◌then◌else◌, ◌==◌, leb, ltb, length, arith,
  Bool-cases, u64_mod, add64, shl_one,
}
use zeroxos_os.Base.Bits.{bit_and-mask}
use zeroxos_os.Memory.Buddy.{
  new, BuddyAllocator, max_order, push_block, fit_order, add_blocks, add_region,
}
use zeroxos_os.Memory.Buddy.Weight.{weight, weight-push_block}
use zeroxos_os.Memory.Buddy.Blocks.{
  IsBlock, AllBlocks, AllBlocks-push, IsAdditive, size, size-IsAdditive, inside, inside-IsAdditive,
}
use zeroxos_os.Memory.Buddy.Alloc.{IsWf, held, length-push_block}

-- The weight of `n` single pages from page `s` on.
abbrev pub page_sum : (ℕ → ℕ → ℕ) → ℕ → ℕ → ℕ
page_sum f s zero = 0
page_sum f s (suc n) = f 0 s + page_sum f (s + 1) n

page_sum-add :
    (f : ℕ → ℕ → ℕ) (s t m n : ℕ)
    → t ≡ s + m
    → page_sum f s (m + n) ≡ page_sum f s m + page_sum f t n
page_sum-add f s t zero n e =
    let e' : t ≡ s = omega arith in let z : 0 + n ≡ n = omega arith in rw (e', z) (omega arith)
page_sum-add f s t (suc m) n e =
    let z : suc m + n ≡ suc (m + n) = omega arith in
    rw z (omega (arith, page_sum-add f (s + 1) t m n (omega arith)))

-- A block weighs as much as its pages.
page_sum-block : (f : ℕ → ℕ → ℕ) → IsAdditive f → (k b : ℕ) → page_sum f b (2 ^ k) ≡ f k b
page_sum-block f add zero b = omega arith
page_sum-block f add (suc k) b =
    let e : 2 ^ suc k ≡ 2 ^ k + 2 ^ k = omega (arith, pow-suc 2 k) in
    rw e (
      omega (
        arith,
        page_sum-add f b (b + 2 ^ k) (2 ^ k) (2 ^ k) refl,
        page_sum-block f add k b,
        page_sum-block f add k (b + 2 ^ k),
        add k b,
      ))

page_sum-size : (s n : ℕ) → page_sum size s n ≡ n
page_sum-size s zero = refl
page_sum-size s (suc n) = omega (arith, page_sum-size (s + 1) n)

page_sum-inside :
    (p s n : ℕ) → page_sum (inside p) s n ≡ (if leb s p && ltb p (s + n) then 1 else 0)
page_sum-inside p s zero = ground arith
page_sum-inside p s (suc n) = ground (arith, page_sum-inside p (s + 1) n)

-- The order that is taken fits the size and the alignment, and no larger one up to `n` does.
pub fit_order_lem :
    (n remaining pfn : ℕ)
    → 0 < remaining
    → let k = fit_order n remaining pfn in
      (k ≤ n)
      × (2 ^ k ≤ remaining)
      × (pfn ≡ pfn / 2 ^ k * 2 ^ k)
      × ((j : ℕ) → k < j → j ≤ n → 2 ^ j ≤ remaining → pfn % 2 ^ j ≢ 0)
unfolding fit_order
fit_order_lem zero remaining pfn h = (omega arith, h, omega arith, λ j p q. absurd (omega arith))
fit_order_lem (suc n) remaining pfn h =
    elim (Bool-cases (leb (shl_one (suc n)) remaining && bit_and pfn (shl_one (suc n) - 1) == 0)) [
      | inl fits ↦
          rw (fits, fit_order)
            (omega arith, ground arith, omega (arith, aligned fits), λ j p q. absurd (omega arith))
      | inr misses ↦
          rw (misses, fit_order)
            (let (low, size_fits, at, largest) = fit_order_lem n remaining pfn h in
              (
                omega arith,
                size_fits,
                at,
                λ j p q r. elim (ℕ_discrete j (suc n)) [
                  | yes e ↦
                      subst (λ t. pfn % 2 ^ t ≢ 0) (sym e)
                        (rejected misses (subst (λ t. 2 ^ t ≤ remaining) e r))
                  | no other ↦ largest j p (omega arith) r
                ],
              ))
    ]
  where
    aligned :
        (leb (shl_one (suc n)) remaining && bit_and pfn (shl_one (suc n) - 1) == 0) ≡ true
        → pfn % 2 ^ suc n ≡ 0
    aligned e = ground (arith, bit_and-mask (suc n) pfn)

    rejected :
        (leb (shl_one (suc n)) remaining && bit_and pfn (shl_one (suc n) - 1) == 0) ≡ false
        → 2 ^ suc n ≤ remaining
        → pfn % 2 ^ suc n ≢ 0
    rejected e r z = ground (arith, bit_and-mask (suc n) pfn)

-- What the outer loop does to the lists.
abbrev Covers : ℕ → ℕ → List (List ℕ) → List (List ℕ) → Type 0
Covers remaining pfn ls ls' =
    (length ls' ≡ max_order + 1)
    × AllBlocks 0 ls'
    × ((f : ℕ → ℕ → ℕ) → IsAdditive f → weight f 0 ls' ≡ weight f 0 ls + page_sum f pfn remaining)

add_blocks-Covers :
    (n remaining pfn : ℕ) (ls : List (List ℕ))
    → remaining ≤ n
    → pfn + remaining < u64_mod
    → length ls ≡ max_order + 1
    → AllBlocks 0 ls
    → Covers remaining pfn ls (add_blocks n remaining pfn ls)
unfolding add_blocks
add_blocks-Covers zero zero pfn ls h fits len all = (len, all, λ f add. omega arith)
add_blocks-Covers zero (suc r) pfn ls h fits len all = absurd (omega arith)
add_blocks-Covers (suc n) zero pfn ls h fits len all = (len, all, λ f add. omega arith)
add_blocks-Covers (suc n) (suc r) pfn ls h fits len all =
    let remaining = suc r in
    let k = fit_order max_order remaining pfn in
    let (top, small, at, _) = fit_order_lem max_order remaining pfn (omega arith) in
    let plain : add64 pfn (shl_one k) ≡ pfn + 2 ^ k = omega arith in
    let blk : IsBlock k pfn = (pfn / 2 ^ k, at, omega arith) in
    let positive : 0 < 2 ^ k = one-le-pow k 2 (omega arith) in
    let (len', all', worth) =
      add_blocks-Covers n (remaining - 2 ^ k) (pfn + 2 ^ k) (push_block k pfn ls) (omega arith)
        (omega arith) (length-push_block k pfn ls ∙ len)
        (AllBlocks-push k pfn ls (omega arith) all blk) in
    let whole : 2 ^ k + (remaining - 2 ^ k) ≡ remaining = omega arith in
    let more : (remaining == 0) ≡ false = ground arith in
    rw (more, add_blocks)
      (subst
        (λ t. Covers remaining pfn ls (add_blocks n (remaining - 2 ^ k) t (push_block k pfn ls)))
        (sym plain)
        (
          len',
          all',
          λ f add. omega (
            arith,
            worth f add,
            weight-push_block f k pfn ls (omega arith),
            page_sum-add f pfn (pfn + 2 ^ k) (2 ^ k) (remaining - 2 ^ k) refl,
            page_sum-block f add k pfn,
            ap (page_sum f pfn) whole,
          ),
        ))

-- `add_region` on a well-formed allocator, of pages that end within the address space, makes just
-- those pages free, keeps the invariant, and adds their number to both counters.
pub add_region_lem :
    (b : BuddyAllocator) (start page_count : ℕ)
    → IsWf b
    → start + page_count < u64_mod
    → let b' = add_region b start page_count in
      IsWf b'
      × (b'.total_pages ≡ add64 b.total_pages page_count)
      × (b'.free_pages ≡ add64 b.free_pages page_count)
      × ((p : ℕ)
          → held p b' ≡ held p b + (if leb start p && ltb p (start + page_count) then 1 else 0))
unfolding add_region
add_region_lem b start page_count wf h =
    let (len, all, worth) =
      add_blocks-Covers page_count page_count start b.free_lists (omega arith) h wf.lists
        wf.blocks in
    (
      record {
        lists = len;
        blocks = all;
        counted =
            omega (arith, worth size size-IsAdditive, page_sum-size start page_count, wf.counted);
      },
      refl,
      refl,
      λ p.
          worth (inside p) (inside-IsAdditive p)
          ∙ ap (λ (t : ℕ). held p b + t) (page_sum-inside p start page_count),
    )

-- The pages that a region adds are counted, with wrap-around.
pub add_region_total :
    (b : BuddyAllocator) (base count : ℕ)
    → (add_region b base count).total_pages ≡ add64 b.total_pages count
unfolding add_region
add_region_total b base count = refl

-- The empty allocator is well-formed, and all of its pages are free.
pub new-IsWf : IsWf new × (new.free_pages ≡ new.total_pages)
unfolding new
new-IsWf = (
  record {
    lists = refl;
    blocks = (tt, (tt, (tt, (tt, (tt, (tt, (tt, (tt, (tt, (tt, tt))))))))));
    counted = refl;
  },
  refl,
)
