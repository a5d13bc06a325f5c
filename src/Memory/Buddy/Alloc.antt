-- ===== src/Memory/Buddy/Alloc.antt =====
-- `BuddyAllocator::alloc`: when it finds a block, what it gives out, and what stays free.
use native.Mathlib.Nat.{pow-suc, one-le-pow}
use zeroxos_os.Base.{
  panic, ◌-◌, set, Bool-cases, ltb, pop-cons, Run, ok, some, none, Option, add64, sub64, shl_one,
  ◌⊎◌, inl, inr, All, All-push_inv, sym, ap, ℕ, zero, suc, ◌+◌, ◌%◌, ◌^◌, ◌≤◌, ◌<◌, ◌≡◌, ℕ_discrete,
  refl, subst, ◌∙◌, true, false, List, [], ◌∷◌, length, get_or, push, is_empty, arith, length-set,
  u64_mod,
}
use zeroxos_os.Memory.Buddy.{alloc, BuddyAllocator, max_order, push_block, find_fit, split}
use zeroxos_os.Memory.Buddy.Weight.{weight-set, sum_by-push, sum_by, weight, weight-push_block}
use zeroxos_os.Memory.Buddy.Blocks.{
  pow-le_of_le, size-IsAdditive, AllBlocks-set, AllBlocks-get, IsBlock, AllBlocks, AllBlocks-push,
  IsAdditive, size, inside, IsBlock-halves,
}

-- The allocator's invariant: ten lists of aligned blocks, each of its list's order, and a counter
-- that holds the number of their pages.
pub record IsWf (b : BuddyAllocator) : Type 0 where
  pub lists : length b.free_lists ≡ max_order + 1
  pub blocks : AllBlocks 0 b.free_lists
  pub counted : b.free_pages ≡ weight size 0 b.free_lists % u64_mod

-- How often page `p` is free.
abbrev pub held : ℕ → BuddyAllocator → ℕ
held p b = weight (inside p) 0 b.free_lists

is_empty-true : (l : List ℕ) → is_empty l ≡ true → l ≡ []
is_empty-true [] e = refl
is_empty-true (x ∷ l) e = cc

is_empty-false : (l : List ℕ) → is_empty l ≡ false → (x : ℕ) × (xs : List ℕ) × (l ≡ x ∷ xs)
is_empty-false [] e = cc
is_empty-false (x ∷ xs) e = (x, xs, refl)

-- The outcome of the search for a list: the first one from `o` on that is not empty.
abbrev pub FitsAt : ℕ → ℕ → List (List ℕ) → ℕ → Type 0
FitsAt n o ls r =
    (o ≤ r)
    × (r ≤ o + n)
    × ((k : ℕ) → o ≤ k → k < r → get_or ls k [] ≡ [])
    × (r < o + n → is_empty (get_or ls r []) ≡ false)

pub find_fit-FitsAt : (n o : ℕ) (ls : List (List ℕ)) → FitsAt n o ls (find_fit n o ls)
unfolding find_fit
find_fit-FitsAt zero o ls =
    (omega arith, omega arith, λ k p q. absurd (omega arith), λ h. absurd (omega arith))
find_fit-FitsAt (suc n) o ls = elim (Bool-cases (is_empty (get_or ls o []))) [
  | inl e ↦
      rw (e, find_fit)
        (let (low, high, clear, found) = find_fit-FitsAt n (o + 1) ls in
          (
            omega arith,
            omega arith,
            λ k p q. elim (ℕ_discrete k o) [
              | yes here ↦ rw here (is_empty-true (get_or ls o []) e)
              | no other ↦ clear k (omega arith) q
            ],
            λ h. found (omega arith),
          ))
  | inr e ↦ rw (e, find_fit) (omega arith, omega arith, λ k p q. absurd (omega arith), λ h. e)
]

pub length-push_block : (k b : ℕ) (ls : List (List ℕ)) → length (push_block k b ls) ≡ length ls
unfolding push_block
length-push_block k b ls = length-set ls k (push (get_or ls k []) b)

-- The two halves of a block in range, the upper one as the code computes it.
split-halves :
    (k b : ℕ)
    → IsBlock (suc k) b
    → (add64 b (2 ^ k) ≡ b + 2 ^ k) × IsBlock k b × IsBlock k (b + 2 ^ k)
split-halves k b blk =
    let (low, high) = IsBlock-halves k b blk in
    (omega (arith, blk.2, pow-suc 2 k, one-le-pow k 2), low, high)

-- What is split off goes to the lists, down to a block of the order asked for.
split_lem :
    (n order block : ℕ) (ls : List (List ℕ))
    → length ls ≡ max_order + 1
    → order + n ≤ max_order
    → AllBlocks 0 ls
    → IsBlock (order + n) block
    → (length (split n order block ls) ≡ max_order + 1)
      × AllBlocks 0 (split n order block ls)
      × IsBlock order block
      × ((f : ℕ → ℕ → ℕ)
          → IsAdditive f
          → weight f 0 (split n order block ls) + f order block
            ≡ weight f 0 ls + f (order + n) block)
unfolding split
split_lem zero order block ls len h all blk =
    let e : order + 0 ≡ order = omega arith in
    (len, all, subst (λ t. IsBlock t block) e blk, λ f add. rw e refl)
split_lem (suc n) order block ls len h all blk =
    let k = order + n in
    let e : order + suc n ≡ suc k = omega arith in
    let (plain, low, high) = split-halves k block (subst (λ t. IsBlock t block) e blk) in
    let ls' = push_block k (block + 2 ^ k) ls in
    let (len', all', blk', worth) =
      split_lem n order block ls' (length-push_block k (block + 2 ^ k) ls ∙ len) (omega arith)
        (AllBlocks-push k (block + 2 ^ k) ls (omega arith) all high) low in
    rw (plain, e)
      (
        len',
        all',
        blk',
        λ f add. omega (
          arith,
          worth f add,
          weight-push_block f k (block + 2 ^ k) ls (omega arith),
          add k block,
        ),
      )

-- What holds once a block of the order is given out: for any weight that blocks share out to their
-- halves, the block and the free lists after it make up the free lists before.
pub record Allocated (b : BuddyAllocator) (order block : ℕ) (b' : BuddyAllocator) : Type 0 where
  pub found : IsBlock order block
  pub valid : IsWf b'
  pub total : b'.total_pages ≡ b.total_pages
  pub worth :
      (f : ℕ → ℕ → ℕ)
      → IsAdditive f
      → weight f 0 b'.free_lists + f order block ≡ weight f 0 b.free_lists

-- The end of `alloc`, after a list with a block was found.
take_block :
    (b : BuddyAllocator) (order n o block : ℕ) (rest l : List ℕ)
    → IsWf b
    → o ≡ order + n
    → o ≤ max_order
    → get_or b.free_lists o [] ≡ l
    → l ≡ push rest block
    → Allocated b order block (record b {
      free_lists = split n order block (set b.free_lists o rest);
      free_pages = sub64 b.free_pages (shl_one order);
    })
take_block b order n o block rest l wf e h at whole =
    let len = wf.lists in
    let good =
      subst (All (IsBlock o)) (at ∙ whole) (AllBlocks-get o b.free_lists (omega arith) wf.blocks) in
    let (blk, rest_good) = All-push_inv (IsBlock o) rest block good in
    let ls = set b.free_lists o rest in
    let (len', all', blk', worth) =
      split_lem n order block ls (length-set b.free_lists o rest ∙ len) (omega arith)
        (AllBlocks-set o b.free_lists rest wf.blocks rest_good)
        (subst (λ t. IsBlock t block) e blk) in
    let total = λ (f : ℕ → ℕ → ℕ) (add : IsAdditive f).
      let same : sum_by (f o) (get_or b.free_lists o []) ≡ sum_by (f o) rest + f o block =
        ap (sum_by (f o)) (at ∙ whole) ∙ sum_by-push (f o) rest block in
      let e' : f (order + n) block ≡ f o block = ap (λ (t : ℕ). f t block) (sym e) in
      let r : weight f 0 (split n order block ls) + f order block ≡ weight f 0 b.free_lists =
        omega (arith, worth f add, weight-set f o b.free_lists rest (omega arith)) in
      r in
    record {
      found = blk';
      valid = record {
        lists = len';
        blocks = all';
        counted = omega (
          arith,
          total size size-IsAdditive,
          wf.counted,
          pow-le_of_le order max_order (omega arith),
        );
      };
      total = refl;
      worth = total;
    }

-- What `alloc` may return: a block that was free, or nothing, with nothing changed, where every
-- list from the order on is empty. It does not panic.
abbrev pub AllocOutcome : BuddyAllocator → ℕ → ℕ → Run (Option ℕ × BuddyAllocator × ℕ) → Type 0
AllocOutcome b pages_allocated order (ok (some block, b', pages_allocated')) =
    Allocated b order block b' × (pages_allocated' ≡ add64 pages_allocated (shl_one order))
AllocOutcome b pages_allocated order (ok (none, b', pages_allocated')) =
    (b' ≡ b)
    × (pages_allocated' ≡ pages_allocated)
    × ((k : ℕ) → order ≤ k → k ≤ max_order → get_or b.free_lists k [] ≡ [])
AllocOutcome b pages_allocated order panic = ⊥

alloc_cases :
    (b : BuddyAllocator) (pages_allocated order : ℕ)
    → IsWf b
    → order ≤ max_order
    → ((alloc b pages_allocated order ≡ ok (none, b, pages_allocated))
        × ((k : ℕ) → order ≤ k → k ≤ max_order → get_or b.free_lists k [] ≡ []))
      ⊎ ((block : ℕ) × (b' : BuddyAllocator) × (alloc b pages_allocated order
            ≡ ok (some block, b', add64 pages_allocated (shl_one order)))
          × Allocated b order block b')
unfolding alloc
alloc_cases b g order wf h =
    let o = find_fit (max_order + 1 - order) order b.free_lists in
    let (low, high, clear, found) = find_fit-FitsAt (max_order + 1 - order) order b.free_lists in
    elim (Bool-cases (ltb max_order o)) [
      | inl over ↦ inl (rw over, λ k p q. clear k p (ground arith))
      | inr fits ↦
          let (x, xs, at) = is_empty-false (get_or b.free_lists o []) (found (ground arith)) in
          let (block, rest, popped, whole) = pop-cons x xs in
          let b' : BuddyAllocator = record b {
            free_lists = split (o - order) order block (set b.free_lists o rest);
            free_pages = sub64 b.free_pages (shl_one order);
          } in
          inr (
            block,
            b',
            rw (fits, at, popped),
            take_block b order (o - order) o block rest (x ∷ xs) wf (omega arith) (ground arith) at
                whole,
          )
    ]

-- `alloc` of an order up to `MAX_ORDER` on a well-formed allocator does not panic. It gives out an
-- aligned block whose pages were free, keeps every other free page and the invariant, and adds the
-- pages to the counter; or every list from the order on is empty, and nothing changes.
pub alloc-AllocOutcome :
    (b : BuddyAllocator) (pages_allocated order : ℕ)
    → IsWf b
    → order ≤ max_order
    → AllocOutcome b pages_allocated order (alloc b pages_allocated order)
alloc-AllocOutcome b g order wf h = elim (alloc_cases b g order wf h) [
  | inl (e, empty) ↦ rw e (refl, refl, empty)
  | inr (block, b', e, a) ↦ rw e (a, refl)
]
