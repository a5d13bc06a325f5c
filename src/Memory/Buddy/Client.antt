-- ===== src/Memory/Buddy/Client.antt =====
-- Runs of the buddy allocator's callers: any sequence of allocations and of frees of blocks that
-- are in use.
use zeroxos_os.Base.{
  ℕ, ◌+◌, ◌%◌, ◌≤◌, ◌≡◌, refl, sym, ap, subst, ◌∙◌, none, some, List, [], ◌∷◌, ◌++◌, arith, All,
  u64_mod, ok,
}
use zeroxos_os.Memory.Buddy.{BuddyAllocator, max_order, alloc, free}
use zeroxos_os.Memory.Buddy.Blocks.{IsBlock, inside, inside-IsAdditive, size, pow-le_of_le}
use zeroxos_os.Memory.Buddy.Alloc.{alloc-AllocOutcome, AllocOutcome, IsWf, held}
use zeroxos_os.Memory.Buddy.Free.{free-FreeOutcome, FreeOutcome}

-- The allocator, the static page counter, and the blocks in use as pairs of order and frame.
pub record Client : Type 0 where
  pub buddy : BuddyAllocator
  pub pages_allocated : ℕ
  pub live : List (ℕ × ℕ)

pub data Step : Client → Client → Type 0 where
  takes :
      (c : Client) (order block g : ℕ) (b : BuddyAllocator)
      → order ≤ max_order
      → alloc c.buddy c.pages_allocated order ≡ ok (some block, b, g)
      → Step c (record { buddy = b; pages_allocated = g; live = (order, block) ∷ c.live })
  fails :
      (c : Client) (order g : ℕ) (b : BuddyAllocator)
      → order ≤ max_order
      → alloc c.buddy c.pages_allocated order ≡ ok (none, b, g)
      → Step c (record c { buddy = b; pages_allocated = g })
  returns :
      (c : Client) (order frame g : ℕ) (b : BuddyAllocator) (before after : List (ℕ × ℕ))
      → c.live ≡ before ++ ((order, frame) ∷ after)
      → free c.buddy c.pages_allocated frame order ≡ ok (b, g)
      → Step c (record { buddy = b; pages_allocated = g; live = before ++ after })

pub data Reach (c : Client) : Client → Type 0 where
  here : Reach c c
  next : {d e : Client} → Reach c d → Step d e → Reach c e

-- The weight of the blocks in use.
module _ (f : ℕ → ℕ → ℕ) where
  abbrev pub live_weight : List (ℕ × ℕ) → ℕ
  live_weight [] = 0
  live_weight ((k, b) ∷ l) = f k b + live_weight l

  live_weight-middle :
      (before after : List (ℕ × ℕ)) (k b : ℕ)
      → live_weight (before ++ ((k, b) ∷ after)) ≡ f k b + live_weight (before ++ after)
  live_weight-middle [] after k b = refl
  live_weight-middle ((j, a) ∷ before) after k b =
      omega (arith, live_weight-middle before after k b)

-- The blocks in use are blocks, of orders that the allocator serves.
abbrev pub IsLive : ℕ × ℕ → Type 0
IsLive (k, b) = (k ≤ max_order) × IsBlock k b

All-middle :
    (before after : List (ℕ × ℕ)) (e : ℕ × ℕ)
    → All IsLive (before ++ (e ∷ after))
    → IsLive e × All IsLive (before ++ after)
All-middle [] after e h = (h.0, h.1)
All-middle (x ∷ before) after e h = let (p, q) = All-middle before after e h.1 in (p, (h.0, q))

-- How often page `p` is owned: by a free block, or by a block in use.
abbrev pub owned : ℕ → Client → ℕ
owned p c = held p c.buddy + live_weight (inside p) c.live

pub record IsSound (c : Client) : Type 0 where
  pub valid : IsWf c.buddy
  pub blocks : All IsLive c.live
  pub counted : c.pages_allocated ≡ live_weight size c.live % u64_mod

-- A step keeps the owner of every page, and what else the allocator and its callers rely on.
pub Step-IsSound :
    {c d : Client} → Step c d → IsSound c → IsSound d × ((p : ℕ) → owned p d ≡ owned p c)
Step-IsSound (takes c order block g b h e) s =
    let (a, counted) =
      subst (AllocOutcome c.buddy c.pages_allocated order) e
        (alloc-AllocOutcome c.buddy c.pages_allocated order s.valid h) in
    (
      record {
        valid = a.valid;
        blocks = ((h, a.found), s.blocks);
        counted = omega (arith, counted, s.counted);
      },
      λ p. omega (arith, a.worth (inside p) (inside-IsAdditive p)),
    )
Step-IsSound (fails c order g b h e) s =
    let (same, counted, _) =
      subst (AllocOutcome c.buddy c.pages_allocated order) e
        (alloc-AllocOutcome c.buddy c.pages_allocated order s.valid h) in
    (
      record {
        valid = subst IsWf (sym same) s.valid;
        blocks = s.blocks;
        counted = omega (arith, counted, s.counted);
      },
      λ p. ap (λ b. held p b + live_weight (inside p) c.live) same,
    )
Step-IsSound (returns c order frame g b before after at e) s =
    let (blk, rest) = All-middle before after (order, frame) (subst (All IsLive) at s.blocks) in
    let (h, f, counted) =
      subst (FreeOutcome c.buddy c.pages_allocated frame order) e
        (free-FreeOutcome c.buddy c.pages_allocated frame order s.valid blk.1) in
    let worth = λ (w : ℕ → ℕ → ℕ).
      let r : live_weight w c.live ≡ w order frame + live_weight w (before ++ after) =
        ap (live_weight w) at ∙ live_weight-middle w before after order frame in
      r in
    (
      record {
        valid = f.valid;
        blocks = rest;
        counted = omega (arith, counted, s.counted, worth size, pow-le_of_le order max_order blk.0);
      },
      λ p. omega (arith, f.worth (inside p) (inside-IsAdditive p), worth (inside p)),
    )

-- From a sound client (a well-formed allocator, a page counter that is the number of pages in use,
-- and blocks in use that lie in the address space on their boundaries), any run of `alloc` calls
-- that succeed and `free` calls of blocks in use keeps it sound, and keeps for every page the
-- number of its owners, free lists and blocks in use together.
pub Reach-IsSound :
    {c d : Client} → Reach c d → IsSound c → IsSound d × ((p : ℕ) → owned p d ≡ owned p c)
Reach-IsSound here s = (s, λ p. refl)
Reach-IsSound (next r st) s =
    let (s', same) = Reach-IsSound r s in
    let (s'', same') = Step-IsSound st s' in (s'', λ p. same' p ∙ same p)

-- From a sound client (well-formed allocator, page counter and blocks in use in step) in which a
-- page has at most one owner, after any run of successful `alloc` calls and of `free` calls of
-- blocks in use: where that page lies in the first block of the list of blocks in use, it does not
-- lie in the second one, and it is not free.
pub Reach-exclusive :
    {c d : Client} (p k b j a : ℕ) (rest : List (ℕ × ℕ))
    → Reach c d
    → IsSound c
    → owned p c ≤ 1
    → d.live ≡ (k, b) ∷ (j, a) ∷ rest
    → inside p k b ≡ 1
    → (inside p j a ≡ 0) × (held p d.buddy ≡ 0)
Reach-exclusive p k b j a rest r s h at e =
    let same = (Reach-IsSound r s).1 p in omega (arith, same, ap (live_weight (inside p)) at)
