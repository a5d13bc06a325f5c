-- ===== src/Heap/Client.antt =====
-- `dealloc`, and runs of the heap's callers: allocations, and frees of blocks in use with the
-- layout that they were asked for with.
use zeroxos_os.Base.{
  ℕ, ◌+◌, ◌%◌, ◌≤◌, ◌<◌, ◌≡◌, ◌≢◌, refl, sym, ap, subst, ◌∙◌, inl, inr, true, some, List, [], ◌∷◌,
  ◌++◌, All, arith, add64, sub64, u64_mod,
}
use zeroxos_os.Heap.{
  FreeBlock, Heap, Layout, adjust_layout, align_up, fits, take_fit, give_back, alloc_first_fit,
  dealloc,
}
use zeroxos_os.Heap.Align.{align_up_bounds}
use zeroxos_os.Heap.Regions.{inside, held, memory_end, IsWf, add_free_region_aligned}
use zeroxos_os.Heap.Alloc.{
  IsRequest, adjust_layout-Rounded, HeapOutcome, alloc_first_fit-HeapOutcome, fits_room,
}

-- A block in use: its address and its layout.
abbrev pub IsUsed : ℕ → ℕ × Layout → Type 0
IsUsed room (a, l) =
    IsRequest room l × (0 < a) × (a % 8 ≡ 0) × (a + (adjust_layout l).0 ≤ memory_end room)

-- `dealloc` of a block in use puts the block, at its rounded size, in front of the free regions,
-- which all stay as they are, next to it or not, and takes the size off the counter.
pub dealloc_lem :
    (room : ℕ) (h : Heap) (a : ℕ) (l : Layout)
    → IsUsed room (a, l)
    → let size = (adjust_layout l).0 in
      dealloc h a l ≡ record h {
        head = record { start = a; size = size } ∷ h.head;
        allocated = sub64 h.allocated size;
      }
unfolding dealloc
dealloc_lem room h a l (r, _, e, low) =
    rw
      (add_free_region_aligned room h a (adjust_layout l).0 (omega (arith, r.room_least)) e
        (adjust_layout-Rounded room l r).large low)
      refl

give_back_nothing : (h : Heap) (addr : ℕ) → give_back h addr 0 ≡ h
unfolding give_back
give_back_nothing h addr = refl

take_fit_front :
    (size align : ℕ) (b : FreeBlock) (bs : List FreeBlock)
    → fits size align b ≡ true
    → take_fit size align (b ∷ bs) ≡ some (b, bs)
unfolding take_fit
take_fit_front size align b bs e = rw e refl

alloc_front :
    (room : ℕ) (h : Heap) (a x : ℕ) (l : Layout)
    → IsUsed room (a, l)
    → a % (adjust_layout l).1 ≡ 0
    → let size = (adjust_layout l).0 in
      alloc_first_fit
        (record h { head = record { start = a; size = size } ∷ h.head; allocated = x })
        l
      ≡ (a, record h { allocated = add64 x size })
unfolding alloc_first_fit
alloc_front room h a x l (request, pos, e, low) multiple =
    let size = (adjust_layout l).0 in
    let r = adjust_layout-Rounded room l request in
    let b : FreeBlock = record { start = a; size = size } in
    let (_, _, _, _, enough) =
      fits_room room l size (adjust_layout l).1 b r (pos, e, r.large, low) in
    let same : align_up a (adjust_layout l).1 ≡ a = rw (r.power) (
      (align_up_bounds r.exponent a (omega (arith, r.small))
          (omega (arith, r.place, r.room_most))).3
        (rw (r.power) at multiple)) in
    let fit : fits size (adjust_layout l).1 b ≡ true = ground (arith, enough, same) in
    let end : add64 a size ≡ a + size = omega arith in
    let front : sub64 a a ≡ 0 = omega arith in
    let tail : sub64 (a + size) (a + size) ≡ 0 = omega arith in
    rw
      (
        alloc_first_fit,
        take_fit_front size (adjust_layout l).1 b h.head fit,
        same,
        end,
        front,
        tail,
        give_back_nothing,
        give_back_nothing,
      )
      refl

-- For a bound `room` between 16 and 2^61: a block in use, whose power-of-two alignment and size
-- are at most `room` and which ends 4 times `room` or more below the end of the 64-bit address
-- space, is, once freed, the one that the next request of the same layout gets, and the heap, with
-- a counter of 64 bits, is then as it was before, for a block that has the rounded alignment.
pub alloc-dealloc :
    (room : ℕ) (h : Heap) (a : ℕ) (l : Layout)
    → IsUsed room (a, l)
    → a % (adjust_layout l).1 ≡ 0
    → h.allocated < u64_mod
    → alloc_first_fit (dealloc h a l) l ≡ (a, h)
alloc-dealloc room h a l used e small =
    let size = (adjust_layout l).0 in
    let back : add64 (sub64 h.allocated size) size ≡ h.allocated =
      omega (arith, (adjust_layout-Rounded room l used.0).bounded) in
    rw (dealloc_lem room h a l used) (
      alloc_front room h a (sub64 h.allocated size) l used e
      ∙ ap (λ t. (a, record h { allocated = t })) back)

pub record Client : Type 0 where
  pub heap : Heap
  pub live : List (ℕ × Layout)

pub data Step (room : ℕ) : Client → Client → Type 0 where
  takes :
      (c : Client) (l : Layout) (a : ℕ) (h : Heap)
      → IsRequest room l
      → a ≢ 0
      → alloc_first_fit c.heap l ≡ (a, h)
      → Step room c (record { heap = h; live = (a, l) ∷ c.live })
  fails :
      (c : Client) (l : Layout) (h : Heap)
      → IsRequest room l
      → alloc_first_fit c.heap l ≡ (0, h)
      → Step room c (record c { heap = h })
  returns :
      (c : Client) (a : ℕ) (l : Layout) (before after : List (ℕ × Layout))
      → c.live ≡ before ++ ((a, l) ∷ after)
      → Step room c (record { heap = dealloc c.heap a l; live = before ++ after })

pub data Reach (room : ℕ) (c : Client) : Client → Type 0 where
  here : Reach room c c
  next : {d e : Client} → Reach room c d → Step room d e → Reach room c e

-- The sum of `f` over the blocks in use, each with its rounded size.
module _ (f : ℕ → ℕ → ℕ) where
  abbrev pub used_weight : List (ℕ × Layout) → ℕ
  used_weight [] = 0
  used_weight ((a, l) ∷ rest) = f a (adjust_layout l).0 + used_weight rest

  used_weight-middle :
      (before after : List (ℕ × Layout)) (a : ℕ) (l : Layout)
      → used_weight (before ++ ((a, l) ∷ after))
        ≡ f a (adjust_layout l).0 + used_weight (before ++ after)
  used_weight-middle [] after a l = refl
  used_weight-middle ((b, m) ∷ before) after a l =
      omega (arith, used_weight-middle before after a l)

All-middle :
    (room : ℕ) (before after : List (ℕ × Layout)) (e : ℕ × Layout)
    → All (IsUsed room) (before ++ (e ∷ after))
    → IsUsed room e × All (IsUsed room) (before ++ after)
All-middle room [] after e h = (h.0, h.1)
All-middle room (x ∷ before) after e h =
    let (p, q) = All-middle room before after e h.1 in (p, (h.0, q))

-- How often byte `p` is owned: by a free region, or by a block in use.
abbrev pub owned : ℕ → Client → ℕ
owned p c = held p c.heap.head + used_weight (inside p) c.live

pub record IsIntact (room : ℕ) (c : Client) : Type 0 where
  pub valid : IsWf room c.heap
  pub blocks : All (IsUsed room) c.live
  pub counted : c.heap.allocated ≡ used_weight (λ a n. n) c.live % u64_mod

Step-IsIntact :
    {room : ℕ} {c d : Client}
    → Step room c d
    → IsIntact room c
    → IsIntact room d × ((p : ℕ) → owned p d ≤ owned p c)
Step-IsIntact {room} (takes c l a h r ne e) s =
    elim (subst (HeapOutcome room c.heap l) e
      (alloc_first_fit-HeapOutcome room c.heap l s.valid r)) [
        | inl o ↦ absurd (ne o.0)
        | inr t ↦ (
          record {
            valid = t.valid;
            blocks = ((r, t.not_null, t.eights, t.within), s.blocks);
            counted = omega (arith, t.counted, s.counted);
          },
          λ p. omega (arith, t.owned p),
        )
      ]
Step-IsIntact {room} (fails c l h r e) s =
    elim (subst (HeapOutcome room c.heap l) e
      (alloc_first_fit-HeapOutcome room c.heap l s.valid r)) [
        | inl o ↦ (
          record {
            valid = subst (IsWf room) (sym o.1) s.valid;
            blocks = s.blocks;
            counted = ap (λ (h : Heap). h.allocated) o.1 ∙ s.counted;
          },
          λ p. omega (arith, ap (λ (h : Heap). held p h.head) o.1),
        )
        | inr t ↦ absurd (omega (arith, t.not_null))
      ]
Step-IsIntact {room} (returns c a l before after at) s =
    let (used, rest) =
      All-middle room before after (a, l) (subst (All (IsUsed room)) at s.blocks) in
    let size = (adjust_layout l).0 in
    let r = adjust_layout-Rounded room l used.0 in
    let weight = λ (w : ℕ → ℕ → ℕ).
      let e : used_weight w c.live ≡ w a size + used_weight w (before ++ after) =
        ap (used_weight w) at ∙ used_weight-middle w before after a l in
      e in
    rw (dealloc_lem room c.heap a l used) (
      record {
        valid = ((used.1, used.2, r.large, used.3), s.valid);
        blocks = rest;
        counted = omega (arith, s.counted, weight (λ b n. n), r.bounded);
      },
      λ p. omega (arith, weight (inside p)),
    )

-- For a bound `room` between 16 and 2^61: from a heap in which the free regions are well-formed,
-- the blocks in use are aligned, all of them end 4 times `room` or more below the end of the
-- 64-bit address space, and `allocated` is the sum of the rounded sizes, up to wrap-around, any
-- run of allocations whose power-of-two alignment and size are at most `room` and of frees of
-- blocks in use with their layouts keeps all this, and no byte gets more owners, free regions and
-- blocks in use together, than it had.
pub Reach-IsIntact :
    {room : ℕ} {c d : Client}
    → Reach room c d
    → IsIntact room c
    → IsIntact room d × ((p : ℕ) → owned p d ≤ owned p c)
Reach-IsIntact here s = (s, λ p. omega arith)
Reach-IsIntact (next r st) s =
    let (s', w) = Reach-IsIntact r s in
    let (s'', w') = Step-IsIntact st s' in (s'', λ p. omega (arith, w p, w' p))
