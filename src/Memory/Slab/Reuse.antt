-- ===== src/Memory/Slab/Reuse.antt =====
-- Runs of a slab's callers.
use zeroxos_os.Base.{
  ℕ, suc, ◌+◌, ◌%◌, ◌≤◌, ◌<◌, ◌≡◌, refl, ap, subst, ◌⊎◌, inl, inr, Bool-cases, some, List, [], ◌∷◌,
  ◌++◌, arith, if◌then◌else◌, ◌==◌, leb, length, push, pop, pop-cons, u64_mod, add64, Run, ok,
  panic,
}
use zeroxos_os.Memory.Slab.{SlabAllocator, max_layout, alloc, free}

abbrev pub count : ℕ → List ℕ → ℕ
count x [] = 0
count x (y ∷ l) = (if x == y then 1 else 0) + count x l

pub count-append : (x : ℕ) (l m : List ℕ) → count x (l ++ m) ≡ count x l + count x m
count-append x [] m = omega arith
count-append x (y ∷ l) m = omega (arith, count-append x l m)

pop-push : (l : List ℕ) (y : ℕ) → pop (push l y) ≡ some (y, l)
pop-push [] y = refl
pop-push (x ∷ l) y = rw (pop-push l y)

-- An object that is freed is the next to be handed out, and the slab is then as it was before, for
-- an `in_use` that is a machine word.
pub alloc-free :
    (s : SlabAllocator) (ptr fresh : ℕ)
    → s.in_use < u64_mod
    → alloc (free s ptr) fresh ≡ ok (ptr, s)
unfolding alloc free
alloc-free s ptr fresh h =
    rw (pop-push s.free_list ptr, alloc)
      (ap (λ (n : ℕ). ok (ptr, record s { in_use = n })) (omega arith))

-- What `alloc` hands out came off the free list, or is the fresh object of an empty list; a panic
-- means that the list is empty and the object too large for a layout.
abbrev pub SlabOutcome : SlabAllocator → ℕ → Run (ℕ × SlabAllocator) → Type 0
SlabOutcome s fresh (ok (ptr, s')) =
    (s'.in_use ≡ add64 s.in_use 1)
    × (s'.object_size ≡ s.object_size)
    × (((x : ℕ) → count x (ptr ∷ s'.free_list) ≡ count x s.free_list)
        ⊎ ((s.free_list ≡ []) × (s'.free_list ≡ []) × (ptr ≡ fresh)))
SlabOutcome s fresh panic = (s.free_list ≡ []) × (max_layout < s.object_size)

pub alloc-SlabOutcome :
    (s : SlabAllocator) (fresh : ℕ) (l : List ℕ)
    → s.free_list ≡ l
    → SlabOutcome s fresh (alloc s fresh)
unfolding alloc
alloc-SlabOutcome s fresh [] e = elim (Bool-cases (leb s.object_size max_layout)) [
  | inl fits ↦ rw (e, fits, alloc) (refl, refl, inr (refl, e, refl))
  | inr big ↦ rw (e, big, alloc) (refl, ground arith)
]
alloc-SlabOutcome s fresh (y ∷ l) e =
    let (ptr, rest, popped, whole) = pop-cons y l in
    rw (e, popped, alloc)
      (
        refl,
        refl,
        inl (λ x.
            omega (arith, ap (count x) e, ap (count x) whole, count-append x rest (ptr ∷ []))),
      )

-- The slab and the objects in use.
pub record Client : Type 0 where
  pub slab : SlabAllocator
  pub live : List ℕ

-- The host hands out objects that are neither free nor in use.
pub data Step : Client → Client → Type 0 where
  takes :
      (c : Client) (ptr fresh : ℕ) (s : SlabAllocator)
      → count fresh c.slab.free_list + count fresh c.live ≡ 0
      → alloc c.slab fresh ≡ ok (ptr, s)
      → Step c (record { slab = s; live = ptr ∷ c.live })
  returns :
      (c : Client) (ptr : ℕ) (before after : List ℕ)
      → c.live ≡ before ++ (ptr ∷ after)
      → Step c (record { slab = free c.slab ptr; live = before ++ after })

pub data Reach (c : Client) : Client → Type 0 where
  here : Reach c c
  next : {d e : Client} → Reach c d → Step d e → Reach c e

-- No object is free twice, in use twice, or both; the counter holds the number in use.
pub record IsUnshared (c : Client) : Type 0 where
  pub once : (x : ℕ) → count x c.slab.free_list + count x c.live ≤ 1
  pub counted : c.slab.in_use ≡ length c.live % u64_mod

length-middle :
    (before after : List ℕ) (ptr : ℕ)
    → length (before ++ (ptr ∷ after)) ≡ suc (length (before ++ after))
length-middle [] after ptr = refl
length-middle (x ∷ before) after ptr = ap suc (length-middle before after ptr)

take_once :
    (c : Client) (ptr fresh x : ℕ) (s : SlabAllocator)
    → count fresh c.slab.free_list + count fresh c.live ≡ 0
    → ((y : ℕ) → count y (ptr ∷ s.free_list) ≡ count y c.slab.free_list)
      ⊎ ((c.slab.free_list ≡ []) × (s.free_list ≡ []) × (ptr ≡ fresh))
    → count x c.slab.free_list + count x c.live ≤ 1
    → count x s.free_list + count x (ptr ∷ c.live) ≤ 1
take_once c ptr fresh x s clear (inl off) h = omega (arith, off x)
take_once c ptr fresh x s clear (inr (e, e', new)) h = elim (Bool-cases (x == ptr)) [
  | inl same ↦
      let x_is : x ≡ fresh = ground arith in
      rw (same, e') (omega (arith, ap (λ (t : ℕ). count t c.live) x_is))
  | inr other ↦ rw (other, e') (omega (arith, ap (count x) e))
]

pub Step-IsUnshared : {c d : Client} → Step c d → IsUnshared c → IsUnshared d
unfolding free
Step-IsUnshared (takes c ptr fresh s clear e) h =
    let (counted, _, origin) =
      subst (SlabOutcome c.slab fresh) e (alloc-SlabOutcome c.slab fresh c.slab.free_list refl) in
    record {
      once = λ x. take_once c ptr fresh x s clear origin (h.once x);
      counted = omega (arith, counted, h.counted);
    }
Step-IsUnshared (returns c ptr before after at) h = record {
  once = λ x. omega (
    arith,
    h.once x,
    ap (count x) at,
    count-append x before (ptr ∷ after),
    count-append x before after,
    count-append x c.slab.free_list (ptr ∷ []),
  );
  counted = omega (arith, h.counted, ap length at, length-middle before after ptr);
}
