-- ===== src/Heap/Alloc.antt =====
-- `alloc_first_fit` and `dealloc`: which bytes change hands.
use native.Mathlib.Nat.{pow-le-pow_right}
use zeroxos_os.Base.{
  ℕ, zero, suc, ◌+◌, ◌-◌, ◌*◌, ◌%◌, ◌^◌, ◌≤◌, ◌<◌, max, ◌≡◌, refl, ap, ◌∙◌, ◌⊎◌, inl, inr,
  Bool-cases, true, false, Option, none, some, List, [], ◌∷◌, leb, All, arith, add64, sub64,
  u64_mod,
}
use zeroxos_os.Heap.{
  FreeBlock, Heap, Layout, min_align, min_block, align_up, adjust_layout, give_back, fits, take_fit,
  alloc_first_fit,
}
use zeroxos_os.Heap.Align.{align_up_bounds, align_up_least, mod_eight}
use zeroxos_os.Heap.Regions.{
  inside, held, memory_end, IsRegion, IsWf, add_free_region_aligned, TakeOutcome,
  take_fit-TakeOutcome,
}

-- A layout's alignment is a power of two; both it and the size are at most `room`.
pub record IsRequest (room : ℕ) (l : Layout) : Type 0 where
  pub room_least : 16 ≤ room
  pub room_most : room ≤ 2 ^ 61
  pub power : ℕ
  pub power_bound : power ≤ 61
  pub is_power : l.align ≡ 2 ^ power
  pub align_bound : l.align ≤ room
  pub size_bound : l.size ≤ room

-- What a request is rounded to: a size of 16 bytes or more that is a multiple of 8 and of the
-- alignment, which is a power of two from 8 on.
pub record Rounded (room : ℕ) (l : Layout) (size align : ℕ) : Type 0 where
  pub exponent : ℕ
  pub small : exponent ≤ 61
  pub place : 2 ^ exponent ≤ room
  pub room_least : 16 ≤ room
  pub room_most : room ≤ 2 ^ 61
  pub power : align ≡ 2 ^ exponent
  pub fine : 3 ≤ exponent
  pub large : min_block ≤ size
  pub enough : l.size ≤ size
  pub bounded : size ≤ 2 * room
  pub eights : size % 8 ≡ 0
  pub aligned : (a : ℕ) → a % align ≡ 0 → a % l.align ≡ 0

eight_le : (j : ℕ) → 3 ≤ j → 8 ≤ 2 ^ j
eight_le j h = pow-le-pow_right {n = 2} (omega arith) {i = 3} h

-- The alignment is at least 8, and an address that has it has the one asked for.
max_align :
    (k : ℕ)
    → k ≤ 61
    → (j : ℕ) × ((j ≤ 61)
        × (3 ≤ j)
        × (max (2 ^ k) 8 ≡ 2 ^ j)
        × ((a : ℕ) → a % 2 ^ j ≡ 0 → a % 2 ^ k ≡ 0))
max_align zero h = (3, (omega arith, omega arith, refl, λ a e. omega arith))
max_align (suc zero) h = (3, (omega arith, omega arith, refl, λ a e. omega arith))
max_align (suc (suc zero)) h = (3, (omega arith, omega arith, refl, λ a e. omega arith))
max_align (suc (suc (suc k))) h =
    let j = suc (suc (suc k)) in
    (j, (h, omega arith, omega (arith, eight_le j (omega arith)), λ a e. e))

pub adjust_layout-Rounded :
    (room : ℕ) (l : Layout)
    → IsRequest room l
    → Rounded room l (adjust_layout l).0 (adjust_layout l).1
unfolding adjust_layout
adjust_layout-Rounded room l r =
    let (j, (small, fine, power, aligned)) = max_align r.power r.power_bound in
    let align : max l.align min_align ≡ 2 ^ j = ap (λ t. max t min_align) r.is_power ∙ power in
    let (from, below, multiple, _) =
      align_up_bounds j (max l.size min_block) (omega arith) (
        omega (arith, power, r.is_power, r.align_bound, r.size_bound, r.room_least, r.room_most)) in
    rw align (record {
      exponent = j;
      small = small;
      place = omega (arith, power, r.is_power, r.align_bound, r.room_least);
      room_least = r.room_least;
      room_most = r.room_most;
      power = refl;
      fine = fine;
      large = omega arith;
      enough = omega arith;
      bounded = omega (arith, power, r.is_power, r.align_bound, r.size_bound, r.room_least);
      eights = mod_eight j _ fine multiple;
      aligned = λ a e. rw (r.is_power) (aligned a e);
    })

-- A region that fits has the aligned block within it.
pub fits_room :
    (room : ℕ) (l : Layout) (size align : ℕ) (b : FreeBlock)
    → Rounded room l size align
    → IsRegion room b
    → let a = align_up b.start align in
      (b.start ≤ a)
      × (a % 8 ≡ 0)
      × (a % align ≡ 0)
      × (a + size < u64_mod)
      × (fits size align b ≡ leb (a + size) (b.start + b.size))
unfolding fits
fits_room room l size align b r v =
    let (from, below, multiple, _) =
      align_up_bounds r.exponent b.start (omega (arith, r.small))
        (omega (arith, r.place, r.room_most, v)) in
    let e : add64 (align_up b.start (2 ^ r.exponent)) size
        ≡ align_up b.start (2 ^ r.exponent) + size =
      omega (arith, r.place, r.room_most, v, r.bounded) in
    let f : add64 b.start b.size ≡ b.start + b.size = omega (arith, v) in
    rw (r.power) (
      from,
      mod_eight r.exponent _ r.fine multiple,
      multiple,
      omega (arith, r.place, r.room_most, v, r.bounded),
      rw (e, f) refl,
    )

-- What is left of a region goes back, or is lost if it is shorter than 16 bytes.
give_back_lem :
    (room : ℕ) (h : Heap) (addr size : ℕ)
    → 1 ≤ room
    → IsWf room h
    → 0 < addr
    → addr % 8 ≡ 0
    → addr + size ≤ memory_end room
    → let h' = give_back h addr size in
      IsWf room h'
      × (h'.total ≡ h.total)
      × (h'.allocated ≡ h.allocated)
      × ((p : ℕ)
          → (held p h'.head ≡ inside p addr size + held p h.head)
            ⊎ ((size < min_block) × (held p h'.head ≡ held p h.head)))
unfolding give_back
give_back_lem room h addr size least wf pos e low = elim (Bool-cases (leb min_block size)) [
  | inl y ↦
      rw (y, add_free_region_aligned room h addr size least e (ground arith) low)
        ((ground arith, wf), refl, refl, λ p. inl refl)
  | inr y ↦ rw y (wf, refl, refl, λ p. inr (ground arith, refl))
]

-- The three parts of a region.
inside_parts :
    (p s a n m : ℕ)
    → s ≤ a
    → a + n ≤ s + m
    → inside p s m ≡ inside p s (a - s) + inside p a n + inside p (a + n) (s + m - (a + n))
inside_parts p s a n m h i = ground arith

-- A block of `n` bytes at `a` that the heap has given out.
pub record Taken (room : ℕ) (h : Heap) (l : Layout) (a : ℕ) (h' : Heap) : Type 0 where
  pub not_null : 0 < a
  pub eights : a % 8 ≡ 0
  pub aligned : a % l.align ≡ 0
  pub within : a + (adjust_layout l).0 ≤ memory_end room
  pub valid : IsWf room h'
  pub total : h'.total ≡ h.total
  pub counted : h'.allocated ≡ add64 h.allocated (adjust_layout l).0
  pub owned : (p : ℕ) → held p h'.head + inside p a (adjust_layout l).0 ≤ held p h.head
  pub rest :
      (p : ℕ)
      → (p + min_block ≤ a) ⊎ (a + (adjust_layout l).0 + min_block ≤ p)
      → held p h'.head ≡ held p h.head

-- No region has room for the block at an address with the alignment.
abbrev pub NoRoom : Layout → FreeBlock → Type 0
NoRoom l b =
    (a : ℕ) → b.start ≤ a → a % (adjust_layout l).1 ≡ 0 → b.start + b.size < a + (adjust_layout l).0

abbrev pub HeapOutcome : ℕ → Heap → Layout → ℕ × Heap → Type 0
HeapOutcome room h l (a, h') = ((a ≡ 0) × (h' ≡ h) × All (NoRoom l) h.head) ⊎ Taken room h l a h'

fits-NoRoom :
    (room : ℕ) (l : Layout) (b : FreeBlock)
    → Rounded room l (adjust_layout l).0 (adjust_layout l).1
    → IsRegion room b
    → fits (adjust_layout l).0 (adjust_layout l).1 b ≡ false
    → NoRoom l b
fits-NoRoom room l b r v e a from multiple =
    let (_, _, _, _, same) = fits_room room l _ _ b r v in
    let least : align_up b.start (adjust_layout l).1 ≤ a = rw (r.power) (
      align_up_least r.exponent b.start a (omega (arith, r.small))
        (omega (arith, r.place, r.room_most, v)) (rw (r.power) at multiple) from) in
    ground (arith, same, e, least)

none-NoRoom :
    (room : ℕ) (l : Layout) (bs : List FreeBlock)
    → Rounded room l (adjust_layout l).0 (adjust_layout l).1
    → All (IsRegion room) bs
    → All (λ b. fits (adjust_layout l).0 (adjust_layout l).1 b ≡ false) bs
    → All (NoRoom l) bs
none-NoRoom room l [] r v h = tt
none-NoRoom room l (b ∷ bs) r v h =
    (fits-NoRoom room l b r v.0 h.0, none-NoRoom room l bs r v.1 h.1)

taken :
    (room : ℕ) (h : Heap) (l : Layout) (region : FreeBlock) (others : List FreeBlock)
    → Rounded room l (adjust_layout l).0 (adjust_layout l).1
    → IsRegion room region
    → All (IsRegion room) others
    → ((p : ℕ) → held p h.head ≡ inside p region.start region.size + held p others)
    → fits (adjust_layout l).0 (adjust_layout l).1 region ≡ true
    → let size = (adjust_layout l).0 in
      let a = align_up region.start (adjust_layout l).1 in
      let h1 = give_back (record h { head = others }) region.start (sub64 a region.start) in
      let h2 =
        give_back h1 (add64 a size) (sub64 (add64 region.start region.size) (add64 a size)) in
      Taken room h l a (record h2 { allocated = add64 h2.allocated size })
taken room h l region others r v vs worth e =
    let size = (adjust_layout l).0 in
    let a = align_up region.start (adjust_layout l).1 in
    let (from, eights, multiple, small, same) = fits_room room l _ _ region r v in
    let space : a + size ≤ region.start + region.size = ground (arith, same, e) in
    let front : sub64 a region.start ≡ a - region.start = omega arith in
    let end : add64 a size ≡ a + size = omega arith in
    let stop : add64 region.start region.size ≡ region.start + region.size = omega arith in
    let tail : sub64 (region.start + region.size) (a + size)
        ≡ region.start + region.size - (a + size) =
      omega arith in
    rw (front, end, stop, tail)
      (let h0 = record h { head = others } in
        let (v1, t1, c1, w1) =
          give_back_lem room h0 region.start (a - region.start) (omega (arith, r.room_least)) vs v.0
            v.1 (omega arith) in
        let h1 = give_back h0 region.start (a - region.start) in
        let (v2, t2, c2, w2) =
          give_back_lem room h1 (a + size) (region.start + region.size - (a + size))
            (omega (arith, r.room_least)) v1 (omega arith) (omega (arith, r.eights))
            (omega arith) in
        record {
          not_null = omega arith;
          eights = eights;
          aligned = r.aligned a multiple;
          within = omega arith;
          valid = v2;
          total = t2 ∙ t1;
          counted = ap (λ t. add64 t size) (c2 ∙ c1);
          owned = λ p. ground (
            arith,
            worth p,
            w1 p,
            w2 p,
            inside_parts p region.start a size region.size from space,
          );
          rest = λ p out. ground (
            arith,
            worth p,
            w1 p,
            w2 p,
            inside_parts p region.start a size region.size from space,
          );
        })

alloc_cases :
    (room : ℕ) (h : Heap) (l : Layout) (o : Option (FreeBlock × List FreeBlock))
    → Rounded room l (adjust_layout l).0 (adjust_layout l).1
    → IsWf room h
    → take_fit (adjust_layout l).0 (adjust_layout l).1 h.head ≡ o
    → TakeOutcome (adjust_layout l).0 (adjust_layout l).1 h.head o
    → HeapOutcome room h l (alloc_first_fit h l)
unfolding alloc_first_fit
alloc_cases room h l none r wf e t =
    rw (alloc_first_fit, e) (inl (refl, refl, none-NoRoom room l h.head r wf t))
alloc_cases room h l (some (region, others)) r wf e (f, worth, valid) =
    rw (alloc_first_fit, e)
      (inr (taken room h l region others r (valid room wf).0 (valid room wf).1 worth f))

pub alloc_first_fit-HeapOutcome :
    (room : ℕ) (h : Heap) (l : Layout)
    → IsWf room h
    → IsRequest room l
    → HeapOutcome room h l (alloc_first_fit h l)
alloc_first_fit-HeapOutcome room h l wf request =
    alloc_cases room h l _ (adjust_layout-Rounded room l request) wf refl
      (take_fit-TakeOutcome _ _ h.head)
