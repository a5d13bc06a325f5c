-- ===== src/Memory/Manager/Regions.antt =====
-- `register_region` in bytes: which pages of a boot-time memory region become free.
use zeroxos_os.Base.{
  ℕ, ◌+◌, ◌*◌, ◌/◌, ◌%◌, ◌≤◌, ◌<◌, ◌≡◌, ◌≢◌, ◌∙◌, inl, inr, Bool-cases, Bool, true, ◌&&◌, arith,
  if◌then◌else◌, leb, ltb, u64_mod, ==_iff, ◌==◌,
}
use zeroxos_os.Memory.Buddy.Alloc.{IsWf, held}
use zeroxos_os.Memory.Buddy.Region.{new-IsWf, add_region_lem, add_region_total}
use zeroxos_os.Memory.Manager.{
  new, MemoryManager, page_size, register_region, init, Statics, fake_pages,
}

-- Page `p` lies within the bytes from `base` to `base + len`.
abbrev pub within : ℕ → ℕ → ℕ → Bool
within base len p = leb base (p * page_size) && leb ((p + 1) * page_size) (base + len)

-- Of a region that starts on a page boundary and ends within the address space, `register_region`
-- makes the pages that lie wholly within it free, once each, and no other; a well-formed allocator
-- stays so.
pub register_region_aligned :
    (m : MemoryManager) (base len : ℕ)
    → IsWf m.buddy
    → base % page_size ≡ 0
    → base + len < u64_mod
    → let m' = register_region m base len in
      IsWf m'.buddy
      × ((p : ℕ) → held p m'.buddy ≡ held p m.buddy + (if within base len p then 1 else 0))
unfolding register_region
register_region_aligned m base len wf at h = elim (Bool-cases (ltb 0 (len / page_size))) [
  | inl e ↦
      rw (e, register_region)
        (let (valid, _, _, pages) =
            add_region_lem m.buddy (base / page_size) (len / page_size) wf (omega arith) in
          (valid, λ p. pages p ∙ ground arith))
  | inr e ↦ rw (e, register_region) (wf, λ p. ground arith)
]

-- Of a region of at least a page that starts inside a page, in the address space,
-- `register_region` makes the page that holds its first byte free too, though that page begins
-- before the region.
pub register_region_unaligned :
    (m : MemoryManager) (base len : ℕ)
    → IsWf m.buddy
    → base % page_size ≢ 0
    → page_size ≤ len
    → base + len < u64_mod
    → let p = base / page_size in
      (held p (register_region m base len).buddy ≡ held p m.buddy + 1) × (p * page_size < base)
unfolding register_region
register_region_unaligned m base len wf off big h =
    let (valid, _, _, pages) =
      add_region_lem m.buddy (base / page_size) (len / page_size) wf (omega arith) in
    let some_page : ltb 0 (len / page_size) ≡ true = ground arith in
    rw some_page (pages (base / page_size) ∙ ground arith, omega arith)

-- After `init` the allocator has pages.
pub init_pages : (m : MemoryManager) (g : Statics) → (init m g).0.buddy.total_pages ≢ 0
unfolding init
init_pages m g = elim (Bool-cases (m.buddy.total_pages == 0)) [
  | inl e ↦
      rw (e, init)
        (λ h.
          omega
            (arith, (==_iff m.buddy.total_pages 0).0 e, h, add_region_total m.buddy 0 fake_pages))
  | inr e ↦ rw (e, init) (λ h. ground (arith, e, h))
]

-- So is the allocator of a new manager.
pub new_manager-IsWf : IsWf new.buddy × (new.buddy.free_pages ≡ new.buddy.total_pages)
unfolding new
new_manager-IsWf = new-IsWf
