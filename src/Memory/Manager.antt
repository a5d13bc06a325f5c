-- ===== src/Memory/Manager.antt =====
-- `MemoryManager` of crates/zerox-kernel/src/memory.rs, with the five static counters of the file
-- in a record of their own. Sizes in bytes multiply with wrap-around, as in the release profile.
pub mod Accounts
pub mod Regions
mod Tests
use zeroxos_os.Base.{
  ℕ, ◌+◌, ◌-◌, ◌*◌, ◌/◌, ◌%◌, Bool, true, false, Option, none, some, List, [], ◌∷◌, if◌then◌else◌,
  ◌==◌, ltb, add64, sub64, u64_mod, Run, ok, panic,
}
use zeroxos_os.Memory.Buddy
use zeroxos_os.Memory.Buddy.{BuddyAllocator, max_order}

abbrev pub page_size : ℕ
page_size = 4096

abbrev pub huge_page_2m : ℕ
huge_page_2m = 2 * 1024 * 1024

pub record Statics : Type 0 where
  pub total_memory : ℕ
  pub free_memory : ℕ
  pub pages_allocated : ℕ
  pub cow_faults : ℕ
  pub huge_pages : ℕ

pub record MemoryManager : Type 0 where
  pub buddy : BuddyAllocator
  pub numa_nodes : ℕ
  pub cow_faults : ℕ

pub new : MemoryManager
new = record { buddy = Buddy.new; numa_nodes = 1; cow_faults = 0 }

-- Without a registered region the manager gives itself 256 MB of pages.
abbrev pub fake_pages : ℕ
fake_pages = 256 * 1024 * 1024 / page_size

pub init : MemoryManager → Statics → MemoryManager × Statics
init m g =
    let b = if m.buddy.total_pages == 0 then Buddy.add_region m.buddy 0 fake_pages else m.buddy in
    let bytes = b.total_pages * page_size % u64_mod in
    (record m { buddy = b }, record g { total_memory = bytes; free_memory = bytes })

pub register_region : MemoryManager → ℕ → ℕ → MemoryManager
register_region m base len =
    if ltb 0 (len / page_size)
    then record m { buddy = Buddy.add_region m.buddy (base / page_size) (len / page_size) }
    else m

pub alloc_page : MemoryManager → Statics → Run (Option ℕ × MemoryManager × Statics)
alloc_page m g = elim (Buddy.alloc m.buddy g.pages_allocated 0) [
  | panic ↦ panic
  | ok (none, b, allocated) ↦
      ok (none, record m { buddy = b }, record g { pages_allocated = allocated })
  | ok (some f, b, allocated) ↦ ok (
    some f,
    record m { buddy = b },
    record g { pages_allocated = allocated; free_memory = sub64 g.free_memory page_size },
  )
]

pub alloc_huge_page : MemoryManager → Statics → Run (Option ℕ × MemoryManager × Statics)
alloc_huge_page m g = elim (Buddy.alloc m.buddy g.pages_allocated max_order) [
  | panic ↦ panic
  | ok (none, b, allocated) ↦
      ok (none, record m { buddy = b }, record g { pages_allocated = allocated })
  | ok (some f, b, allocated) ↦ ok (
    some f,
    record m { buddy = b },
    record g {
      pages_allocated = allocated;
      free_memory = sub64 g.free_memory huge_page_2m;
      huge_pages = add64 g.huge_pages 1;
    },
  )
]

pub free_page : MemoryManager → Statics → ℕ → Run (MemoryManager × Statics)
free_page m g frame = elim (Buddy.free m.buddy g.pages_allocated frame 0) [
  | panic ↦ panic
  | ok (b, allocated) ↦ ok (
    record m { buddy = b },
    record g { pages_allocated = allocated; free_memory = add64 g.free_memory page_size },
  )
]

pub free_huge_page : MemoryManager → Statics → ℕ → Run (MemoryManager × Statics)
free_huge_page m g frame = elim (Buddy.free m.buddy g.pages_allocated frame max_order) [
  | panic ↦ panic
  | ok (b, allocated) ↦ ok (
    record m { buddy = b },
    record g {
      pages_allocated = allocated;
      free_memory = add64 g.free_memory huge_page_2m;
      huge_pages = sub64 g.huge_pages 1;
    },
  )
]

-- The frame of the copy, or the source itself where no page is left.
pub cow_fault : MemoryManager → Statics → ℕ → Run (ℕ × MemoryManager × Statics)
cow_fault m g src =
    elim (alloc_page (record m { cow_faults = add64 m.cow_faults 1 })
      (record g { cow_faults = add64 g.cow_faults 1 })) [
        | panic ↦ panic
        | ok (none, m', g') ↦ ok (src, m', g')
        | ok (some f, m', g') ↦ ok (f, m', g')
      ]

pub record MemoryStats : Type 0 where
  pub total_bytes : ℕ
  pub free_bytes : ℕ
  pub pages_allocated : ℕ
  pub cow_faults : ℕ
  pub huge_pages : ℕ

pub stats : Statics → MemoryStats
stats g = record {
  total_bytes = g.total_memory;
  free_bytes = g.free_memory;
  pages_allocated = g.pages_allocated;
  cow_faults = g.cow_faults;
  huge_pages = g.huge_pages;
}
