-- ===== src/Paging.antt =====
-- crates/hal/src/arch/x86_64/paging.rs, and `PageFlags` of crates/hal/src/memory.rs: the page tables
-- of x86_64. A table is known by the physical address of its frame; `table_at` of `PhysMapper` gives
-- the table that lives there, so that the memory is a function of the frame and the index. The
-- `FrameAllocator` is a parameter: it works on a state of its own and on the memory, whose frame
-- it zeroes.
pub mod Entries
pub mod Flags
pub mod Tree
pub mod Grow
pub mod Map
pub mod Unmap
mod Tests
use zeroxos_os.Base.{
  ◌||◌, ℕ, zero, suc, ◌+◌, ◌-◌, ◌*◌, ◌/◌, ◌%◌, ◌^◌, bit_and, bit_or, Bool, true, false, ◌&&◌, not,
  Option, none, some, List, [], ◌∷◌, if◌then◌else◌, ◌==◌, add64,
}

-- `PageFlags` is the word that the struct holds.
abbrev pub PageFlags : Type 0
PageFlags = ℕ

abbrev pub read : PageFlags
read = 1

abbrev pub write : PageFlags
write = 2

abbrev pub exec : PageFlags
exec = 4

abbrev pub user : PageFlags
user = 8

abbrev pub write_through : PageFlags
write_through = 16

abbrev pub cache_disable : PageFlags
cache_disable = 32

abbrev pub global : PageFlags
global = 64

pub contains : PageFlags → PageFlags → Bool
contains flags other = bit_and flags other == other

abbrev pub pte_present : ℕ
pte_present = 0x1

abbrev pub pte_writable : ℕ
pte_writable = 0x2

abbrev pub pte_user : ℕ
pte_user = 0x4

abbrev pub pte_write_through : ℕ
pte_write_through = 0x8

abbrev pub pte_cache_disable : ℕ
pte_cache_disable = 0x10

abbrev pub pte_huge : ℕ
pte_huge = 0x80

abbrev pub pte_global : ℕ
pte_global = 0x100

abbrev pub pte_no_execute : ℕ
pte_no_execute = 0x8000000000000000

abbrev pub pte_addr_mask : ℕ
pte_addr_mask = 0xFFFFFFFFFF000

-- `if condition { bits |= bit; }`
abbrev pub set_if : Bool → ℕ → ℕ → ℕ
set_if condition bit bits = if condition then bit_or bits bit else bits

pub pte_flags_from : PageFlags → ℕ
pte_flags_from flags =
    let b1 = set_if (contains flags write) pte_writable pte_present in
    let b2 = set_if (contains flags user) pte_user b1 in
    let b3 = set_if (contains flags write_through) pte_write_through b2 in
    let b4 = set_if (contains flags cache_disable) pte_cache_disable b3 in
    let b5 = set_if (contains flags global) pte_global b4 in
    set_if (not (contains flags exec)) pte_no_execute b5

-- `x >> n`
abbrev pub shift_right : ℕ → ℕ → ℕ
shift_right x n = x / 2 ^ n

pub virt_to_indices : ℕ → ℕ × ℕ × ℕ × ℕ
virt_to_indices virt = (
  bit_and (shift_right virt 39) 0x1FF,
  bit_and (shift_right virt 30) 0x1FF,
  bit_and (shift_right virt 21) 0x1FF,
  bit_and (shift_right virt 12) 0x1FF,
)

pub page_offset : ℕ → ℕ
page_offset virt = bit_and virt 0xFFF

-- `PageTable` at each frame: `t frame i` is `entries[i]` of the table there.
abbrev pub Tables : Type 0
Tables = ℕ → ℕ → ℕ

abbrev pub store : Tables → ℕ → ℕ → ℕ → Tables
store t frame i entry p j = if p == frame && j == i then entry else t p j

-- `alloc_zeroed`, which the map needs; a call that fails changes nothing.
pub record FrameAllocator (S : Type 0) : Type 0 where
  pub alloc_zeroed : S → Tables → Option (ℕ × (S × Tables))

pub data MapError : Type 0 where
  out_of_frames : MapError
  already_mapped : MapError
  huge_page_present : MapError

-- `Ok(())` or `Err(error)`, with what the allocator and the memory have become.
pub data Attempt (S : Type 0) : Type 0 where
  ok : S → Tables → Attempt S
  err : MapError → S → Tables → Attempt S

abbrev pub present : ℕ → Bool
present entry = not (bit_and entry pte_present == 0)

abbrev pub huge : ℕ → Bool
huge entry = not (bit_and entry pte_huge == 0)

abbrev pub address : ℕ → ℕ
address entry = bit_and entry pte_addr_mask

module _ {S : Type 0} (frames : FrameAllocator S) where
  -- The indices of the levels that are left, and the index of the leaf behind them.
  pub map_from : List ℕ → ℕ → ℕ → ℕ → S → Tables → Attempt S
  map_from [] last table leaf s t =
      if present (t table last) then err already_mapped s t else ok s (store t table last leaf)
  map_from (i ∷ is) last table leaf s t =
      let entry = t table i in
      let next = map_from is last (address entry) leaf s t in
      if present entry
      then (if huge entry then err huge_page_present s t else next)
      else elim (frames.alloc_zeroed s t) [
        | none ↦ err out_of_frames s t
        | some (new, (s', t')) ↦
            map_from is last new leaf s'
              (store t' table i (bit_or (bit_or (bit_or new pte_present) pte_writable) pte_user))
      ]

  pub map_page_in : ℕ → ℕ → ℕ → PageFlags → S → Tables → Attempt S
  map_page_in root virt phys flags s t =
      let (a, b, c, d) = virt_to_indices virt in
      map_from (a ∷ b ∷ c ∷ []) d root (bit_or (address phys) (pte_flags_from flags)) s t

pub translate_from : ℕ → List ℕ → ℕ → ℕ → ℕ → Tables → Option ℕ
translate_from level [] last virt table t =
    if present (t table last)
    then some (bit_or (address (t table last)) (page_offset virt))
    else none
translate_from level (i ∷ is) last virt table t =
    let entry = t table i in
    let next = translate_from (level + 1) is last virt (address entry) t in
    if present entry
    then (if huge entry
        then some (add64 (address entry) (bit_and virt (2 ^ (39 - 9 * level) - 1)))
        else next)
    else none

pub translate_in : ℕ → ℕ → Tables → Option ℕ
translate_in root virt t =
    let (a, b, c, d) = virt_to_indices virt in translate_from 0 (a ∷ b ∷ c ∷ []) d virt root t

pub unmap_from : List ℕ → ℕ → ℕ → Tables → Option ℕ × Tables
unmap_from [] last table t =
    if present (t table last)
    then (some (address (t table last)), store t table last 0)
    else (none, t)
unmap_from (i ∷ is) last table t =
    let entry = t table i in
    let next = unmap_from is last (address entry) t in
    if not (present entry) || huge entry then (none, t) else next

pub unmap_page_in : ℕ → ℕ → Tables → Option ℕ × Tables
unmap_page_in root virt t =
    let (a, b, c, d) = virt_to_indices virt in unmap_from (a ∷ b ∷ c ∷ []) d root t
