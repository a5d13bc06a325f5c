-- ===== src/Paging/Entries.antt =====
-- What an entry of a page table holds: the address and the flags share a word without touching.
use native.Mathlib.Nat.{pow-suc}
use zeroxos_os.Base.{
  ℕ, zero, suc, ◌+◌, ◌*◌, ◌/◌, ◌%◌, ◌^◌, ◌<◌, bit_and, bit_or, ◌≡◌, refl, ◌∙◌, arith, Bool, true,
  false, not,
}
use zeroxos_os.Base.Bits.{bit_and-mask, bit_and-zero, bit_or-zero, bit_or-low}
use zeroxos_os.Base.Bits.Fields.{bit_and_cut, bit_or_cut, bit_and-high_mask, zero-bit_or}
use zeroxos_os.Paging.{
  address, present, huge, PageFlags, pte_flags_from, set_if, contains, write, user, write_through,
  cache_disable, global, exec, pte_addr_mask,
}

-- The address of an entry: the bits 12 to 51.
pub address_lem : (x : ℕ) → address x ≡ x % 2 ^ 52 / 2 ^ 12 * 2 ^ 12
address_lem x =
    bit_and_cut 52 (x / 2 ^ 52) 0 (x % 2 ^ 52) pte_addr_mask x pte_addr_mask (omega arith)
      (omega arith) (omega arith) (omega arith)
    ∙ omega (arith, bit_and-zero (x / 2 ^ 52), bit_and-high_mask 40 12 (x % 2 ^ 52) (omega arith))

pub page_offset_lem : (x : ℕ) → bit_and x 0xFFF ≡ x % 2 ^ 12
page_offset_lem x = bit_and-mask 12 x

-- A frame: its address is a multiple of the page size below 2 ^ 52.
unfoldable pub IsFrame : ℕ → Type 0
IsFrame x = (m : ℕ) × (x ≡ m * 2 ^ 12) × (m < 2 ^ 40)

pub address-IsFrame : (x : ℕ) → IsFrame (address x)
unfolding IsFrame
address-IsFrame x = (x % 2 ^ 52 / 2 ^ 12, address_lem x, omega arith)

pub address-frame : (x : ℕ) → IsFrame x → address x ≡ x
unfolding IsFrame
address-frame x (m, e, l) = omega (arith, address_lem x)

bit_or-less : (k a b : ℕ) → a < 2 ^ k → b < 2 ^ k → bit_or a b < 2 ^ k
bit_or-less zero a b h i =
    let a0 : a ≡ 0 = omega arith in let b0 : b ≡ 0 = omega arith in rw (a0, b0) (omega arith)
bit_or-less (suc k) a b h i = ground (
  arith,
  bit_or-low a b,
  pow-suc 2 k,
  bit_or-less k (a / 2) (b / 2) (omega (arith, pow-suc 2 k)) (omega (arith, pow-suc 2 k)),
)

-- The flags of an entry: bits below 12, the present bit set, and the bit 63.
pub IsFlags : ℕ → Type 0
IsFlags x =
    (top : ℕ) × (low : ℕ) × (x ≡ top * 2 ^ 63 + low) × (top < 2) × (low < 2 ^ 12) × (low % 2 ≡ 1)

bit_or-odd : (a b : ℕ) → a % 2 ≡ 1 → bit_or a b % 2 ≡ 1
bit_or-odd a b h = ground (arith, bit_or-low a b)

-- Low flags, one by one.
IsLow : ℕ → Type 0
IsLow x = (x < 2 ^ 12) × (x % 2 ≡ 1)

set_if-IsLow : (b : Bool) (mask x : ℕ) → mask < 2 ^ 12 → IsLow x → IsLow (set_if b mask x)
unfolding IsLow
set_if-IsLow false mask x h p = p
set_if-IsLow true mask x h (l, o) = (bit_or-less 12 x mask l h, bit_or-odd x mask o)

set_top-IsFlags : (b : Bool) (x : ℕ) → IsLow x → IsFlags (set_if b 0x8000000000000000 x)
unfolding IsLow IsFlags
set_top-IsFlags false x (l, o) = (0, x, omega arith, omega arith, l, o)
set_top-IsFlags true x (l, o) = (
  1,
  x,
  bit_or_cut 63 0 1 x 0 x 0x8000000000000000 (omega arith) (omega arith) (omega arith) (omega arith)
      ∙ omega (arith, bit_or-zero x),
  omega arith,
  l,
  o,
)

pub pte_flags_from-IsFlags : (flags : PageFlags) → IsFlags (pte_flags_from flags)
unfolding pte_flags_from IsLow
pte_flags_from-IsFlags flags =
    let b0 : IsLow 1 = (omega arith, refl) in
    let b1 = set_if-IsLow (contains flags write) 0x2 1 (omega arith) b0 in
    let b2 = set_if-IsLow (contains flags user) 0x4 _ (omega arith) b1 in
    let b3 = set_if-IsLow (contains flags write_through) 0x8 _ (omega arith) b2 in
    let b4 = set_if-IsLow (contains flags cache_disable) 0x10 _ (omega arith) b3 in
    let b5 = set_if-IsLow (contains flags global) 0x100 _ (omega arith) b4 in
    set_top-IsFlags (not (contains flags exec)) _ b5

odd-present : (entry : ℕ) → entry % 2 ≡ 1 → present entry ≡ true
odd-present entry o = rw (bit_and-mask 1 entry, o) refl

-- Flags over a frame.
pub flags_over :
    (frame flags : ℕ)
    → IsFrame frame
    → IsFlags flags
    → (present (bit_or frame flags) ≡ true) × (address (bit_or frame flags) ≡ frame)
unfolding IsFrame IsFlags
flags_over frame flags (m, e, l) (top, low, f, t, k, o) =
    let word : bit_or frame flags ≡ bit_or m (top * 2 ^ 51) * 2 ^ 12 + bit_or 0 low =
      bit_or_cut 12 m (top * 2 ^ 51) 0 low frame flags (omega arith) (omega arith) (omega arith)
        k in
    let high : bit_or m (top * 2 ^ 51) ≡ bit_or 0 (top * 2 ^ 11) * 2 ^ 40 + bit_or m 0 =
      bit_or_cut 40 0 (top * 2 ^ 11) m 0 m (top * 2 ^ 51) (omega arith) (omega arith) l
        (omega arith) in
    (
      odd-present _ (omega (arith, bit_or-low frame flags)),
      address_lem _ ∙ omega (arith, word, high, zero-bit_or low, bit_or-zero m, e),
    )

pub table_entry_lem :
    (frame : ℕ)
    → IsFrame frame
    → let entry = bit_or (bit_or (bit_or frame 1) 2) 4 in
      (present entry ≡ true) × (huge entry ≡ false) × (address entry ≡ frame)
unfolding IsFrame
table_entry_lem frame (m, e, l) =
    let w1 : bit_or frame 1 ≡ m * 2 ^ 12 + 1 =
      bit_or_cut 12 m 0 0 1 frame 1 (omega arith) (omega arith) (omega arith) (omega arith)
      ∙ omega (arith, bit_or-zero m) in
    let w2 : bit_or (bit_or frame 1) 2 ≡ m * 2 ^ 12 + 3 =
      bit_or_cut 12 m 0 1 2 _ 2 w1 (omega arith) (omega arith) (omega arith)
      ∙ omega (arith, bit_or-zero m) in
    let w3 : bit_or (bit_or (bit_or frame 1) 2) 4 ≡ m * 2 ^ 12 + 7 =
      bit_or_cut 12 m 0 3 4 _ 4 w2 (omega arith) (omega arith) (omega arith)
      ∙ omega (arith, bit_or-zero m) in
    let h : bit_and (m * 2 ^ 12 + 7) 0x80 ≡ 0 =
      bit_and_cut 12 m 0 7 0x80 (m * 2 ^ 12 + 7) 0x80 refl (omega arith) (omega arith) (omega arith)
      ∙ omega (arith, bit_and-zero m) in
    (odd-present _ (omega arith), rw (w3, h) refl, address_lem _ ∙ rw w3 (omega arith))
