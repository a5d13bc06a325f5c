-- ===== src/Paging/Flags.antt =====
-- The words that `pte_flags_from` and `virt_to_indices` compute, as sums and remainders.
use zeroxos_os.Base.{
  ℕ, ◌+◌, ◌*◌, ◌/◌, ◌%◌, ◌^◌, ◌<◌, ◌≡◌, refl, sym, ap, ◌∙◌, ◌↔◌, arith, Bool, true, false, not,
}
use zeroxos_os.Base.Bits.{bit_and-mask, bit_or-zero}
use zeroxos_os.Base.Bits.Fields.{bit_or_cut}
use zeroxos_os.Paging.{
  PageFlags, contains, write, user, write_through, cache_disable, global, exec, pte_flags_from,
  set_if, virt_to_indices,
}

abbrev pub bit : Bool → ℕ
bit true = 1
bit false = 0

bit-less : (b : Bool) → bit b < 2
bit-less true = omega arith
bit-less false = omega arith

-- A bit above all that are set is added.
set_if-add :
    (j mask : ℕ) (b : Bool) (x y : ℕ)
    → mask ≡ 2 ^ j
    → x ≡ y
    → y < 2 ^ j
    → set_if b mask x ≡ y + bit b * mask
set_if-add j mask false x y m e l = omega arith
set_if-add j mask true x y m e l =
    bit_or_cut j 0 1 y 0 x mask (omega arith) (omega arith) l (omega arith)
    ∙ omega (arith, bit_or-zero y, m)

-- The word of flags is the sum of the present bit, one bit for each of the five flags that is
-- contained, and the no-execute bit if `EXEC` is not.
pub pte_flags_from_lem :
    (flags : PageFlags)
    → pte_flags_from flags
      ≡ 1
        + bit (contains flags write) * 2
        + bit (contains flags user) * 4
        + bit (contains flags write_through) * 8
        + bit (contains flags cache_disable) * 16
        + bit (contains flags global) * 256
        + bit (not (contains flags exec)) * 2 ^ 63
unfolding pte_flags_from
pte_flags_from_lem flags =
    let h1 = bit-less (contains flags write) in
    let h2 = bit-less (contains flags user) in
    let h3 = bit-less (contains flags write_through) in
    let h4 = bit-less (contains flags cache_disable) in
    let h5 = bit-less (contains flags global) in
    set_if-add 63 _ (not (contains flags exec)) _ _ (omega arith)
      (set_if-add 8 _ (contains flags global) _ _ (omega arith)
        (set_if-add 4 _ (contains flags cache_disable) _ _ (omega arith)
          (set_if-add 3 _ (contains flags write_through) _ _ (omega arith)
            (set_if-add 2 _ (contains flags user) _ _ (omega arith)
              (set_if-add 1 _ (contains flags write) 1 1 (omega arith) refl (omega arith))
              (omega arith))
            (omega arith))
          (omega arith))
        (omega arith))
      (omega arith)

pub virt_to_indices_lem :
    (v : ℕ)
    → virt_to_indices v
      ≡ (v / 2 ^ 39 % 2 ^ 9, v / 2 ^ 30 % 2 ^ 9, v / 2 ^ 21 % 2 ^ 9, v / 2 ^ 12 % 2 ^ 9)
unfolding virt_to_indices
virt_to_indices_lem v =
    rw
      (
        bit_and-mask 9 (v / 2 ^ 39),
        bit_and-mask 9 (v / 2 ^ 30),
        bit_and-mask 9 (v / 2 ^ 21),
        bit_and-mask 9 (v / 2 ^ 12),
      )
      refl

-- The index of the page, from those of the four tables.
page_number : ℕ × ℕ × ℕ × ℕ → ℕ
page_number (a, b, c, d) = ((a * 512 + b) * 512 + c) * 512 + d

page_number_lem : (v : ℕ) → page_number (virt_to_indices v) ≡ v / 2 ^ 12 % 2 ^ 36
unfolding page_number
page_number_lem v = rw (virt_to_indices_lem v) (omega arith)

-- Two addresses have the same four indices exactly if they lie in the same 4 KiB page of the
-- 48-bit space.
pub virt_to_indices_iff :
    (v w : ℕ)
    → (virt_to_indices v ≡ virt_to_indices w) ↔ (v / 2 ^ 12 % 2 ^ 36 ≡ w / 2 ^ 12 % 2 ^ 36)
virt_to_indices_iff v w = (
  λ e. sym (page_number_lem v) ∙ ap page_number e ∙ page_number_lem w,
  λ e.
      let a : v / 2 ^ 39 % 2 ^ 9 ≡ w / 2 ^ 39 % 2 ^ 9 = omega arith in
      let b : v / 2 ^ 30 % 2 ^ 9 ≡ w / 2 ^ 30 % 2 ^ 9 = omega arith in
      let c : v / 2 ^ 21 % 2 ^ 9 ≡ w / 2 ^ 21 % 2 ^ 9 = omega arith in
      let d : v / 2 ^ 12 % 2 ^ 9 ≡ w / 2 ^ 12 % 2 ^ 9 = omega arith in
      rw (virt_to_indices_lem v, virt_to_indices_lem w, a, b, c, d) refl,
)
