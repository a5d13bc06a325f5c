-- ===== src/Interrupts/Gates.antt =====
-- What a gate holds: the address of its handler, and the byte of its type.
use zeroxos_os.Base.{ℕ, ◌+◌, ◌*◌, ◌/◌, ◌%◌, ◌^◌, ◌<◌, bit_and, bit_or, ◌≡◌, ◌∙◌, arith}
use zeroxos_os.Base.Bits.{bit_and-mask, bit_or-zero}
use zeroxos_os.Base.Bits.Fields.{bit_or_above, bit_or_cut, zero-bit_or}
use zeroxos_os.Interrupts.{new, offset}

-- The offset of a gate, put together from its three parts, is the 64-bit address of the handler
-- that it was made for, whatever the other fields are.
pub offset-new :
    (handler selector ist gate dpl : ℕ)
    → handler < 2 ^ 64
    → offset (new handler selector ist gate dpl) ≡ handler
unfolding offset new
offset-new handler selector ist gate dpl h =
    let low = bit_and-mask 16 handler in
    let mid = bit_and-mask 16 (handler / 2 ^ 16) in
    let high = bit_and-mask 32 (handler / 2 ^ 32) in
    bit_or_above 32 (handler / 2 ^ 32) (handler % 2 ^ 32) _ _
      (bit_or_above 16 (handler / 2 ^ 16 % 2 ^ 16) (handler % 2 ^ 16) _ _ (omega (arith, low))
          (omega (arith, mid)) (omega arith)
        ∙ omega arith)
      (omega (arith, high)) (omega arith)
    ∙ omega arith

pub type_attr-new :
    (handler selector ist gate dpl : ℕ)
    → (new handler selector ist gate dpl).type_attr ≡ 2 ^ 7 + dpl % 4 * 2 ^ 5 + gate % 16
unfolding new
type_attr-new handler selector ist gate dpl =
    let d = bit_and-mask 2 dpl in
    let g = bit_and-mask 4 gate in
    let head : bit_or 0x80 (bit_and dpl 0x3 * 2 ^ 5 % 2 ^ 8) ≡ 0x80 + dpl % 4 * 2 ^ 5 =
      bit_or_cut 7 1 0 0 (dpl % 4 * 2 ^ 5) 0x80 _ (omega arith) (omega (arith, d)) (omega arith)
        (omega arith)
      ∙ omega (arith, zero-bit_or (dpl % 4 * 2 ^ 5)) in
    bit_or_cut 4 (8 + 2 * (dpl % 4)) 0 0 (gate % 16) _ _ (omega (arith, head)) (omega (arith, g))
      (omega arith) (omega arith)
    ∙ omega (arith, zero-bit_or (gate % 16), bit_or-zero (8 + 2 * (dpl % 4)))
