-- ===== src/Segments/Fields.antt =====
-- What the descriptor of the task state holds.
use zeroxos_os.Base.{ℕ, ◌+◌, ◌*◌, ◌/◌, ◌%◌, ◌^◌, ◌<◌, ◌≡◌, arith}
use zeroxos_os.Base.Bits.{bit_and-mask}
use zeroxos_os.Base.Bits.Fields.{bit_or_above}
use zeroxos_os.Segments.{TssDescriptor, tss_descriptor}

-- The fields of the lower half, from the bottom.
tss-low :
    (base limit : ℕ)
    → limit < 2 ^ 32
    → (tss_descriptor base limit).low
      ≡ base / 2 ^ 24 % 2 ^ 8 * 2 ^ 56
        + (limit / 2 ^ 16 % 2 ^ 4 * 2 ^ 48
            + (1 * 2 ^ 47 + (9 * 2 ^ 40 + (base % 2 ^ 24 * 2 ^ 16 + limit % 2 ^ 16))))
unfolding tss_descriptor
tss-low base limit h =
    let m1 = bit_and-mask 16 limit in
    let m2 = bit_and-mask 24 base in
    let m3 = bit_and-mask 4 (limit / 2 ^ 16) in
    let m4 = bit_and-mask 8 (base / 2 ^ 24) in
    bit_or_above 56 (base / 2 ^ 24 % 2 ^ 8) _ _ _
      (bit_or_above 48 (limit / 2 ^ 16 % 2 ^ 4) _ _ _
        (bit_or_above 47 1 _ _ _
          (bit_or_above 40 9 _ _ _
            (bit_or_above 16 (base % 2 ^ 24) (limit % 2 ^ 16) _ _ m1 (omega (arith, m2))
              (omega arith))
            (omega arith) (omega arith))
          (omega arith) (omega arith))
        (omega (arith, m3)) (omega arith))
      (omega (arith, m4)) (omega arith)

tss-high : (base limit : ℕ) → (tss_descriptor base limit).high ≡ base / 2 ^ 32 % 2 ^ 32
unfolding tss_descriptor
tss-high base limit = bit_and-mask 32 (base / 2 ^ 32)

-- What the processor reads from the two halves.
pub tss_base : TssDescriptor → ℕ
tss_base d = d.low / 2 ^ 16 % 2 ^ 24 + d.low / 2 ^ 56 % 2 ^ 8 * 2 ^ 24 + d.high * 2 ^ 32

pub tss_limit : TssDescriptor → ℕ
tss_limit d = d.low % 2 ^ 16 + d.low / 2 ^ 48 % 2 ^ 4 * 2 ^ 16

-- From the two halves of the descriptor of the task state, of any 64-bit base and 32-bit limit,
-- the fields of the processor read back the base and the lower 20 bits of the limit, and the
-- access byte is that of a present task state of 64 bits.
pub tss_descriptor-fields :
    (base limit : ℕ)
    → base < 2 ^ 64
    → limit < 2 ^ 32
    → (tss_base (tss_descriptor base limit) ≡ base)
      × (tss_limit (tss_descriptor base limit) ≡ limit % 2 ^ 20)
      × ((tss_descriptor base limit).low / 2 ^ 40 % 2 ^ 8 ≡ 0x89)
unfolding tss_base tss_limit
tss_descriptor-fields base limit h l =
    let low = tss-low base limit l in
    let high = tss-high base limit in
    (omega (arith, low, high), omega (arith, low), omega (arith, low))
