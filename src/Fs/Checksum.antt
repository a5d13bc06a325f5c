-- ===== src/Fs/Checksum.antt =====
-- `crc32` of crates/zerox-fs/src/checksum.rs. Bytes are numbers below 256.
use zeroxos_os.Base.{ℕ, zero, suc, ◌/◌, bit_and, bit_xor, List, [], ◌∷◌, if◌then◌else◌, ◌==◌}

-- One round of the inner loop.
pub crc_bit : ℕ → ℕ
crc_bit crc = if bit_and crc 1 == 0 then crc / 2 else bit_xor (crc / 2) 0xEDB88320

pub crc_bits : ℕ → ℕ → ℕ
crc_bits zero crc = crc
crc_bits (suc n) crc = crc_bits n (crc_bit crc)

pub crc_bytes : List ℕ → ℕ → ℕ
crc_bytes [] crc = crc
crc_bytes (b ∷ bs) crc = crc_bytes bs (crc_bits 8 (bit_xor crc b))

-- `!crc` flips 32 bits.
unfoldable pub crc32 : List ℕ → ℕ
unfolding crc_bytes crc_bits crc_bit
crc32 bytes = bit_xor (crc_bytes bytes 0xFFFFFFFF) 0xFFFFFFFF
