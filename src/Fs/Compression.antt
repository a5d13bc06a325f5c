-- ===== src/Fs/Compression.antt =====
-- crates/zerox-fs/src/compression.rs: a block is a tag byte, the length of the data in four bytes,
-- the low one first, and the data.
pub mod Format
use zeroxos_os.Base.{
  ℕ, ◌+◌, ◌*◌, ◌/◌, ◌%◌, Bool, true, false, Option, none, some, List, [], ◌∷◌, if◌then◌else◌, ltb,
  length, take, drop, get_or, u32_mod,
}

pub data Algorithm : Type 0 where
  stored lz4 zstd : Algorithm

pub default_algorithm : Algorithm
default_algorithm = lz4

pub tag : Algorithm → ℕ
tag stored = 0
tag lz4 = 1
tag zstd = 2

pub compress : List ℕ → Algorithm → List ℕ
compress src algo =
    let len = length src % u32_mod in
    tag algo ∷ len % 256 ∷ len / 256 % 256 ∷ len / 0x10000 % 256 ∷ len / 0x1000000 % 256 ∷ src

-- `u32::from_le_bytes([src[1], src[2], src[3], src[4]])`, for a block of five bytes or more.
pub stored_length : List ℕ → ℕ
stored_length src =
    get_or src 1 0 + 0x100 * get_or src 2 0 + 0x10000 * get_or src 3 0 + 0x1000000 * get_or src 4 0

pub decompress : List ℕ → Option (List ℕ)
decompress src =
    if ltb (length src) 5
    then none
    else let len = stored_length src in
      if ltb (length src) (5 + len) then none else some (take len (drop 5 src))
