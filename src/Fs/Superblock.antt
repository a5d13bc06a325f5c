-- ===== src/Fs/Superblock.antt =====
-- crates/zerox-fs/src/superblock.rs. The bytes of a number are its digits to the base 256, the low
-- one first.
use zeroxos_os.Base.{
  ℕ, zero, suc, ◌/◌, ◌%◌, ◌≡◌, Bool, true, false, ◌&&◌, List, [], ◌∷◌, ◌++◌, ◌==◌, ==_self,
}
use zeroxos_os.Fs.Checksum.{crc32}

-- `*b"ZEROXFS1"`
abbrev pub magic_number : List ℕ
magic_number = 90 ∷ 69 ∷ 82 ∷ 79 ∷ 88 ∷ 70 ∷ 83 ∷ 49 ∷ []

pub record Superblock : Type 0 where
  pub magic : List ℕ
  pub version : ℕ
  pub block_size : ℕ
  pub total_blocks : ℕ
  pub free_blocks : ℕ
  pub root_inode : ℕ
  pub journal_start : ℕ
  pub journal_blocks : ℕ
  pub checksum : ℕ

-- `to_le_bytes` of a number of `n` bytes.
pub to_le_bytes : ℕ → ℕ → List ℕ
to_le_bytes zero w = []
to_le_bytes (suc n) w = w % 256 ∷ to_le_bytes n (w / 256)

pub bytes_no_checksum : Superblock → List ℕ
bytes_no_checksum sb =
    sb.magic
    ++ to_le_bytes 4 sb.version
    ++ to_le_bytes 4 sb.block_size
    ++ to_le_bytes 8 sb.total_blocks
    ++ to_le_bytes 8 sb.free_blocks
    ++ to_le_bytes 8 sb.root_inode
    ++ to_le_bytes 8 sb.journal_start
    ++ to_le_bytes 8 sb.journal_blocks

pub compute_checksum : Superblock → ℕ
compute_checksum sb = crc32 (bytes_no_checksum sb)

pub new : ℕ → ℕ → Superblock
new block_size total_blocks =
    let sb : Superblock = record {
      magic = magic_number;
      version = 1;
      block_size = block_size;
      total_blocks = total_blocks;
      free_blocks = total_blocks;
      root_inode = 1;
      journal_start = 1;
      journal_blocks = 1024;
      checksum = 0;
    } in
    record sb { checksum = compute_checksum sb }

pub same_bytes : List ℕ → List ℕ → Bool
same_bytes [] [] = true
same_bytes [] (b ∷ bs) = false
same_bytes (a ∷ xs) [] = false
same_bytes (a ∷ xs) (b ∷ bs) = a == b && same_bytes xs bs

pub verify : Superblock → Bool
verify sb = same_bytes sb.magic magic_number && sb.checksum == compute_checksum sb

-- A new superblock verifies: the checksum does not cover itself.
new-verify : (block_size total_blocks : ℕ) → verify (new block_size total_blocks) ≡ true
unfolding verify new same_bytes compute_checksum bytes_no_checksum
new-verify block_size total_blocks = ==_self _
