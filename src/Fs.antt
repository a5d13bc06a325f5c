-- ===== src/Fs.antt =====
-- crates/zerox-fs: the block format, the journal and the copy-on-write nodes of the filesystem.
pub mod Checksum
pub mod Compression
pub mod Journal
pub mod Superblock
pub mod Cow
mod Tests
