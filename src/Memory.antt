-- ===== src/Memory.antt =====
-- crates/zerox-kernel/src/memory.rs: the buddy allocator, the slab allocator, the manager.
pub mod Buddy
pub mod Slab
pub mod Manager
