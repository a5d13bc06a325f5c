-- ===== src/Ipc.antt =====
-- crates/zerox-kernel/src/ipc.rs: fast messages, bounded channels and the IPC core. Each lock is
-- held for a whole call, so a call is one step; a `Mutex<Vec<_>>` is its list.
pub mod Message
pub mod Channel
pub mod Core
mod Tests
