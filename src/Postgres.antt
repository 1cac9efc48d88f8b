-- ===== src/Postgres.antt =====
-- crates/rustium-postgresql: the incremental snapshot controller.
pub mod Signal
pub mod Snapshot
pub mod Controller
pub mod Window
pub mod Stop
pub mod Chunk
pub mod Handle
pub mod Invariant
pub mod Stream
pub mod Resume
pub mod History
