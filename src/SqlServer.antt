-- ===== src/SqlServer.antt =====
-- crates/rustium-sqlserver/src/source.rs: change data capture.
pub mod Lsn
pub mod Stream
pub mod Change
pub mod Batch
