-- ===== src/MySql.antt =====
-- crates/rustium-mysql/src/source.rs: the binary log.
pub mod Query
pub mod Stream
