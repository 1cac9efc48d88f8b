-- ===== src/Runtime.antt =====
-- crates/rustium-core/src/runtime.rs: the pipeline from a source to a sink.
pub mod World
pub mod Retry
pub mod Flush
pub mod Consume
pub mod Shutdown
pub mod Run
pub mod Ends
pub mod Total
pub mod Durable
