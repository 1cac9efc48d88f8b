-- ===== src/Config.antt =====
-- crates/rustium-config/src: what is read of a configuration.
pub mod Properties
pub mod Statements
pub mod Transformations
