-- ===== src/Core.antt =====
-- crates/rustium-core: the event model, positions and their order, errors.
pub mod Json
pub mod Error
pub mod Position
pub mod Event
