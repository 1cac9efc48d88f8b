-- ===== src/Formats.antt =====
-- crates/rustium-format-avro, rustium-format-protobuf and rustium-format-json: what is modelled of
-- the wire formats.
pub mod Names
pub mod Numbers
pub mod Json
