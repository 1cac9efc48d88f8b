-- ===== src/Sources.antt =====
-- What the streaming sources share.
pub mod Resume
pub mod Fill
