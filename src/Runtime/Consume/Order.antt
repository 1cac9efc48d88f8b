-- ===== src/Runtime/Consume/Order.antt =====
-- crates/rustium-core/src/runtime.rs: the guard of `consume_record` on the order of positions.
use rustium.Common.{◌≡◌, not, some, arith}
use rustium.Core.Position.{SourcePosition, eq_position, eq_position_iff, is_at_or_before}
use rustium.Runtime.Consume.{moved_backwards}

eq_position_comm : (p q : SourcePosition) → eq_position p q ≡ eq_position q p
eq_position_comm p q = ground (arith, eq_position_iff p q, eq_position_iff q p)

-- The guard on a record's position refuses it exactly where the last position of the batch is not
-- at or before it.
moved_backwards-eq : (q p : SourcePosition) → moved_backwards (some q) p ≡ not (is_at_or_before q p)
unfolding moved_backwards is_at_or_before
moved_backwards-eq q p = rw (eq_position_comm q p) (ground arith)
