-- ===== src/Postgres/Stream/Past.antt =====
-- crates/rustium-postgresql/src/source.rs: changes that stand before the checkpoint in the log.
use Prim.Native.Nat.{compare, Ordering}
use rustium.Common.{ℕ, ◌<◌, Bool, true, false, ◌||◌, none, some, ◌≡◌, refl, arith, if◌then◌else◌}
use rustium.Common.Assoc.{TableKey, add_one}
use rustium.Common.Ord.{nat_ord, pair_ord}
use rustium.Core.Position.{
  PostgresPosition, postgres, postgres_key, is_after, eq_position, is_at_or_before,
}
use rustium.Sources.Resume.{skip_resumed}
use rustium.Postgres.Controller.{TableSchema}
use rustium.Postgres.Stream.{StreamingState, is_at, id_of, next_serial, should_skip}
use rustium.Postgres.Stream.Events.{Parts, Stream, Change}
use rustium.Postgres.Stream.Records.{record_of}

or_true : (b : Bool) → (b || true) ≡ true
or_true true = refl
or_true false = refl

earlier : (a b : ℕ) → a < b → compare b a ≡ Ordering.gt
earlier a b h = ground arith

before_resume :
    (p r : PostgresPosition) → p.lsn < r.lsn → is_at_or_before (postgres p) (postgres r) ≡ true
unfolding is_at_or_before is_after postgres_key
before_resume p r h = rw (earlier p.lsn r.lsn h) (or_true (eq_position (postgres p) (postgres r)))

abbrev the_position : ℕ → StreamingState → PostgresPosition
the_position lsn s = record {
  lsn = lsn;
  commit_lsn = none;
  transaction_id = id_of s.transaction;
  xmin = s.xmin;
  event_serial = if is_at s.previous_lsn lsn then add_one s.event_serial else 1;
  snapshot = false;
}

module _ (parts : Parts) (stream : Stream) where
  -- A change whose log sequence number is before that of the checkpoint gives no record, whatever
  -- transaction it is of, and is not counted in that transaction.
  record_of_past :
      (lsn : ℕ) (key : TableKey) (change : Change parts.RowData) (schema : TableSchema)
      (s : StreamingState) (resume : PostgresPosition)
      → s.resume_position ≡ some (postgres resume)
      → lsn < resume.lsn
      → (let (emitted, after) = record_of parts stream lsn key change schema s in
          (emitted ≡ none) × (after.transaction ≡ s.transaction))
  unfolding record_of should_skip skip_resumed next_serial
  record_of_past lsn key change schema s resume h k =
      rw (h, before_resume (the_position lsn s) resume k) (refl, refl)
