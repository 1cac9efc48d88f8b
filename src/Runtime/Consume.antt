-- ===== src/Runtime/Consume.antt =====
-- crates/rustium-core/src/runtime.rs: `consume_record`.
pub mod Order
use rustium.Common.{
  ℕ, Bool, true, false, not, ◌&&◌, Option, none, some, List, ◌++◌, leb, if◌then◌else◌, length,
  is_empty, codes, str_eq, get,
}
use rustium.Core.Error.{Result, ok, err, invariant}
use rustium.Core.Json.{Json, text}
use rustium.Core.Position.{SourcePosition, eq_position, is_after}
use rustium.Core.Event.{
  ConnectorIdentity, ChangeEvent, SourceRecord, EncodedEvent, RecordBoundary, data_record,
  transaction_commit, snapshot_complete, heartbeat,
}
use rustium.Runtime.World.{
  RuntimeConfig, ConnectorState, snapshotting, streaming, Env, World, done, fail, M, ◌>>◌, modify,
}
use rustium.Runtime.Flush.{transition, increment_failed_events, flush_batch}

-- The guard on the order of positions within a batch.
unfoldable pub moved_backwards : Option SourcePosition → SourcePosition → Bool
moved_backwards none position = false
moved_backwards (some previous) position =
    not (is_after position previous) && not (eq_position position previous)

abbrev pub is_incremental : Option Json → Bool
is_incremental (some (text kind)) = str_eq kind (codes "incremental")
is_incremental _ = false

-- An event of an initial snapshot, and not of an incremental one.
unfoldable pub is_initial_snapshot : ChangeEvent → Bool
is_initial_snapshot event =
    event.source.snapshot
    && not (is_incremental (get (codes "rustium.snapshot.kind") event.source.attributes))

abbrev pub is_snapshotting : ConnectorState → Bool
is_snapshotting snapshotting = true
is_snapshotting _ = false

unfoldable pub extend_batch : ChangeEvent → Result (List EncodedEvent) → M (Unit {0})
unfolding increment_failed_events
extend_batch event (ok encoded) w = (
  done tt,
  record w {
    pending = record w.pending {
      encoded = w.pending.encoded ++ encoded;
      latest_event_timing =
          some (record { source_time = event.source_time; observed_time = event.observed_time });
    };
  },
)
extend_batch event (err e) w = (fail e, increment_failed_events 1 w)

module _ (env : Env) where
  unfoldable pub note_snapshot : ChangeEvent → World → World
  unfolding is_initial_snapshot transition
  note_snapshot event w =
      if is_initial_snapshot event && not (is_snapshotting w.status.state)
      then transition env snapshotting none w
      else w

  unfoldable pub encode_event : Option ChangeEvent → M (Unit {0})
  unfolding note_snapshot extend_batch
  encode_event none w = (done tt, w)
  encode_event (some event) w = extend_batch event (env.encode_batch event) (note_snapshot event w)

  unfoldable pub complete_snapshot : World → World
  unfolding transition
  complete_snapshot w = transition env streaming none (record w { snapshot_completed = true })

-- The position, the connector's state and the acknowledgements that came with the record.
unfoldable pub absorb_record : SourceRecord → World → World
absorb_record r w = record w {
  pending = record w.pending {
    highest_position = some r.position;
    signal_acknowledgements = w.pending.signal_acknowledgements ++ r.signal_acknowledgements;
  };
  connector_state = elim r.connector_state [ none ↦ w.connector_state | some state ↦ some state ];
}

module _ (env : Env) (config : RuntimeConfig) (identity : ConnectorIdentity) (fuel : ℕ) where
  abbrev pub flush_if : Bool → M (Unit {0})
  flush_if true w = flush_batch env config identity fuel w
  flush_if false w = (done tt, w)

  -- A snapshot's end and a commit flush; data flushes when the batch is full, and a heartbeat when
  -- the batch is empty.
  unfoldable pub at_boundary : RecordBoundary → M (Unit {0})
  unfolding complete_snapshot
  at_boundary snapshot_complete w = flush_batch env config identity fuel (complete_snapshot env w)
  at_boundary transaction_commit w = flush_batch env config identity fuel w
  at_boundary data_record w = flush_if (leb config.max_batch_size (length w.pending.encoded)) w
  at_boundary heartbeat w = flush_if (is_empty w.pending.encoded) w

  unfoldable pub consume_record : SourceRecord → M (Unit {0})
  unfolding moved_backwards encode_event absorb_record at_boundary
  consume_record r w =
      if moved_backwards w.pending.highest_position r.position
      then (fail (invariant "source position moved backwards"), w)
      else (do encode_event env r.event; modify (absorb_record r); at_boundary r.boundary) w
