-- ===== src/Postgres/Stream/Window.antt =====
-- crates/rustium-postgresql/src/source.rs: the records of a closed window.
use rustium.Common.{ℕ, true, none, some, List, [], ◌∷◌, ◌++◌, codes}
use rustium.Core.Json.{text}
use rustium.Core.Position.{SourcePosition, postgres}
use rustium.Core.Event.{Row, Operation, ChangeEvent, SourceRecord}
use rustium.Postgres.Controller.{TableSchema, ClosedWindow}
use rustium.Postgres.Stream.{StreamingState, next_serial}
use rustium.Postgres.Stream.Events.{Parts, Stream, data_of}
use rustium.Postgres.Stream.Records.{source_metadata}

module _ (parts : Parts) (stream : Stream) where
  -- The rows of a closed window, as reads of an incremental snapshot.
  unfoldable pub snapshot_event : TableSchema → Row → SourcePosition → ℕ → ChangeEvent
  unfolding source_metadata
  snapshot_event schema after position serial =
      let source = source_metadata parts stream schema.schema schema.table true 0 in
      parts.transform_event schema (record {
        id =
            parts.event_id stream.connector_name stream.database position
              (stream.database ++ codes "." ++ schema.schema ++ codes "." ++ schema.table) serial;
        source = record source {
          attributes =
              source.attributes
              ++ ((codes "rustium.snapshot.kind", text (codes "incremental")) ∷ []);
        };
        position = position;
        transaction = none;
        operation = Operation.read;
        before = none;
        after = some after;
        schema = schema.event_schema;
        source_time = none;
        observed_time = parts.utc_now;
      })

  unfoldable pub snapshot_records :
      ℕ → TableSchema → List Row → StreamingState → List SourceRecord × StreamingState
  unfolding next_serial snapshot_event
  snapshot_records lsn schema [] s = ([], s)
  snapshot_records lsn schema (row ∷ rows) s =
      let (event_serial, numbered) = next_serial lsn s in
      let position = postgres (record {
        lsn = lsn;
        commit_lsn = none;
        transaction_id = none;
        xmin = none;
        event_serial = event_serial;
        snapshot = true;
      }) in
      let (records, left) = snapshot_records lsn schema rows numbered in
      (data_of (snapshot_event schema row position event_serial) ∷ records, left)

  unfoldable pub incremental_snapshot_records :
      ℕ → ClosedWindow → StreamingState → List SourceRecord × StreamingState
  unfolding snapshot_records
  incremental_snapshot_records lsn closed s = snapshot_records lsn closed.schema closed.rows s
