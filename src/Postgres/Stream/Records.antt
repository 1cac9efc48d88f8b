-- ===== src/Postgres/Stream/Records.antt =====
-- crates/rustium-postgresql/src/source.rs: the record of a changed row.
use rustium.Common.{ℕ, Bool, false, not, ◌||◌, Option, none, some, ◌++◌, if◌then◌else◌, Str, codes}
use rustium.Common.Assoc.{find, insert, TableKey, same_table}
use rustium.Core.Error.{Result, ok, ◌>>=◌}
use rustium.Core.Position.{SourcePosition}
use rustium.Core.Event.{Row, SourceMetadata, TransactionMetadata, ChangeEvent, SourceRecord}
use rustium.Sources.Fill.{fill_unavailable}
use rustium.Postgres.Controller.{TableSchema}
use rustium.Postgres.Stream.{StreamingState, id_of, next_serial, should_skip, transaction_metadata}
use rustium.Postgres.Stream.Events.{
  Parts, Stream, is_signal_table, with_keys, known, relation_attribute, time_of, Change, mapped,
  data_of, position_at,
}

abbrev pub Step : Type 0
Step = Result (Option SourceRecord × StreamingState)

module _ (parts : Parts) (stream : Stream) where
  unfoldable pub source_metadata : Str → Str → Bool → ℕ → SourceMetadata
  source_metadata schema table snapshot relation_oid = record {
    connector = codes "postgresql";
    connector_name = stream.connector_name;
    database = stream.database;
    schema = some schema;
    table = some table;
    snapshot = snapshot;
    version = parts.connector_version;
    attributes = relation_attribute relation_oid;
  }

  abbrev converted : TableSchema → Option parts.RowData → Option Row
  converted schema = mapped (λ row. parts.convert_row row schema)

  -- The event of a change that is not skipped.
  unfoldable pub event_of :
      Str
      → Str
      → Change parts.RowData
      → TableSchema
      → SourcePosition
      → ℕ
      → Option TransactionMetadata
      → Option ℕ
      → ChangeEvent
  unfolding fill_unavailable source_metadata
  event_of schema_name table_name change schema position serial transaction source_time =
      let before = converted schema change.old_data in
      let after =
        mapped (fill_unavailable schema.event_schema.fields before)
          (converted schema change.new_data) in
      record {
        id =
            parts.event_id stream.connector_name stream.database position
              (stream.database ++ codes "." ++ schema_name ++ codes "." ++ table_name) serial;
        source = source_metadata schema_name table_name false change.relation_oid;
        position = position;
        transaction = transaction;
        operation = change.operation;
        before = before;
        after = after;
        schema = schema.event_schema;
        source_time = source_time;
        observed_time = parts.utc_now;
      }

  -- A change of a known table: it is numbered, and counted in its transaction unless it is skipped.
  unfoldable pub record_of :
      ℕ
      → TableKey
      → Change parts.RowData
      → TableSchema
      → StreamingState
      → Option SourceRecord × StreamingState
  unfolding next_serial should_skip transaction_metadata event_of
  record_of lsn (schema_name, table_name) change schema s =
      let (event_serial, numbered) = next_serial lsn s in
      let position = position_at lsn none (id_of s.transaction) s.xmin event_serial in
      let (skipped, left) = should_skip position numbered in
      let (metadata, counted) = transaction_metadata (schema_name, table_name) left in
      if skipped then (none, left) else (
        some (
            data_of (
              event_of schema_name table_name change schema position event_serial metadata
                (time_of counted.transaction))),
        counted,
      )

  unfoldable pub data_record : ℕ → TableKey → Change parts.RowData → StreamingState → Step
  unfolding is_signal_table with_keys find insert same_table record_of
  data_record lsn (schema_name, table_name) change s =
      if not (parts.includes schema_name table_name)
        || is_signal_table stream.signal_data_collection schema_name table_name
      then ok (none, s)
      else (do
        current ← known (find same_table (schema_name, table_name) s.schemas)
        let schema = with_keys change.key_columns current
        ok (
            record_of lsn (schema_name, table_name) change schema
              (record s {
                schemas = insert same_table (schema_name, table_name) schema s.schemas;
              })))
