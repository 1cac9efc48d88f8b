-- ===== src/MySql/Stream/Rows.antt =====
-- crates/rustium-mysql/src/source.rs: `convert_rows`, the records of a rows event.
use rustium.Common.{
  ℕ, Bool, false, not, Option, none, some, List, [], ◌∷◌, ◌++◌, if◌then◌else◌, Str, codes,
}
use rustium.Common.Assoc.{find, insert, count, add_one, TableKey, same_table}
use rustium.Common.Text.{decimal}
use rustium.Core.Error.{Result, ok, err, source, ◌>>=◌}
use rustium.Core.Json.{natural}
use rustium.Core.Position.{SourcePosition}
use rustium.Core.Event.{
  Row, Operation, EventSchema, SourceMetadata, TransactionMetadata, ChangeEvent, SourceRecord,
  RecordBoundary,
}
use rustium.Sources.Fill.{fill_unavailable}
use rustium.MySql.Stream.{
  ActiveTransaction, StreamingState, same_id, next_serial, should_skip, mysql_position, id_of,
  joined, fallback_id, or_time,
}

pub record Parts : Type 1 where
  pub BinlogRow : Type 0
  pub convert_binlog_row : BinlogRow → EventSchema → Option Row → Row
  pub event_id : Str → Str → SourcePosition → Str → ℕ → Str
  pub transform_event : EventSchema → ChangeEvent → ChangeEvent
  pub is_business_table : Str → Str → Bool
  pub connector_version : Str
  pub utc_now : ℕ

-- A rows event: its table, the operation of its kind, and its rows before and after.
pub record RowsEvent (BinlogRow : Type 0) : Type 0 where
  pub table_id : ℕ
  pub database : Str
  pub table : Str
  pub operation : Operation
  pub rows : List (Result (Option BinlogRow × Option BinlogRow))

-- What every row of an event shares.
pub record Context : Type 0 where
  pub connector_name : Str
  pub database : Str
  pub table : Str
  pub operation : Operation
  pub schema : EventSchema
  pub anchor : ℕ
  pub source_server_id : ℕ
  pub source_time : Option ℕ

abbrev pub Step : Type 0
Step = Result (List SourceRecord × StreamingState)

abbrev mapped : {A B : Type 0} → (A → B) → Option A → Option B
mapped f none = none
mapped f (some a) = some (f a)

abbrev pub counted : TableKey → ActiveTransaction → ActiveTransaction
counted k t = record t {
  total_order = add_one t.total_order;
  collection_order = count same_table k t.collection_order;
}

abbrev pub counted_in : TableKey → Option ActiveTransaction → Option ActiveTransaction
counted_in k none = none
counted_in k (some t) = some (counted k t)

abbrev pub metadata_of : TableKey → Option ActiveTransaction → Option TransactionMetadata
metadata_of k none = none
metadata_of k (some t) = some (record {
  id = t.id;
  total_order = some t.total_order;
  collection_order = find same_table k t.collection_order;
})

abbrev time_of : Option ActiveTransaction → Option ℕ
time_of none = none
time_of (some t) = t.source_time

abbrev pub or_start : Option ℕ → ℕ → ℕ
or_start none start = start
or_start (some anchor) start = anchor

abbrev ignores_dml : Option ActiveTransaction → Bool
ignores_dml none = false
ignores_dml (some t) = t.ignore_dml

abbrev known : Option EventSchema → Result EventSchema
known none = err (source "received an event for unknown MySQL table")
known (some schema) = ok schema

module _ (parts : Parts) where
  unfoldable pub source_metadata : Context → SourceMetadata
  source_metadata c = record {
    connector = codes "mysql";
    connector_name = c.connector_name;
    database = c.database;
    schema = none;
    table = some c.table;
    snapshot = false;
    version = parts.connector_version;
    attributes = (codes "server_id", natural c.source_server_id) ∷ [];
  }

  -- The images of a row: each takes from the other what it lacks.
  unfoldable pub images_of :
      EventSchema → Option parts.BinlogRow × Option parts.BinlogRow → Option Row × Option Row
  unfolding fill_unavailable
  images_of schema (before_row, after_row) =
      let before = mapped (λ row. parts.convert_binlog_row row schema none) before_row in
      let after = mapped (λ row. parts.convert_binlog_row row schema before) after_row in
      let filled_before = mapped (fill_unavailable schema.fields none) before in
      (filled_before, mapped (fill_unavailable schema.fields filled_before) after)

  unfoldable pub event_of :
      Context
      → Option Row × Option Row
      → SourcePosition
      → ℕ
      → Option TransactionMetadata
      → Option ℕ
      → ChangeEvent
  unfolding source_metadata
  event_of c (before, after) position serial transaction active =
      parts.transform_event c.schema (record {
        id =
            parts.event_id c.connector_name c.database position (c.database ++ codes "." ++ c.table)
              serial;
        source = source_metadata c;
        position = position;
        transaction = transaction;
        operation = c.operation;
        before = before;
        after = after;
        schema = c.schema;
        source_time = or_time active c.source_time;
        observed_time = parts.utc_now;
      })

  -- A row is numbered and counted in its transaction, also where its record is skipped.
  unfoldable pub row_record :
      Context → Option Row × Option Row → StreamingState → List SourceRecord × StreamingState
  unfolding next_serial mysql_position should_skip find insert same_table event_of
  row_record c images s =
      let (event_serial, numbered) = next_serial c.anchor s in
      let position =
        mysql_position s.current_filename c.anchor (id_of s.transaction) c.source_server_id
          event_serial false in
      let transaction = counted_in (c.database, c.table) s.transaction in
      let (skipped, left) = should_skip position (record numbered { transaction = transaction }) in
      let event =
        event_of c images position event_serial (metadata_of (c.database, c.table) transaction)
          (time_of transaction) in
      (
        if skipped
            then []
            else record {
              event = some event;
              position = event.position;
              boundary = RecordBoundary.data_record;
              connector_state = none;
              signal_acknowledgements = [];
            }
              ∷ [],
        left,
      )

  abbrev pub after : List SourceRecord → Step → Step
  after records (err e) = err e
  after records (ok (more, s)) = ok (records ++ more, s)

  unfoldable pub rows_records :
      Context
      → List (Result (Option parts.BinlogRow × Option parts.BinlogRow))
      → StreamingState
      → Step
  unfolding images_of row_record
  rows_records c [] s = ok ([], s)
  rows_records c (pair ∷ rows) s = do
    row ← pair
    let (records, left) = row_record c (images_of c.schema row) s
    after records (rows_records c rows left)

  unfoldable pub convert_rows :
      RowsEvent parts.BinlogRow → ℕ → ℕ → Option ℕ → Str → StreamingState → Step
  unfolding find same_table joined decimal rows_records
  convert_rows rows event_start source_server_id source_time connector_name s =
      if not (parts.is_business_table rows.database rows.table)
      then ok ([], s)
      else if ignores_dml s.transaction
      then ok ([], s)
      else (do
        schema ← known (find same_table (rows.database, rows.table) s.schemas)
        let anchor = or_start (find same_id rows.table_id s.table_anchors) event_start
        rows_records
            (record {
              connector_name = connector_name;
              database = rows.database;
              table = rows.table;
              operation = rows.operation;
              schema = schema;
              anchor = anchor;
              source_server_id = source_server_id;
              source_time = source_time;
            })
            rows.rows
            (record s {
              transaction =
                  some (joined s.transaction (fallback_id s.current_filename anchor) source_time);
            }))
