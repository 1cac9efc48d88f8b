-- ===== src/Postgres/Stream.antt =====
-- crates/rustium-postgresql/src/source.rs: the state of a running stream.
--
-- A log sequence number is the `u64` that the replication protocol sends with an event.
pub mod Events
pub mod Records
pub mod Message
pub mod Convert
pub mod Window
pub mod Refresh
pub mod Past
use rustium.Common.{
  ℕ, ℕ_discrete, ◌+◌, max, Bool, true, false, not, ◌&&◌, ◌||◌, ◌==◌, Option, none, some, List, [],
  ◌∷◌, map, if◌then◌else◌, Str, str_eq, codes, min, ◌-◌, ◌^◌,
}
use rustium.Common.Assoc.{find, insert, count, add_one, TableKey, same_table}
use rustium.Common.Text.{decimal}
use rustium.Core.Position.{SourcePosition, postgres}
use rustium.Core.Event.{
  FieldSchema, EventSchema, TransactionMetadata, SourceRecord, transaction_commit,
}
use rustium.Postgres.Controller.{TableSchema, PostgresColumnType}
use mathlib.Core.Bool.{decide}
use rustium.Sources.Resume.{skip_resumed}

pub record ActiveTransaction : Type 0 where
  pub id : ℕ
  pub source_time : ℕ
  pub total_order : ℕ
  pub collection_order : List (TableKey × ℕ)

pub record StreamingState : Type 0 where
  pub schemas : List (TableKey × TableSchema)
  pub schema_dirty : Bool
  pub transaction : Option ActiveTransaction
  pub xmin : Option ℕ
  pub previous_lsn : Option ℕ
  pub event_serial : ℕ
  pub resume_position : Option SourcePosition

unfoldable pub new : List (TableKey × TableSchema) → Option SourcePosition → Bool → StreamingState
new schemas resume_position schema_dirty = record {
  schemas = schemas;
  schema_dirty = schema_dirty;
  transaction = none;
  xmin = none;
  previous_lsn = none;
  event_serial = 0;
  resume_position = resume_position;
}

abbrev pub begun : ℕ → ℕ → ActiveTransaction
begun id source_time = record {
  id = id;
  source_time = source_time;
  total_order = 0;
  collection_order = [];
}

abbrev pub or_begun : Option ActiveTransaction → ActiveTransaction → ActiveTransaction
or_begun none begin = begin
or_begun (some active) begin = active

abbrev pub id_of : Option ActiveTransaction → Option ℕ
id_of none = none
id_of (some t) = some t.id

abbrev pub is_at : Option ℕ → ℕ → Bool
is_at none lsn = false
is_at (some previous) lsn = previous == lsn

-- The serial number, which the state then has.
unfoldable pub next_serial : ℕ → StreamingState → ℕ × StreamingState
next_serial lsn s =
    let serial = if is_at s.previous_lsn lsn then add_one s.event_serial else 1 in
    (serial, record s { previous_lsn = some lsn; event_serial = serial })

unfoldable pub should_skip : SourcePosition → StreamingState → Bool × StreamingState
unfolding skip_resumed
should_skip position s =
    let (skipped, left) = skip_resumed s.resume_position position in
    (skipped, record s { resume_position = left })

abbrev pub counted : TableKey → ActiveTransaction → ActiveTransaction
counted k t = record t {
  total_order = add_one t.total_order;
  collection_order = count same_table k t.collection_order;
}

abbrev pub counted_in : TableKey → Option ActiveTransaction → Option ActiveTransaction
counted_in k none = none
counted_in k (some t) = some (counted k t)

abbrev pub metadata_of : TableKey → Option ActiveTransaction → Option TransactionMetadata
metadata_of k none = none
metadata_of k (some t) = some (record {
  id = decimal t.id;
  total_order = some t.total_order;
  collection_order = find same_table k t.collection_order;
})

-- The event's place in its transaction.
unfoldable pub transaction_metadata :
    TableKey → StreamingState → Option TransactionMetadata × StreamingState
unfolding find insert same_table decimal
transaction_metadata k s =
    let t = counted_in k s.transaction in (metadata_of k t, record s { transaction = t })

unfoldable pub commit_record : ℕ → ℕ → StreamingState → Option SourceRecord × StreamingState
unfolding next_serial should_skip
commit_record commit_lsn end_lsn s =
    let (event_serial, numbered) = next_serial end_lsn s in
    let position = postgres (record {
      lsn = end_lsn;
      commit_lsn = some (max commit_lsn end_lsn);
      transaction_id = id_of s.transaction;
      xmin = s.xmin;
      event_serial = event_serial;
      snapshot = false;
    }) in
    let (skipped, left) = should_skip position (record numbered { transaction = none }) in
    (
      if skipped
          then none
          else some (record {
            event = none;
            position = position;
            boundary = transaction_commit;
            connector_state = none;
            signal_acknowledgements = [];
          }),
      left,
    )

-- `==` of the parts of a schema that a refresh compares; its version is not one of them.
unfoldable pub SchemaParts-discrete :
    Discrete (List FieldSchema × (List PostgresColumnType × List Str))
unfolding ℕ_discrete
SchemaParts-discrete = hlevel (ℕ_discrete)

abbrev pub parts_of : TableSchema → List FieldSchema × (List PostgresColumnType × List Str)
parts_of s = (s.event_schema.fields, (s.column_types, s.opaque_columns))

unfoldable pub same_parts : TableSchema → TableSchema → Bool
unfolding SchemaParts-discrete decide
same_parts s t = decide (SchemaParts-discrete (parts_of s) (parts_of t))

abbrev pub with_version : ℕ → TableSchema → TableSchema
with_version version s = record s { event_schema = record s.event_schema { version = version } }

-- The refreshed schema under the version that it takes, and whether it is another one. A version
-- is a `u32` that stays at its greatest value.
unfoldable pub versioned : Option TableSchema → TableSchema → TableSchema × Bool
unfolding same_parts
versioned none refreshed = (refreshed, true)
versioned (some current) refreshed =
    if same_parts current refreshed
    then (with_version current.event_schema.version refreshed, false)
    else (with_version (min (current.event_schema.version + 1) (2 ^ 32 - 1)) refreshed, true)

unfoldable pub refresh_schema : TableSchema → StreamingState → Option ℕ × StreamingState
unfolding versioned find insert same_table
refresh_schema refreshed s =
    let key : TableKey = (refreshed.schema, refreshed.table) in
    let (kept, changed) = versioned (find same_table key s.schemas) refreshed in
    (
      if changed then some kept.event_schema.version else none,
      record s {
        schemas = insert same_table key kept s.schemas;
        schema_dirty = s.schema_dirty || changed;
      },
    )
