-- ===== src/Postgres/Stream/Events.antt =====
-- crates/rustium-postgresql/src/source.rs: the events of the replication stream, and the parts of a record.
--
-- The events are those of the crate `pg_walstream`, with the fields that the code reads. The
-- conversion of a row's text and the hash of an event's identity are `Parts`, as are the tests of
-- the configuration; a theorem holds whatever they answer.
use rustium.Common.{
  ℕ, Bool, false, ◌&&◌, ◌||◌, ◌==◌, Option, none, some, List, [], ◌∷◌, map, if◌then◌else◌, Str,
  str_eq, codes,
}
use rustium.Common.Text.{split_once}
use rustium.Core.Error.{Result, ok, err, source}
use rustium.Core.Json.{Json, natural}
use rustium.Core.Position.{SourcePosition, postgres}
use rustium.Core.Event.{Row, Operation, FieldSchema, ChangeEvent, SourceRecord, RecordBoundary}
use rustium.Postgres.Controller.{TableSchema}
use rustium.Postgres.Stream.{ActiveTransaction}

-- `pg_walstream`'s events; a row of it is its own text, `RowData`.
pub data WalEventType (RowData : Type 0) : Type 0 where
  begin : ℕ → ℕ → WalEventType RowData
  insert_row : Str → Str → ℕ → RowData → WalEventType RowData
  update_row : Str → Str → ℕ → Option RowData → RowData → List Str → WalEventType RowData
  delete_row : Str → Str → ℕ → RowData → List Str → WalEventType RowData
  commit : ℕ → ℕ → WalEventType RowData
  stream_start : ℕ → WalEventType RowData
  stream_commit : ℕ → ℕ → ℕ → ℕ → WalEventType RowData
  stream_abort rollback_prepared : WalEventType RowData
  truncate : List Str → WalEventType RowData
  message : ℕ → Str → List ℕ → WalEventType RowData
  relation data_type origin stream_stop begin_prepare prepare commit_prepared stream_prepare :
      WalEventType RowData

pub record Parts : Type 1 where
  pub RowData : Type 0
  pub convert_row : RowData → TableSchema → Row
  pub event_id : Str → Str → SourcePosition → Str → ℕ → Str
  pub transform_event : TableSchema → ChangeEvent → ChangeEvent
  pub includes : Str → Str → Bool
  pub includes_message_prefix : Str → Bool
  pub utc_now : ℕ
  pub connector_version : Str

pub record Stream : Type 0 where
  pub connector_name : Str
  pub database : Str
  pub signal_data_collection : Option Str

abbrev names_signal : Option (Str × Str) → Str → Str → Bool
names_signal none schema table = false
names_signal (some (signal_schema, signal_table)) schema table =
    str_eq signal_schema schema && str_eq signal_table table

abbrev split_name : Option Str → Option (Str × Str)
split_name none = none
split_name (some collection) = split_once b'.' collection

unfoldable pub is_signal_table : Option Str → Str → Str → Bool
unfolding split_once
is_signal_table collection = names_signal (split_name collection)

abbrev contains : List Str → Str → Bool
contains [] name = false
contains (n ∷ names) name = str_eq n name || contains names name

-- The key columns that the stream names replace those of the schema.
unfoldable pub with_keys : Option (List Str) → TableSchema → TableSchema
with_keys none schema = schema
with_keys (some key_columns) schema = record schema {
  event_schema = record schema.event_schema {
    fields =
        map {A = FieldSchema} {B = FieldSchema}
          (λ f. record f { primary_key = contains key_columns f.name }) schema.event_schema.fields;
  };
}

abbrev pub known : Option TableSchema → Result TableSchema
known none = err (source "received an event for unknown table; restart after schema refresh")
known (some schema) = ok schema

abbrev pub relation_attribute : ℕ → List (Str × Json)
relation_attribute relation_oid =
    if relation_oid == 0 then [] else (codes "relation_oid", natural relation_oid) ∷ []

abbrev pub time_of : Option ActiveTransaction → Option ℕ
time_of none = none
time_of (some t) = some t.source_time

-- What the operation of an event carries: its rows, and the columns of its key.
pub record Change (RowData : Type 0) : Type 0 where
  pub relation_oid : ℕ
  pub operation : Operation
  pub old_data : Option RowData
  pub new_data : Option RowData
  pub key_columns : Option (List Str)

abbrev pub mapped : {A B : Type 0} → (A → B) → Option A → Option B
mapped f none = none
mapped f (some a) = some (f a)

abbrev pub data_of : ChangeEvent → SourceRecord
data_of event = record {
  event = some event;
  position = event.position;
  boundary = RecordBoundary.data_record;
  connector_state = none;
  signal_acknowledgements = [];
}

abbrev pub position_at : ℕ → Option ℕ → Option ℕ → Option ℕ → ℕ → SourcePosition
position_at lsn commit_lsn transaction_id xmin serial = postgres (record {
  lsn = lsn;
  commit_lsn = commit_lsn;
  transaction_id = transaction_id;
  xmin = xmin;
  event_serial = serial;
  snapshot = false;
})
