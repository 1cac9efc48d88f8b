-- ===== src/Postgres/History.antt =====
-- crates/rustium-postgresql/src/schema_history.rs: the connector's state in a checkpoint, and the
-- schema of a table from its relation message.
--
-- The map of schemas is the list of its entries. `serde_json` is a library: `HistoryCodec` is its
-- text of the state, and `HistoryCodecLaws` that it reads what it wrote.
pub mod RoundTrip
pub mod Relation
pub mod Match
use rustium.Common.{
  ℕ, ◌≡◌, Bool, true, false, not, ◌&&◌, ◌||◌, Option, none, some, List, [], ◌∷◌, ◌++◌, Str, codes,
  leb, ltb, ◌==◌, str_eq, length, is_empty, if◌then◌else◌, map,
}
use rustium.Common.Assoc.{TableKey, same_table, find, insert}
use rustium.Common.Ord.{gt, list_ord, pair_ord, nat_ord}
use rustium.Core.Error.{Result, ok, err, state, invariant, ◌>>=◌}
use rustium.Core.Json.{Json}
use rustium.Core.Event.{ConnectorStateEnvelope, FieldSchema, EventSchema}
use rustium.Postgres.Controller.{TableSchema, PostgresColumnType, IncrementalSnapshotProgress}

abbrev pub postgres_schema_history_format : Str
postgres_schema_history_format = codes "rustium.postgresql.schema-history"

abbrev pub postgres_schema_history_version : ℕ
postgres_schema_history_version = 6

abbrev pub Schemas : Type 0
Schemas = List (TableKey × TableSchema)

pub record PostgresConnectorState : Type 0 where
  pub schemas : Schemas
  pub incremental_snapshot : Option IncrementalSnapshotProgress
  pub completed_signal_ids : List Str

pub record PostgresSchemaHistoryState : Type 0 where
  pub tables : List TableSchema
  pub incremental_snapshot : Option IncrementalSnapshotProgress
  pub completed_signal_ids : List Str

pub record HistoryCodec : Type 0 where
  pub to_value : PostgresSchemaHistoryState → Result Json
  pub from_value : Json → Result PostgresSchemaHistoryState

pub record HistoryCodecLaws (codec : HistoryCodec) : Type 0 where
  pub from-to :
      (history : PostgresSchemaHistoryState) (payload : Json)
      → codec.to_value history ≡ ok payload
      → codec.from_value payload ≡ ok history

unfoldable pub key : TableSchema → TableKey
key t = (t.schema, t.table)

-- `sort_by_key(TableSchema::key)`.
unfoldable pub insert_table : TableSchema → List TableSchema → List TableSchema
unfolding key
insert_table t [] = t ∷ []
insert_table t (u ∷ rest) =
    let later = insert_table t rest in if gt (key t) (key u) then u ∷ later else t ∷ u ∷ rest

unfoldable pub sort_tables : List TableSchema → List TableSchema
unfolding insert_table
sort_tables [] = []
sort_tables (t ∷ rest) = insert_table t (sort_tables rest)

abbrev pub values : Schemas → List TableSchema
values [] = []
values ((_, t) ∷ rest) = t ∷ values rest

-- `schemas.insert(..)`, an error where the table is there.
unfoldable pub collect_tables : List TableSchema → Schemas → Result Schemas
unfolding find insert same_table key
collect_tables [] schemas = ok schemas
collect_tables (t ∷ rest) schemas = elim (find same_table (key t) schemas) [
  | some _ ↦ err (state "PostgreSQL schema history contains duplicate table")
  | none ↦ collect_tables rest (insert same_table (key t) t schemas)
]

module _ (codec : HistoryCodec) where
  unfoldable pub encode_connector_state :
      Schemas → Option IncrementalSnapshotProgress → List Str → Result ConnectorStateEnvelope
  unfolding sort_tables
  encode_connector_state schemas incremental_snapshot completed_signal_ids = do
    payload ← codec.to_value (record {
      tables = sort_tables (values schemas);
      incremental_snapshot = incremental_snapshot;
      completed_signal_ids = completed_signal_ids;
    })
    ok (record {
      format = postgres_schema_history_format;
      version = postgres_schema_history_version;
      payload = payload;
    })

  abbrev pub decoded : PostgresSchemaHistoryState → Result PostgresConnectorState
  unfolding collect_tables
  decoded history = do
    schemas ← collect_tables history.tables []
    ok (record {
      schemas = schemas;
      incremental_snapshot = history.incremental_snapshot;
      completed_signal_ids = history.completed_signal_ids;
    })

  unfoldable pub decode_connector_state : ConnectorStateEnvelope → Result PostgresConnectorState
  unfolding decoded str_eq
  decode_connector_state envelope =
      if not (str_eq envelope.format postgres_schema_history_format)
      then err (state "PostgreSQL checkpoint has another connector state format")
      else if ltb envelope.version 1 || ltb postgres_schema_history_version envelope.version
      then err (state "unsupported PostgreSQL schema history version")
      else codec.from_value envelope.payload >>= decoded
