-- ===== src/Postgres/Chunk.antt =====
-- crates/rustium-postgresql/src/incremental_snapshot.rs: the expansion of a signal's patterns and
-- the preparation of a chunk.
--
-- `prepare_chunk` runs queries: `Database` gives its answer to an input, and stands for the settings
-- of the connection too, so the input has no `catalog_config`. `PostgresSourceConfig` has the three
-- settings that the controller reads. `row_text` is
-- `serde_json::to_string` of a key's values, and the two `Regex` compile an anchored pattern, with
-- the letters' case and without it.
use rustium.Common.{
  ℕ, Bool, true, false, not, ◌&&◌, ◌||◌, Option, none, some, List, [], ◌∷◌, ◌++◌, Str, codes,
  str_eq, get_elem?, if◌then◌else◌, get, is_empty,
}
use rustium.Common.Ord.{nat_ord, list_ord, gt}
use rustium.Common.Text.{split_once, decimal}
use rustium.Core.Error.{Result, ok, err, source, configuration, invariant, ◌>>=◌, ◌>>◌}
use rustium.Core.Event.{DataValue, Row, FieldSchema}
use rustium.Postgres.Signal.{AdditionalCondition, or_fail, refuse_if}
use rustium.Postgres.Controller.{
  TableSchema, IncrementalSnapshotProgress, ReadOnlyWatermarks, Controller,
}
use rustium.Postgres.Window.{collect_window}
use rustium.Postgres.Stop.{Regex, compile_patterns, matches_any}

pub record PreparedChunk : Type 0 where
  pub rows : List Row
  pub chunk_end : Option (List Str)
  pub maximum_key : Option (List Str)
  pub complete : Bool
  pub read_only_watermarks : Option ReadOnlyWatermarks

pub record PostgresSourceConfig : Type 0 where
  pub signal_data_collection : Option Str
  pub incremental_snapshot_chunk_size : ℕ
  pub read_only : Bool

pub record PrepareChunkInput : Type 0 where
  pub signal_data_collection : Option Str
  pub schema : TableSchema
  pub last_key : Option (List Str)
  pub maximum_key : Option (List Str)
  pub additional_condition : Option Str
  pub surrogate_key : Option Str
  pub chunk_size : ℕ
  pub chunk_id : Str
  pub read_only : Bool

pub record Database : Type 0 where
  pub prepare_chunk : PrepareChunkInput → Result PreparedChunk
  pub row_text : List DataValue → Option Str
  pub regex : Regex
  pub regex_any_case : Regex

abbrev pub Schemas : Type 0
Schemas = List TableSchema

-- `schemas.get(&(schema, table))`.
unfoldable pub find_schema : Str → Str → Schemas → Option TableSchema
find_schema schema table [] = none
find_schema schema table (s ∷ rest) =
    if str_eq s.schema schema && str_eq s.table table then some s else find_schema schema table rest

unfoldable pub has_primary_key : List FieldSchema → Bool
has_primary_key [] = false
has_primary_key (f ∷ fs) = f.primary_key || has_primary_key fs

-- Sorted without duplicates: `sort` and `dedup` of the selected names.
unfoldable pub insert_sorted : Str → List Str → List Str
insert_sorted s [] = s ∷ []
insert_sorted s (x ∷ xs) =
    if str_eq s x then x ∷ xs else if gt x s then s ∷ x ∷ xs else x ∷ insert_sorted s xs

abbrev pub collection_name : TableSchema → Str
collection_name s = s.schema ++ codes "." ++ s.table

unfoldable pub select_collections : List (Str → Bool) → Schemas → List Str
unfolding insert_sorted
select_collections patterns [] = []
select_collections patterns (s ∷ rest) =
    let chosen = select_collections patterns rest in
    if matches_any patterns (collection_name s)
    then insert_sorted (collection_name s) chosen
    else chosen

abbrev pub add_condition :
    Option (Str → Bool)
    → Str
    → Result (List ((Str → Bool) × Str))
    → Result (List ((Str → Bool) × Str))
add_condition none filter rest = err (source "invalid additional-condition pattern")
add_condition (some p) filter (ok ps) = ok ((p, filter) ∷ ps)
add_condition (some p) filter (err e) = err e

unfoldable pub compile_conditions :
    Regex → List AdditionalCondition → Result (List ((Str → Bool) × Str))
compile_conditions regex [] = ok []
compile_conditions regex (c ∷ cs) =
    add_condition (regex c.data_collection) c.filter (compile_conditions regex cs)

abbrev pub first_condition : Str → List ((Str → Bool) × Str) → Option Str
first_condition s [] = none
first_condition s ((p, filter) ∷ cs) = if p s then some filter else first_condition s cs

abbrev pub pair_condition : Str → Option Str → List (Str × Str) → List (Str × Str)
pair_condition s none rest = rest
pair_condition s (some filter) rest = (s, filter) ∷ rest

unfoldable pub expand_conditions : List Str → List ((Str → Bool) × Str) → List (Str × Str)
expand_conditions [] cs = []
expand_conditions (s ∷ rest) cs =
    pair_condition s (first_condition s cs) (expand_conditions rest cs)

module _ (db : Database) where
  unfoldable pub expand_data_collections :
      List Str → List AdditionalCondition → Schemas → Result (List Str × List (Str × Str))
  unfolding compile_patterns compile_conditions select_collections expand_conditions
  expand_data_collections patterns conditions schemas = do
    compiled ← compile_patterns db.regex patterns
    filters ← compile_conditions db.regex_any_case conditions
    let selected = select_collections compiled schemas
    refuse_if (is_empty selected) (source "selected no captured PostgreSQL tables")
    ok (selected, expand_conditions selected filters)

unfoldable pub chunk_id_of : IncrementalSnapshotProgress → Str
unfolding decimal
chunk_id_of p = p.signal_id ++ codes "-" ++ decimal p.chunk_sequence

unfoldable pub chunk_input :
    PostgresSourceConfig → IncrementalSnapshotProgress → Str → TableSchema → PrepareChunkInput
unfolding chunk_id_of
chunk_input config p collection schema = record {
  signal_data_collection = if config.read_only then none else config.signal_data_collection;
  schema = schema;
  last_key = p.last_key;
  maximum_key = p.maximum_key;
  additional_condition = get collection p.additional_conditions;
  surrogate_key = p.surrogate_key;
  chunk_size = config.incremental_snapshot_chunk_size;
  chunk_id = chunk_id_of p;
  read_only = config.read_only;
}

-- All that is looked up before the database is asked.
unfoldable pub prepare_input :
    PostgresSourceConfig → Schemas → IncrementalSnapshotProgress → Result PrepareChunkInput
unfolding find_schema has_primary_key chunk_input split_once
prepare_input config schemas p = do
  collection ←
      or_fail (get_elem? p.data_collections p.current_collection)
        (invariant "incremental snapshot collection is missing")
  (schema_name, table_name) ←
      or_fail (split_once b'.' collection) (configuration "must be schema-qualified")
  schema ←
      or_fail (find_schema schema_name table_name schemas)
        (source "not a captured PostgreSQL table")
  refuse_if (not (has_primary_key schema.event_schema.fields)) (source "has no primary key")
  ok (chunk_input config p collection schema)

abbrev pub is_none : Option (List Str) → Bool
is_none none = true
is_none (some k) = false

-- The maximum key is fixed by the first chunk of a collection.
abbrev pub note_maximum : IncrementalSnapshotProgress → Option (List Str) → Controller → Controller
note_maximum p maximum c =
    if is_none p.maximum_key
    then record c { progress = some (record p { maximum_key = maximum }); state_dirty = true }
    else c

module _ (db : Database) where
  unfoldable pub install_chunk :
      IncrementalSnapshotProgress → PrepareChunkInput → PreparedChunk → Controller → Controller
  unfolding collect_window
  install_chunk p input prepared c = record (note_maximum p prepared.maximum_key c) {
    connected = true;
    window = collect_window db.row_text prepared.rows input.schema [];
    current_chunk_end = prepared.chunk_end;
    current_chunk_complete = prepared.complete;
    current_chunk_id = some input.chunk_id;
    current_schema = some input.schema;
    window_open = false;
    read_only_watermarks = prepared.read_only_watermarks;
  }

  -- The connection is moved into the query's task, and comes back with its answer.
  unfoldable pub run_chunk :
      IncrementalSnapshotProgress
      → PrepareChunkInput
      → Result PreparedChunk
      → Controller
      → Result (Unit {0}) × Controller
  unfolding install_chunk
  run_chunk p input (err e) c = (err e, record c { connected = false })
  run_chunk p input (ok prepared) c = (ok tt, install_chunk p input prepared c)

  unfoldable pub with_input :
      IncrementalSnapshotProgress
      → Result PrepareChunkInput
      → Controller
      → Result (Unit {0}) × Controller
  unfolding run_chunk
  with_input p (err e) c = (err e, c)
  with_input p (ok input) c = run_chunk p input (db.prepare_chunk input) c

  abbrev pub prepare_from :
      Option IncrementalSnapshotProgress
      → PostgresSourceConfig
      → Schemas
      → Controller
      → Result (Unit {0}) × Controller
  prepare_from none config schemas c =
      (err (invariant "incremental snapshot has no persisted progress"), c)
  prepare_from (some p) config schemas c = with_input p (prepare_input config schemas p) c

  unfoldable pub prepare_current_chunk :
      PostgresSourceConfig → Schemas → Controller → Result (Unit {0}) × Controller
  unfolding prepare_input with_input
  prepare_current_chunk config schemas c = prepare_from c.progress config schemas c
