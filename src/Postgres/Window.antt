-- ===== src/Postgres/Window.antt =====
-- crates/rustium-postgresql/src/incremental_snapshot.rs: the window of a chunk, from its rows to
-- its close.
pub mod Rows
use rustium.Common.{
  ℕ, ◌+◌, max, Bool, true, false, not, ◌&&◌, ◌||◌, Option, none, some, List, [], ◌∷◌, Str, str_eq,
  ltb, leb, ◌==◌, length, if◌then◌else◌, get,
}
use rustium.Common.Assoc.{add_one}
use rustium.Core.Error.{Result, ok, err, source, invariant}
use rustium.Core.Event.{DataValue, Row, FieldSchema, ChangeEvent}
use rustium.Postgres.Controller.{
  TableSchema, IncrementalSnapshotProgress, ReadOnlyWatermarks, ClosedWindow, Controller,
  remember_completed,
}

-- The values of the primary key's columns, if the row has all of them.
unfoldable pub key_values : List FieldSchema → Row → Option (List DataValue)
key_values [] row = some []
key_values (f ∷ fs) row =
    let rest = key_values fs row in
    if f.primary_key
    then (elim (get f.name row) [
      | none ↦ none
      | some v ↦ elim rest [ none ↦ none | some vs ↦ some (v ∷ vs) ]
    ])
    else rest

-- `IndexMap::insert`: a new key goes to the end, and an old one keeps its place.
unfoldable pub index_insert : Str → Row → List (Str × Row) → List (Str × Row)
index_insert key row [] = (key, row) ∷ []
index_insert key row ((k, r) ∷ m) =
    if str_eq k key then (key, row) ∷ m else (k, r) ∷ index_insert key row m

-- `IndexMap::shift_remove`.
unfoldable pub shift_remove : Str → List (Str × Row) → List (Str × Row)
shift_remove key [] = []
shift_remove key ((k, r) ∷ m) = if str_eq k key then m else (k, r) ∷ shift_remove key m

abbrev pub remove_row : Option Str → List (Str × Row) → List (Str × Row)
remove_row none m = m
remove_row (some key) m = shift_remove key m

-- `to_text` is `serde_json::to_string` of the key's values.
module _ (to_text : List DataValue → Option Str) where
  abbrev pub text_of : Option (List DataValue) → Option Str
  text_of none = none
  text_of (some values) = to_text values

  unfoldable pub row_key : Row → TableSchema → Option Str
  unfolding key_values
  row_key row schema = text_of (key_values schema.event_schema.fields row)

  abbrev pub opt_row_key : Option Row → TableSchema → Option Str
  opt_row_key none schema = none
  opt_row_key (some row) schema = row_key row schema

  abbrev pub insert_keyed : Option Str → Row → List (Str × Row) → List (Str × Row)
  insert_keyed none row m = m
  insert_keyed (some key) row m = index_insert key row m

  -- The rows with a key, collected into the map.
  unfoldable pub collect_window : List Row → TableSchema → List (Str × Row) → List (Str × Row)
  unfolding row_key index_insert
  collect_window [] schema m = m
  collect_window (row ∷ rows) schema m =
      collect_window rows schema (insert_keyed (row_key row schema) row m)

  abbrev pub is_name : Option Str → Str → Bool
  is_name none name = false
  is_name (some s) name = str_eq s name

  unfoldable pub is_of_table : ChangeEvent → TableSchema → Bool
  is_of_table event schema =
      is_name event.source.schema schema.schema && is_name event.source.table schema.table

  unfoldable pub deduplicate_in : TableSchema → ChangeEvent → List (Str × Row) → List (Str × Row)
  unfolding is_of_table row_key shift_remove
  deduplicate_in schema event m =
      if is_of_table event schema
      then remove_row (opt_row_key event.after schema)
          (remove_row (opt_row_key event.before schema) m)
      else m

  abbrev pub window_after : Option TableSchema → ChangeEvent → List (Str × Row) → List (Str × Row)
  window_after none event m = m
  window_after (some schema) event m = deduplicate_in schema event m

  -- A streamed event supersedes the rows of the open window that have its keys.
  unfoldable pub deduplicate : ChangeEvent → Controller → Controller
  unfolding deduplicate_in
  deduplicate event c =
      if c.window_open
      then record c { window = window_after c.current_schema event c.window }
      else c

unfoldable pub advanced :
    Bool → Option (List Str) → IncrementalSnapshotProgress → IncrementalSnapshotProgress
advanced complete chunk_end p =
    if complete
    then record p {
      current_collection = p.current_collection + 1;
      last_key = none;
      maximum_key = none;
      chunk_sequence = add_one p.chunk_sequence;
    }
    else record p { last_key = chunk_end; chunk_sequence = add_one p.chunk_sequence }

-- The chunk's end is taken where the chunk was not the last of its collection.
abbrev pub left_chunk_end : Bool → Option (List Str) → Option (List Str)
left_chunk_end true chunk_end = chunk_end
left_chunk_end false chunk_end = none

abbrev pub finish_if_done : IncrementalSnapshotProgress → Controller → Controller
finish_if_done p c =
    if leb (length p.data_collections) p.current_collection
    then remember_completed p.signal_id (record c { progress = none })
    else record c { progress = some p }

unfoldable pub advance_progress : Controller → Controller
unfolding advanced remember_completed
advance_progress c = elim c.progress [
  | none ↦ c
  | some p ↦
      finish_if_done (advanced c.current_chunk_complete c.current_chunk_end p) (record c {
        current_chunk_end = left_chunk_end c.current_chunk_complete c.current_chunk_end;
      })
]

abbrev pub is_running : Option IncrementalSnapshotProgress → Bool
is_running none = false
is_running (some p) = not p.paused

abbrev pub rows_of : List (Str × Row) → List Row
rows_of [] = []
rows_of ((k, r) ∷ m) = r ∷ rows_of m

-- The state after a close, apart from the schema that the result takes.
unfoldable pub closed : Controller → Controller
unfolding advance_progress
closed c =
    let c' = advance_progress (record c {
      current_schema = none;
      window = [];
      window_open = false;
      current_chunk_id = none;
      read_only_watermarks = none;
    }) in
    record c' { state_dirty = true; prepare_after_commit = is_running c'.progress }

unfoldable pub close_current_window : Controller → Result ClosedWindow × Controller
unfolding closed
close_current_window c = elim c.current_schema [
  | none ↦ (err (invariant "incremental snapshot close has no current schema"), c)
  | some schema ↦ (ok (record { schema = schema; rows = rows_of c.window }), closed c)
]

abbrev pub some_window :
    Result ClosedWindow × Controller → Result (Option ClosedWindow) × Controller
some_window (ok window, c) = (ok (some window), c)
some_window (err e, c) = (err e, c)

abbrev pub open_from : ℕ → ReadOnlyWatermarks → Controller → Controller
open_from xid w c =
    if not c.window_open && leb w.low.xmin xid then record c { window_open = true } else c

abbrev pub observe_event_with :
    Option ReadOnlyWatermarks → ℕ → Controller → Result (Option ClosedWindow) × Controller
observe_event_with none xid c = (ok none, c)
observe_event_with (some w) xid c =
    let c' = open_from xid w c in
    if c'.window_open && ltb (max w.high.xmax w.low.xmax) xid
    then some_window (close_current_window c')
    else (ok none, c')

unfoldable pub observe_read_only_event : ℕ → Controller → Result (Option ClosedWindow) × Controller
unfolding close_current_window
observe_read_only_event xid c = observe_event_with c.read_only_watermarks xid c

abbrev pub observe_commit_with :
    Option ReadOnlyWatermarks → ℕ → Controller → Result (Option ClosedWindow) × Controller
observe_commit_with none xid c = (ok none, c)
observe_commit_with (some w) xid c =
    if xid == w.high.xmax || leb xid w.high.xmin
    then some_window (close_current_window c)
    else (ok none, c)

unfoldable pub observe_read_only_commit : ℕ → Controller → Result (Option ClosedWindow) × Controller
unfolding close_current_window
observe_read_only_commit xid c = observe_commit_with c.read_only_watermarks xid c

abbrev pub is_table : Option TableSchema → Str → Str → Bool
is_table none schema table = false
is_table (some s) schema table = str_eq s.schema schema && str_eq s.table table

unfoldable pub reject_active_schema_change : Str → Str → Controller → Result (Unit {0})
reject_active_schema_change schema table c =
    if is_table c.current_schema schema table
    then err (source "schema changed while an incremental snapshot window was active")
    else ok tt
