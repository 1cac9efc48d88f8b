-- ===== src/Postgres/Controller.antt =====
-- crates/rustium-postgresql/src/incremental_snapshot.rs: the controller's state.
--
-- The database connection is only whether there is one; what `prepare_chunk` reads from the
-- database, and what the regular expressions match, are arguments of the operations that use them.
pub mod Completed
use rustium.Common.{
  ℕ, Bool, true, false, Option, none, some, List, [], ◌∷◌, ◌++◌, Str, str_eq, ltb, length,
  if◌then◌else◌, codes,
}
use rustium.Common.Int.{ℤ}
use rustium.Core.Event.{Row, EventSchema}

pub record PostgresColumnType : Type 0 where
  pub name : Str
  pub type_oid : ℕ
  pub type_modifier : ℤ

pub record TableSchema : Type 0 where
  pub schema : Str
  pub table : Str
  pub event_schema : EventSchema
  pub column_types : List PostgresColumnType
  pub opaque_columns : List Str

pub record IncrementalSnapshotProgress : Type 0 where
  pub signal_id : Str
  pub data_collections : List Str
  pub additional_conditions : List (Str × Str)
  pub surrogate_key : Option Str
  pub current_collection : ℕ
  pub last_key : Option (List Str)
  pub maximum_key : Option (List Str)
  pub chunk_sequence : ℕ
  pub paused : Bool

pub record PgSnapshot : Type 0 where
  pub xmin : ℕ
  pub xmax : ℕ
  pub in_progress : List ℕ

pub record ReadOnlyWatermarks : Type 0 where
  pub low : PgSnapshot
  pub high : PgSnapshot

pub record ClosedWindow : Type 0 where
  pub schema : TableSchema
  pub rows : List Row

abbrev pub max_completed_signal_ids : ℕ
max_completed_signal_ids = 1_024

-- `window` is the `IndexMap` from row keys to rows, in insertion order.
pub record Controller : Type 0 where
  pub progress : Option IncrementalSnapshotProgress
  pub completed_signal_ids : List Str
  pub connected : Bool
  pub window : List (Str × Row)
  pub current_schema : Option TableSchema
  pub current_chunk_end : Option (List Str)
  pub current_chunk_complete : Bool
  pub current_chunk_id : Option Str
  pub window_open : Bool
  pub state_dirty : Bool
  pub prepare_after_commit : Bool
  pub read_only_watermarks : Option ReadOnlyWatermarks

unfoldable pub new : Option IncrementalSnapshotProgress → List Str → Controller
new progress completed = record {
  progress = progress;
  completed_signal_ids = completed;
  connected = false;
  window = [];
  current_schema = none;
  current_chunk_end = none;
  current_chunk_complete = false;
  current_chunk_id = none;
  window_open = false;
  state_dirty = false;
  prepare_after_commit = false;
  read_only_watermarks = none;
}

-- The first occurrence of an id is removed, if it has one.
unfoldable pub remove_id : Str → List Str → List Str
remove_id id [] = []
remove_id id (x ∷ xs) = if str_eq x id then xs else x ∷ remove_id id xs

abbrev pub drop_oldest : List Str → List Str
drop_oldest [] = []
drop_oldest (x ∷ xs) = xs

-- The list of completed ids after `id` was completed: most recent last, and bounded.
unfoldable pub remembered : Str → List Str → List Str
unfolding remove_id
remembered id ids =
    let all = remove_id id ids ++ id ∷ [] in
    if ltb max_completed_signal_ids (length all) then drop_oldest all else all

unfoldable pub remember_completed : Str → Controller → Controller
unfolding remembered
remember_completed id c = record c { completed_signal_ids = remembered id c.completed_signal_ids }

unfoldable pub take_state_dirty : Controller → Bool × Controller
take_state_dirty c = (c.state_dirty, record c { state_dirty = false })

unfoldable pub clear_current_chunk : Controller → Controller
clear_current_chunk c = record c {
  window = [];
  current_schema = none;
  current_chunk_end = none;
  current_chunk_complete = false;
  current_chunk_id = none;
  window_open = false;
  prepare_after_commit = false;
  read_only_watermarks = none;
}

abbrev pub contains : Str → List Str → Bool
contains id [] = false
contains id (x ∷ xs) = if str_eq x id then true else contains id xs

abbrev pub is_active_signal : Str → Option IncrementalSnapshotProgress → Bool
is_active_signal id none = false
is_active_signal id (some p) = str_eq p.signal_id id

unfoldable pub is_duplicate_execute_signal : Str → Controller → Bool
is_duplicate_execute_signal id c =
    if contains id c.completed_signal_ids then true else is_active_signal id c.progress

abbrev pub watermark_id : Option Str → Str → Option Str
watermark_id none suffix = none
watermark_id (some id) suffix = some (id ++ codes "-" ++ suffix)

unfoldable pub expected_watermark_id : Controller → Str → Option Str
expected_watermark_id c suffix = watermark_id c.current_chunk_id suffix
