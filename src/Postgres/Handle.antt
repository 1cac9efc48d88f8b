-- ===== src/Postgres/Handle.antt =====
-- crates/rustium-postgresql/src/incremental_snapshot.rs: `handle_signal` and the calls that
-- prepare the next chunk.
use rustium.Common.{
  Bool, true, false, not, ◌&&◌, ◌||◌, Option, none, some, List, Str, codes, str_eq, if◌then◌else◌,
}
use rustium.Core.Error.{Result, ok, err}
use rustium.Postgres.Signal.{
  Signal, execute, stop, pause, resume, window_open, window_close, unsupported, AdditionalCondition,
}
use rustium.Postgres.Controller.{
  IncrementalSnapshotProgress, ClosedWindow, Controller, TableSchema, is_duplicate_execute_signal,
  expected_watermark_id,
}
use rustium.Postgres.Window.{close_current_window, some_window, is_running}
use rustium.Postgres.Stop.{stop_snapshot}
use rustium.Postgres.Chunk.{
  Database, PostgresSourceConfig, Schemas, expand_data_collections, prepare_current_chunk,
}

abbrev pub no_window : Result (Unit {0}) × Controller → Result (Option ClosedWindow) × Controller
no_window (ok _, c) = (ok none, c)
no_window (err e, c) = (err e, c)

abbrev pub is_id : Option Str → Str → Bool
is_id none id = false
is_id (some expected) id = str_eq expected id

abbrev pub is_some_progress : Option IncrementalSnapshotProgress → Bool
is_some_progress none = false
is_some_progress (some p) = true

abbrev pub is_unset : Option TableSchema → Bool
is_unset none = true
is_unset (some s) = false

unfoldable pub first_progress :
    Str → Option Str → List Str × List (Str × Str) → IncrementalSnapshotProgress
first_progress id surrogate_key (expanded, conditions) = record {
  signal_id = id;
  data_collections = expanded;
  additional_conditions = conditions;
  surrogate_key = surrogate_key;
  current_collection = 0;
  last_key = none;
  maximum_key = none;
  chunk_sequence = 1;
  paused = false;
}

abbrev pub pause_from : Option IncrementalSnapshotProgress → Controller → Controller
pause_from none c = c
pause_from (some p) c = if p.paused then c else record c {
  progress = some (record p { paused = true });
  prepare_after_commit = false;
  state_dirty = true;
}

unfoldable pub handle_pause : Controller → Controller
handle_pause c = pause_from c.progress c

abbrev pub resume_from : Option IncrementalSnapshotProgress → Controller → Controller
resume_from none c = c
resume_from (some p) c =
    if p.paused
    then record c {
      progress = some (record p { paused = false });
      prepare_after_commit = is_unset c.current_schema;
      state_dirty = true;
    }
    else c

unfoldable pub handle_resume : Controller → Controller
handle_resume c = resume_from c.progress c

module _ (db : Database) (config : PostgresSourceConfig) (schemas : Schemas) where
  unfoldable pub start_snapshot :
      Str
      → Option Str
      → Result (List Str × List (Str × Str))
      → Controller
      → Result (Option ClosedWindow) × Controller
  unfolding first_progress prepare_current_chunk
  start_snapshot id surrogate_key (err e) c = (err e, c)
  start_snapshot id surrogate_key (ok expanded) c = no_window (
      prepare_current_chunk db config schemas (record c {
        progress = some (first_progress id surrogate_key expanded);
        state_dirty = true;
      }))

  -- A duplicate signal is ignored, and so is one while another snapshot is active.
  unfoldable pub handle_execute :
      Str
      → List Str
      → List AdditionalCondition
      → Option Str
      → Controller
      → Result (Option ClosedWindow) × Controller
  unfolding is_duplicate_execute_signal expand_data_collections start_snapshot
  handle_execute id collections conditions surrogate_key c =
      if is_duplicate_execute_signal id c || is_some_progress c.progress
      then (ok none, c)
      else start_snapshot id surrogate_key
          (expand_data_collections db collections conditions schemas) c

  unfoldable pub handle_window_open : Str → Controller → Controller
  unfolding expected_watermark_id
  handle_window_open id c =
      if not config.read_only && is_id (expected_watermark_id c (codes "open")) id
      then record c { window_open = true }
      else c

  unfoldable pub handle_window_close : Str → Controller → Result (Option ClosedWindow) × Controller
  unfolding expected_watermark_id close_current_window
  handle_window_close id c =
      if config.read_only
      then (ok none, c)
      else if is_id (expected_watermark_id c (codes "close")) id && c.window_open
      then some_window (close_current_window c)
      else (ok none, c)

  unfoldable pub handle_signal : Signal → Controller → Result (Option ClosedWindow) × Controller
  unfolding handle_execute stop_snapshot handle_pause handle_resume handle_window_open
      handle_window_close
  handle_signal (execute id collections conditions surrogate_key) c =
      handle_execute id collections conditions surrogate_key c
  handle_signal (stop id patterns) c = no_window (stop_snapshot db.regex patterns c)
  handle_signal (pause id) c = (ok none, handle_pause c)
  handle_signal (resume id) c = (ok none, handle_resume c)
  handle_signal (window_open id) c = (ok none, handle_window_open id c)
  handle_signal (window_close id) c = handle_window_close id c
  handle_signal (unsupported id kind) c = (ok none, c)

  -- `std::mem::take(&mut self.prepare_after_commit)` happens only where the mode is the right one.
  unfoldable pub after_commit : Controller → Result (Unit {0}) × Controller
  unfolding prepare_current_chunk
  after_commit c =
      if config.read_only
      then (ok tt, c)
      else if c.prepare_after_commit
      then prepare_current_chunk db config schemas (record c { prepare_after_commit = false })
      else (ok tt, c)

  abbrev pub prepared : Result (Unit {0}) × Controller → Result Bool × Controller
  prepared (ok _, c) = (ok true, c)
  prepared (err e, c) = (err e, c)

  unfoldable pub prepare_read_only_continuation : Controller → Result Bool × Controller
  unfolding prepare_current_chunk
  prepare_read_only_continuation c =
      if config.read_only && c.prepare_after_commit
      then prepared
          (prepare_current_chunk db config schemas (record c { prepare_after_commit = false }))
      else (ok false, c)

  unfoldable pub resume_after_restart : Controller → Result (Unit {0}) × Controller
  unfolding prepare_current_chunk
  resume_after_restart c =
      if is_running c.progress then prepare_current_chunk db config schemas c else (ok tt, c)
