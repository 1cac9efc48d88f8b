-- ===== src/Tests/Postgres.antt =====
-- An incremental snapshot of three tables: read, deduplicated, stopped in part, resumed.
use rustium.Core.Event.{int32, DataValue}
use rustium.Common.{
  Option, get, ◌||◌, if◌then◌else◌, ◌≡◌, refl, true, false, none, some, List, [], ◌∷◌, Str, codes,
  str_eq, arith,
}
use rustium.Common.Text.{decimal}
use rustium.Postgres.Snapshot.{parse_pg_snapshot}
use rustium.Postgres.Snapshot.Print.{print_pg_snapshot, parse_pg_snapshot-print}
use rustium.Postgres.Invariant.Sweep.{unstopped}
use rustium.Postgres.Invariant.Back.{current-stop_snapshot}
use rustium.Common.{◌++◌}
use rustium.Common.Int.{pos}
use rustium.Core.Error.{Result, ok}
use rustium.Postgres.Signal.{pause}
use rustium.Postgres.Controller.{
  TableSchema, IncrementalSnapshotProgress, PgSnapshot, Controller, new,
}
use rustium.Postgres.Controller.Completed.{IsHistory}
use rustium.Postgres.Window.Rows.{IsMap, is_key, get-deduplicate}
use rustium.Postgres.Window.{is_of_table, deduplicate, opt_row_key}
use rustium.Postgres.Stop.{Regex, compile_patterns, stops_with, stop_snapshot}
use rustium.Postgres.Chunk.{
  Database, PostgresSourceConfig, PrepareChunkInput, PreparedChunk, Schemas,
}
use rustium.Postgres.Handle.{handle_signal, resume_after_restart}
use rustium.Postgres.Invariant.{Inv}
use rustium.Postgres.Invariant.Stop.{GoesOn, current_of, collections_of, stop_snapshot-GoesOn}
use rustium.Postgres.Invariant.Reach.{Reached, restored, called, signalled, restarted, Reached-Inv}
use rustium.Tests.Data.{orders_schema, order_row, order_created}

abbrev table : Str → TableSchema
table name = record {
  schema = codes "p";
  table = name;
  event_schema = orders_schema;
  column_types = [];
  opaque_columns = [];
}

abbrev tables : Schemas
tables = table (codes "a") ∷ table (codes "b") ∷ table (codes "c") ∷ []

-- A pattern here matches itself only; the empty one is refused.
abbrev exact : Regex
exact [] = none
exact (x ∷ xs) = some (str_eq (x ∷ xs))

abbrev snapshot : PgSnapshot
snapshot = record { xmin = 5; xmax = 9; in_progress = [] }

abbrev one_chunk : PrepareChunkInput → Result PreparedChunk
one_chunk input = ok (record {
  rows = order_row 1 ∷ order_row 2 ∷ [];
  chunk_end = some (codes "2" ∷ []);
  maximum_key = some (codes "9" ∷ []);
  complete = false;
  read_only_watermarks = some (record { low = snapshot; high = snapshot });
})

abbrev db : Database
db = record {
  prepare_chunk = one_chunk;
  row_text = λ key. none;
  regex = exact;
  regex_any_case = exact;
}

abbrev read_only : PostgresSourceConfig
read_only = record {
  signal_data_collection = none;
  incremental_snapshot_chunk_size = 2;
  read_only = true;
}

abbrev names : List Str
names = codes "p.a" ∷ codes "p.b" ∷ codes "p.c" ∷ []

-- The second of three tables is being read.
abbrev progress : IncrementalSnapshotProgress
progress = record {
  signal_id = codes "s";
  data_collections = names;
  additional_conditions = [];
  surrogate_key = none;
  current_collection = 1;
  last_key = some (codes "4" ∷ []);
  maximum_key = some (codes "9" ∷ []);
  chunk_sequence = 3;
  paused = false;
}

empty-IsHistory : IsHistory []
empty-IsHistory = record { bounded = omega arith; distinct = tt }

abbrev at_start : Controller
at_start = new (some progress) []

abbrev running : Controller
running = (resume_after_restart db read_only tables at_start).1

running-Reached : Reached (some progress) [] running
running-Reached = called (restored (some progress) []) (restarted db read_only tables at_start)

running-Inv : Inv running
running-Inv = Reached-Inv (omega arith) empty-IsHistory running-Reached

Reached-Inv_example : Inv (handle_signal db read_only tables (pause (codes "q")) running).1
Reached-Inv_example =
    Reached-Inv (omega arith) empty-IsHistory
      (called running-Reached (signalled db read_only tables (pause (codes "q")) running))

compiled_a : compile_patterns exact (codes "p.a" ∷ []) ≡ ok (str_eq (codes "p.a") ∷ [])
unfolding compile_patterns
compiled_a = refl

spares_b : stops_with (str_eq (codes "p.a") ∷ []) (codes "p.b") ≡ false
unfolding str_eq
spares_b = refl

start_progress : at_start.progress ≡ some progress
unfolding new
start_progress = refl

stop_snapshot-GoesOn_example :
    GoesOn
      (codes "p.b")
      (stops_with (str_eq (codes "p.a") ∷ []))
      at_start
      (stop_snapshot exact (codes "p.a" ∷ []) at_start).1
stop_snapshot-GoesOn_example =
    stop_snapshot-GoesOn exact (codes "p.a" ∷ []) (str_eq (codes "p.a") ∷ []) progress (codes "p.b")
      at_start compiled_a start_progress refl spares_b

-- A chunk is read at the restart.
running_reads : running.connected ≡ true
unfolding resume_after_restart new str_eq
running_reads = refl

-- A pattern that is refused loses the progress.
refused_pattern : collections_of (stop_snapshot exact ([] ∷ []) at_start).1.progress ≡ []
unfolding stop_snapshot new
refused_pattern = refl

-- Two rows with different keys.
abbrev one_letter : List DataValue → Option Str
one_letter (int32 (pos n) ∷ []) = some (n ∷ [])
one_letter _ = none

abbrev orders : TableSchema
orders = record {
  schema = codes "public";
  table = codes "orders";
  event_schema = orders_schema;
  column_types = [];
  opaque_columns = [];
}

window-IsMap : IsMap ((1 ∷ [], order_row 1) ∷ (2 ∷ [], order_row 2) ∷ [])
unfolding get str_eq
window-IsMap = (refl, (refl, tt))

abbrev open_window : Controller
open_window = record (new (some progress) []) {
  window = (1 ∷ [], order_row 1) ∷ (2 ∷ [], order_row 2) ∷ [];
  current_schema = some orders;
  current_chunk_id = some (codes "s-3");
  window_open = true;
}

orders_event : is_of_table one_letter (order_created 10 2) orders ≡ true
unfolding is_of_table str_eq
orders_event = refl

-- The row of the created order is superseded.
get-deduplicate_example :
    get (2 ∷ []) (deduplicate one_letter (order_created 10 2) open_window).window ≡ (
      if is_key (opt_row_key one_letter (order_created 10 2).after orders) (2 ∷ [])
        || is_key (opt_row_key one_letter (order_created 10 2).before orders) (2 ∷ [])
      then none
      else get (2 ∷ []) open_window.window)
get-deduplicate_example =
    get-deduplicate one_letter orders (order_created 10 2) open_window (2 ∷ []) refl refl
      orders_event window-IsMap

superseded : get (2 ∷ []) (deduplicate one_letter (order_created 10 2) open_window).window ≡ none
unfolding deduplicate str_eq get
superseded = refl

kept :
    get (1 ∷ []) (deduplicate one_letter (order_created 10 2) open_window).window
    ≡ some (order_row 1)
unfolding deduplicate str_eq get
kept = refl

abbrev busy_snapshot : PgSnapshot
busy_snapshot = record { xmin = 5; xmax = 19; in_progress = 6 ∷ 18 ∷ [] }

parse_pg_snapshot-print_example :
    parse_pg_snapshot (print_pg_snapshot busy_snapshot) ≡ ok busy_snapshot
parse_pg_snapshot-print_example =
    parse_pg_snapshot-print busy_snapshot (omega arith) (omega arith)
      (omega arith, (omega arith, tt))

printed : print_pg_snapshot busy_snapshot ≡ codes "5:19:6,18"
unfolding decimal
printed = refl

compiled_bc :
    compile_patterns exact (codes "p.b" ∷ codes "p.c" ∷ [])
    ≡ ok (str_eq (codes "p.b") ∷ str_eq (codes "p.c") ∷ [])
unfolding compile_patterns
compiled_bc = refl

stops_b : stops_with (str_eq (codes "p.b") ∷ str_eq (codes "p.c") ∷ []) (codes "p.b") ≡ true
unfolding str_eq
stops_b = refl

stops_after :
    unstopped (stops_with (str_eq (codes "p.b") ∷ str_eq (codes "p.c") ∷ [])) (codes "p.c" ∷ [])
    ≡ []
unfolding str_eq
stops_after = refl

keeps_a :
    unstopped (stops_with (str_eq (codes "p.b") ∷ str_eq (codes "p.c") ∷ [])) (codes "p.a" ∷ [])
    ≡ [] ++ codes "p.a" ∷ []
unfolding str_eq
keeps_a = refl

current-stop_snapshot_example :
    current_of (stop_snapshot exact (codes "p.b" ∷ codes "p.c" ∷ []) at_start).1.progress
    ≡ some (codes "p.a")
current-stop_snapshot_example =
    current-stop_snapshot exact (codes "p.b" ∷ codes "p.c" ∷ [])
      (str_eq (codes "p.b") ∷ str_eq (codes "p.c") ∷ []) progress at_start (codes "p.a" ∷ [])
      (codes "p.c" ∷ []) [] (codes "p.b") (codes "p.a") compiled_bc start_progress refl refl stops_b
      stops_after keeps_a
