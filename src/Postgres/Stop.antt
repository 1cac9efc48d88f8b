-- ===== src/Postgres/Stop.antt =====
-- crates/rustium-postgresql/src/incremental_snapshot.rs: `stop_snapshot`.
use rustium.Common.{
  ℕ, suc, ◌+◌, ◌-◌, min, Bool, true, false, not, ◌||◌, Option, none, some, List, [], ◌∷◌, Str, ltb,
  ◌==◌, length, get_elem?, if◌then◌else◌, is_empty,
}
use rustium.Common.Assoc.{add_one}
use rustium.Core.Error.{Result, ok, err, source}
use rustium.Postgres.Controller.{
  IncrementalSnapshotProgress, Controller, remember_completed, clear_current_chunk, contains,
}

-- A compiled pattern is the test of a match; `none` is a pattern that the regular expression
-- library refuses.
abbrev pub Regex : Type 0
Regex = Str → Option (Str → Bool)

abbrev pub add_pattern :
    Option (Str → Bool) → Result (List (Str → Bool)) → Result (List (Str → Bool))
add_pattern none rest = err (source "invalid pattern")
add_pattern (some p) (ok ps) = ok (p ∷ ps)
add_pattern (some p) (err e) = err e

unfoldable pub compile_patterns : Regex → List Str → Result (List (Str → Bool))
compile_patterns regex [] = ok []
compile_patterns regex (p ∷ ps) = add_pattern (regex p) (compile_patterns regex ps)

abbrev pub matches_any : List (Str → Bool) → Str → Bool
matches_any [] s = false
matches_any (p ∷ ps) s = p s || matches_any ps s

-- What the loop over the collections collects.
pub record Sweep : Type 0 where
  pub retained : List Str
  pub retained_before_current : ℕ
  pub removed_current : Bool
  pub removed : Bool

abbrev pub nothing_swept : Sweep
nothing_swept = record {
  retained = [];
  retained_before_current = 0;
  removed_current = false;
  removed = false;
}

abbrev pub keep_one : Str → Bool → Sweep → Sweep
keep_one collection before s = record s {
  retained = collection ∷ s.retained;
  retained_before_current =
      if before then s.retained_before_current + 1 else s.retained_before_current;
}

abbrev pub remove_one : Bool → Sweep → Sweep
remove_one current s = record s { removed = true; removed_current = current || s.removed_current }

-- The collections from `index` on.
unfoldable pub sweep : (Str → Bool) → ℕ → ℕ → List Str → Sweep
sweep stops current index [] = nothing_swept
sweep stops current index (collection ∷ rest) =
    let swept = sweep stops current (suc index) rest in
    if stops collection
    then remove_one (index == current) swept
    else keep_one collection (ltb index current) swept

abbrev pub retain_conditions : List Str → List (Str × Str) → List (Str × Str)
retain_conditions kept [] = []
retain_conditions kept ((k, v) ∷ m) =
    if contains k kept then (k, v) ∷ retain_conditions kept m else retain_conditions kept m

abbrev pub with_retained : Sweep → IncrementalSnapshotProgress → IncrementalSnapshotProgress
with_retained s p = record p {
  data_collections = s.retained;
  additional_conditions = retain_conditions s.retained p.additional_conditions;
  current_collection = min s.retained_before_current (length s.retained - 1);
}

abbrev pub is_missing : Option Str → Bool
is_missing none = true
is_missing (some s) = false

abbrev pub restarted : IncrementalSnapshotProgress → IncrementalSnapshotProgress
restarted p = record p {
  last_key = none;
  maximum_key = none;
  chunk_sequence = add_one p.chunk_sequence;
}

-- The progress is written back; the chunk in hand is given up where its collection was removed.
unfoldable pub keep_rest : Sweep → Bool → IncrementalSnapshotProgress → Controller → Controller
unfolding clear_current_chunk
keep_rest s was_missing p c =
    if s.removed_current || was_missing
    then record (clear_current_chunk c) {
      prepare_after_commit = not p.paused;
      progress = some (restarted (with_retained s p));
    }
    else record c { progress = some (with_retained s p) }

unfoldable pub finish_all : IncrementalSnapshotProgress → Controller → Controller
unfolding clear_current_chunk remember_completed
finish_all p c = remember_completed p.signal_id (clear_current_chunk (record c { progress = none }))

abbrev pub swept_to : Sweep → IncrementalSnapshotProgress → Controller → Controller
swept_to s p c =
    if is_empty s.retained
    then record (finish_all p c) { state_dirty = true }
    else record (keep_rest s (is_missing (get_elem? p.data_collections p.current_collection)) p c) {
      state_dirty = true;
    }

unfoldable pub apply_sweep : Sweep → IncrementalSnapshotProgress → Controller → Controller
unfolding keep_rest finish_all
apply_sweep s p c = if s.removed then swept_to s p c else c

-- No pattern at all stops every collection.
abbrev pub stops_with : List (Str → Bool) → Str → Bool
stops_with patterns collection = is_empty patterns || matches_any patterns collection

abbrev pub stop_with :
    Result (List (Str → Bool))
    → IncrementalSnapshotProgress
    → Controller
    → Result (Unit {0}) × Controller
stop_with (err e) p c = (err e, record c { progress = none })
stop_with (ok patterns) p c =
    (ok tt, apply_sweep (sweep (stops_with patterns) p.current_collection 0 p.data_collections) p c)

abbrev pub stop_from :
    Option IncrementalSnapshotProgress
    → Result (List (Str → Bool))
    → Controller
    → Result (Unit {0}) × Controller
stop_from none compiled c = (ok tt, c)
stop_from (some p) compiled c = stop_with compiled p c

unfoldable pub stop_snapshot : Regex → List Str → Controller → Result (Unit {0}) × Controller
unfolding compile_patterns sweep apply_sweep
stop_snapshot regex patterns c = stop_from c.progress (compile_patterns regex patterns) c
