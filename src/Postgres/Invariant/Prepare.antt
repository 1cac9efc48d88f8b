-- ===== src/Postgres/Invariant/Prepare.antt =====
-- crates/rustium-postgresql/src/incremental_snapshot.rs: the preparation of a chunk under the
-- invariant, and the selection of collections.
use rustium.Common.{
  ◌≡◌, refl, inl, inr, Bool, true, false, Option, none, some, List, [], ◌∷◌, Option-cases, is_empty,
  Str,
}
use rustium.Core.Error.{Error, Result, ok, err, ◌>>=◌, ◌>>◌}
use rustium.Postgres.Signal.{AdditionalCondition, refuse_if}
use rustium.Postgres.Controller.{IncrementalSnapshotProgress, Controller}
use rustium.Postgres.Stop.{compile_patterns}
use rustium.Postgres.Chunk.{
  compile_conditions, select_collections, Database, PostgresSourceConfig, Schemas,
  PrepareChunkInput, PreparedChunk, note_maximum, install_chunk, run_chunk, with_input,
  prepare_input, prepare_from, prepare_current_chunk, expand_data_collections,
}
use rustium.Postgres.Handle.{prepared}
use rustium.Postgres.Invariant.{InRange, Inv}

-- The invariant speaks of neither the progress's keys nor the flags.
pub with_progress-Inv :
    (o : Option IncrementalSnapshotProgress) (prepare dirty : Bool) (c : Controller)
    → InRange o
    → Inv c
    → Inv (record c { progress = o; prepare_after_commit = prepare; state_dirty = dirty })
with_progress-Inv o prepare dirty c r h = record {
  in_range = r;
  history = h.history;
  chunk = h.chunk;
  opened = h.opened;
  watermarks = h.watermarks;
}

module _ (db : Database) (config : PostgresSourceConfig) (schemas : Schemas) where
  note_maximum-InRange :
      (p : IncrementalSnapshotProgress) (m : Option (List Str)) (c : Controller)
      → InRange (some p)
      → Inv c
      → Inv (note_maximum p m c)
  note_maximum-InRange p m c r h = elim (Option-cases p.maximum_key) [
    | inl e ↦ rw e (with_progress-Inv _ c.prepare_after_commit true c r h)
    | inr (k, e) ↦ rw e h
  ]

  install_chunk-Inv :
      (p : IncrementalSnapshotProgress) (input : PrepareChunkInput) (prepared : PreparedChunk)
      (c : Controller)
      → InRange (some p)
      → Inv c
      → Inv (install_chunk db p input prepared c)
  unfolding install_chunk
  install_chunk-Inv p input prepared c r h =
      let k = note_maximum-InRange p prepared.maximum_key c r h in
      record {
        in_range = k.in_range;
        history = k.history;
        chunk = refl;
        opened = λ o. refl;
        watermarks = λ o. refl;
      }

  run_chunk-Inv :
      (p : IncrementalSnapshotProgress) (input : PrepareChunkInput) (r : Result PreparedChunk)
      (c : Controller)
      → InRange (some p)
      → Inv c
      → Inv (run_chunk db p input r c).1
  unfolding run_chunk
  run_chunk-Inv p input (err e) c r h = record {
    in_range = h.in_range;
    history = h.history;
    chunk = h.chunk;
    opened = h.opened;
    watermarks = h.watermarks;
  }
  run_chunk-Inv p input (ok prepared) c r h = install_chunk-Inv p input prepared c r h

  with_input-Inv :
      (p : IncrementalSnapshotProgress) (r : Result PrepareChunkInput) (c : Controller)
      → InRange (some p)
      → Inv c
      → Inv (with_input db p r c).1
  unfolding with_input
  with_input-Inv p (err e) c r h = h
  with_input-Inv p (ok input) c r h = run_chunk-Inv p input (db.prepare_chunk input) c r h

  prepare_from-Inv :
      (o : Option IncrementalSnapshotProgress) (c : Controller)
      → InRange o
      → Inv c
      → Inv (prepare_from db o config schemas c).1
  prepare_from-Inv none c r h = h
  prepare_from-Inv (some p) c r h = with_input-Inv p (prepare_input config schemas p) c r h

  pub prepare_current_chunk-Inv :
      (c : Controller) → Inv c → Inv (prepare_current_chunk db config schemas c).1
  unfolding prepare_current_chunk
  prepare_current_chunk-Inv c h = prepare_from-Inv c.progress c h.in_range h

  -- A selection that succeeds has a collection.
  abbrev pub Selects : Result (List Str × List (Str × Str)) → Type 0
  Selects (ok x) = is_empty x.0 ≡ false
  Selects (err e) = Unit

  Selects-bind :
      {A : Type 0}
      → (r : Result A) (next : A → Result (List Str × List (Str × Str)))
      → ((a : A) → Selects (next a))
      → Selects (r >>= next)
  Selects-bind (ok a) next h = h a
  Selects-bind (err e) next h = tt

  Selects-refuse_if :
      (e : Error) (xs : List Str) (cs : List (Str × Str))
      → Selects (refuse_if (is_empty xs) e >> ok (xs, cs))
  Selects-refuse_if e [] cs = tt
  Selects-refuse_if e (x ∷ xs) cs = refl

  pub expand_data_collections-Selects :
      (patterns : List Str) (conditions : List AdditionalCondition)
      → Selects (expand_data_collections db patterns conditions schemas)
  unfolding expand_data_collections
  expand_data_collections-Selects patterns conditions =
      Selects-bind (compile_patterns db.regex patterns) _ (λ compiled.
        Selects-bind (compile_conditions db.regex_any_case conditions) _
          (λ filters. Selects-refuse_if _ (select_collections compiled schemas) _))
