-- ===== src/Postgres/Invariant/Reach.antt =====
-- crates/rustium-postgresql/src/incremental_snapshot.rs: the states that the controller reaches
-- between the calls of its connector.
use rustium.Common.{ℕ, refl, inl, inr, Option, List, Str, Bool-cases}
use rustium.Core.Error.{Result, ok, err}
use rustium.Core.Event.{DataValue, ChangeEvent}
use rustium.Postgres.Signal.{Signal}
use rustium.Postgres.Controller.{IncrementalSnapshotProgress, Controller, new, take_state_dirty}
use rustium.Postgres.Controller.Completed.{IsHistory}
use rustium.Postgres.Window.{deduplicate, observe_read_only_event, observe_read_only_commit}
use rustium.Postgres.Chunk.{Database, PostgresSourceConfig, Schemas}
use rustium.Postgres.Handle.{
  handle_signal, after_commit, prepare_read_only_continuation, resume_after_restart,
}
use rustium.Postgres.Invariant.{InRange, Inv}
use rustium.Postgres.Invariant.Window.{
  Keeps, observe_read_only_event-Keeps, observe_read_only_commit-Keeps,
}
use rustium.Postgres.Invariant.Handle.{
  handle_signal-Inv, after_commit-Inv, prepare_read_only_continuation-Inv, resume_after_restart-Inv,
}

-- One call of the connector. The database may answer each of them differently.
pub data Call : Controller → Controller → Type 0 where
  signalled :
      (db : Database) (config : PostgresSourceConfig) (schemas : Schemas) (signal : Signal)
      (c : Controller)
      → Call c (handle_signal db config schemas signal c).1
  committed :
      (db : Database) (config : PostgresSourceConfig) (schemas : Schemas) (c : Controller)
      → Call c (after_commit db config schemas c).1
  continued :
      (db : Database) (config : PostgresSourceConfig) (schemas : Schemas) (c : Controller)
      → Call c (prepare_read_only_continuation db config schemas c).1
  restarted :
      (db : Database) (config : PostgresSourceConfig) (schemas : Schemas) (c : Controller)
      → Call c (resume_after_restart db config schemas c).1
  deduplicated :
      (to_text : List DataValue → Option Str) (event : ChangeEvent) (c : Controller)
      → Call c (deduplicate to_text event c)
  observed_event : (xid : ℕ) (c : Controller) → Call c (observe_read_only_event xid c).1
  observed_commit : (xid : ℕ) (c : Controller) → Call c (observe_read_only_commit xid c).1
  saved : (c : Controller) → Call c (take_state_dirty c).1

-- The states reached from a restored one.
pub data Reached : Option IncrementalSnapshotProgress → List Str → Controller → Type 0 where
  restored :
      (progress : Option IncrementalSnapshotProgress) (completed : List Str)
      → Reached progress completed (new progress completed)
  called :
      {progress : Option IncrementalSnapshotProgress} {completed : List Str} {c c' : Controller}
      → Reached progress completed c
      → Call c c'
      → Reached progress completed c'

Keeps-Inv : {A : Type 0} → (r : Result A × Controller) → Keeps r → Inv r.1
Keeps-Inv (ok a, c) k = k
Keeps-Inv (err e, c) k = absurd k

deduplicate-Inv :
    (to_text : List DataValue → Option Str) (event : ChangeEvent) (c : Controller)
    → Inv c
    → Inv (deduplicate to_text event c)
unfolding deduplicate
deduplicate-Inv to_text event c h = elim (Bool-cases c.window_open) [
  | inl e ↦ simp e (record {
    in_range = h.in_range;
    history = h.history;
    chunk = h.chunk;
    opened = λ _. h.opened e;
    watermarks = h.watermarks;
  })
  | inr e ↦ simp e h
]

take_state_dirty-Inv : (c : Controller) → Inv c → Inv (take_state_dirty c).1
unfolding take_state_dirty
take_state_dirty-Inv c h = record {
  in_range = h.in_range;
  history = h.history;
  chunk = h.chunk;
  opened = h.opened;
  watermarks = h.watermarks;
}

call-Inv : {c c' : Controller} → Call c c' → Inv c → Inv c'
call-Inv (signalled db config schemas signal c) h = handle_signal-Inv db config schemas signal c h
call-Inv (committed db config schemas c) h = after_commit-Inv db config schemas c h
call-Inv (continued db config schemas c) h =
    prepare_read_only_continuation-Inv db config schemas c h
call-Inv (restarted db config schemas c) h = resume_after_restart-Inv db config schemas c h
call-Inv (deduplicated to_text event c) h = deduplicate-Inv to_text event c h
call-Inv (observed_event xid c) h = Keeps-Inv _ (observe_read_only_event-Keeps xid c h)
call-Inv (observed_commit xid c) h = Keeps-Inv _ (observe_read_only_commit-Keeps xid c h)
call-Inv (saved c) h = take_state_dirty-Inv c h

new-Inv :
    (progress : Option IncrementalSnapshotProgress) (completed : List Str)
    → InRange progress
    → IsHistory completed
    → Inv (new progress completed)
unfolding new
new-Inv progress completed r h = record {
  in_range = r;
  history = h;
  chunk = refl;
  opened = λ o. o;
  watermarks = λ o. o;
}

-- From a restored state whose collection in hand is one of the snapshot's, and whose history of
-- signals is bounded and without duplicates, every sequence of calls leads to a state where: the
-- collection in hand is one of the snapshot's, the history is bounded and without duplicates, a
-- chunk has an id exactly when it has a schema, and an open window or read-only watermarks have a
-- chunk.
pub Reached-Inv :
    {progress : Option IncrementalSnapshotProgress} {completed : List Str} {c : Controller}
    → InRange progress
    → IsHistory completed
    → Reached progress completed c
    → Inv c
Reached-Inv r h (restored progress completed) = new-Inv progress completed r h
Reached-Inv r h (called before call) = call-Inv call (Reached-Inv r h before)
