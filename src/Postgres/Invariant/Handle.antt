-- ===== src/Postgres/Invariant/Handle.antt =====
-- crates/rustium-postgresql/src/incremental_snapshot.rs: signals, commits and restarts under the
-- invariant.
use rustium.Common.{
  ◌≡◌, refl, inl, inr, Bool, true, false, not, ◌&&◌, ◌||◌, Option, none, some, List, [], ◌∷◌, arith,
  Bool-cases, Str, codes,
}
use rustium.Core.Error.{Result, ok, err}
use rustium.Postgres.Signal.{
  Signal, execute, stop, pause, resume, window_open, window_close, unsupported, AdditionalCondition,
}
use rustium.Postgres.Controller.{
  IncrementalSnapshotProgress, ClosedWindow, Controller, watermark_id, is_duplicate_execute_signal,
  expected_watermark_id,
}
use rustium.Postgres.Window.{some_window, is_running}
use rustium.Postgres.Chunk.{Database, PostgresSourceConfig, Schemas}
use rustium.Postgres.Handle.{
  no_window, is_id, prepared, is_unset, pause_from, resume_from, is_some_progress, first_progress,
  handle_pause, handle_resume, start_snapshot, handle_execute, handle_window_open,
  handle_window_close, handle_signal, after_commit, prepare_read_only_continuation,
  resume_after_restart,
}
use rustium.Postgres.Invariant.Prepare.{
  with_progress-Inv, prepare_current_chunk-Inv, Selects, expand_data_collections-Selects,
}
use rustium.Postgres.Invariant.{is_set, InRange, Inv}
use rustium.Postgres.Invariant.Window.{Keeps, close_current_window-Keeps}
use rustium.Postgres.Invariant.Stop.{stop_snapshot-Inv}

and-right : (a b : Bool) → (a && b) ≡ true → b ≡ true
and-right true b e = e
and-right false b e = ground arith

is_set-watermark_id :
    (o : Option Str) (suffix id : Str) → is_id (watermark_id o suffix) id ≡ true → is_set o ≡ true
is_set-watermark_id none suffix id e = ground arith
is_set-watermark_id (some chunk) suffix id e = refl

module _ (db : Database) (config : PostgresSourceConfig) (schemas : Schemas) where
  no_window-Inv : (r : Result (Unit {0}) × Controller) → Inv r.1 → Inv (no_window r).1
  no_window-Inv (ok _, c) h = h
  no_window-Inv (err e, c) h = h

  some_window-Inv : (r : Result ClosedWindow × Controller) → Keeps r → Inv (some_window r).1
  some_window-Inv (ok w, c) h = h
  some_window-Inv (err e, c) h = absurd h

  pause_from-Inv :
      (o : Option IncrementalSnapshotProgress) (c : Controller)
      → InRange o
      → Inv c
      → Inv (pause_from o c)
  pause_from-Inv none c r h = h
  pause_from-Inv (some p) c r h = elim (Bool-cases p.paused) [
    | inl e ↦ rw e h
    | inr e ↦ rw e (with_progress-Inv _ false true c r h)
  ]

  resume_from-Inv :
      (o : Option IncrementalSnapshotProgress) (c : Controller)
      → InRange o
      → Inv c
      → Inv (resume_from o c)
  resume_from-Inv none c r h = h
  resume_from-Inv (some p) c r h = elim (Bool-cases p.paused) [
    | inl e ↦ rw e (with_progress-Inv _ (is_unset c.current_schema) true c r h)
    | inr e ↦ rw e h
  ]

  start_snapshot-Inv :
      (id : Str) (key : Option Str) (r : Result (List Str × List (Str × Str))) (c : Controller)
      → Selects db config schemas r
      → Inv c
      → Inv (start_snapshot db config schemas id key r c).1
  unfolding start_snapshot first_progress
  start_snapshot-Inv id key (err e) c s h = h
  start_snapshot-Inv id key (ok (x ∷ xs, cs)) c s h =
      let p = first_progress id key (x ∷ xs, cs) in
      let r : InRange (some p) = omega arith in
      no_window-Inv _ (
        prepare_current_chunk-Inv db config schemas _
          (with_progress-Inv (some p) c.prepare_after_commit true c r h))
  start_snapshot-Inv id key (ok ([], cs)) c s h = ground arith

  handle_execute-Inv :
      (id : Str) (collections : List Str) (conditions : List AdditionalCondition) (key : Option Str)
      (c : Controller)
      → Inv c
      → Inv (handle_execute db config schemas id collections conditions key c).1
  unfolding handle_execute
  handle_execute-Inv id collections conditions key c h =
      elim (Bool-cases (is_duplicate_execute_signal id c || is_some_progress c.progress)) [
        | inl e ↦ rw e h
        | inr e ↦ rw e (
            start_snapshot-Inv id key _ c
              (expand_data_collections-Selects db config schemas collections conditions) h)
      ]

  handle_window_open-Inv :
      (id : Str) (c : Controller) → Inv c → Inv (handle_window_open db config schemas id c)
  unfolding handle_window_open expected_watermark_id
  handle_window_open-Inv id c h =
      elim (Bool-cases
        (not config.read_only && is_id (watermark_id c.current_chunk_id (codes "open")) id)) [
          | inl e ↦
              let chunk : is_set c.current_chunk_id ≡ true =
                is_set-watermark_id c.current_chunk_id (codes "open") id
                  (and-right (not config.read_only) _ e) in
              let schema : is_set c.current_schema ≡ true = rw (← h.chunk) chunk in
              rw e (record {
                in_range = h.in_range;
                history = h.history;
                chunk = h.chunk;
                opened = λ _. schema;
                watermarks = h.watermarks;
              })
          | inr e ↦ rw e h
        ]

  handle_window_close-Inv :
      (id : Str) (c : Controller) → Inv c → Inv (handle_window_close db config schemas id c).1
  unfolding handle_window_close expected_watermark_id
  handle_window_close-Inv id c h = elim (Bool-cases config.read_only) [
    | inl e ↦ rw e h
    | inr e ↦
        elim (Bool-cases
          (is_id (watermark_id c.current_chunk_id (codes "close")) id && c.window_open)) [
            | inl k ↦
                rw (e, k)
                  (some_window-Inv _
                    (close_current_window-Keeps c h (h.opened (and-right _ c.window_open k))))
            | inr k ↦ rw (e, k) h
          ]
  ]

  -- Every signal keeps the controller's invariant, whether its handling succeeds or fails, and
  -- whatever the database answers.
  pub handle_signal-Inv :
      (signal : Signal) (c : Controller) → Inv c → Inv (handle_signal db config schemas signal c).1
  unfolding handle_signal handle_pause handle_resume
  handle_signal-Inv (execute id collections conditions key) c h =
      handle_execute-Inv id collections conditions key c h
  handle_signal-Inv (stop id patterns) c h =
      no_window-Inv _ (stop_snapshot-Inv db.regex patterns c h)
  handle_signal-Inv (pause id) c h = pause_from-Inv c.progress c h.in_range h
  handle_signal-Inv (resume id) c h = resume_from-Inv c.progress c h.in_range h
  handle_signal-Inv (window_open id) c h = handle_window_open-Inv id c h
  handle_signal-Inv (window_close id) c h = handle_window_close-Inv id c h
  handle_signal-Inv (unsupported id kind) c h = h

  with_prepare-Inv :
      (b : Bool) (c : Controller) → Inv c → Inv (record c { prepare_after_commit = b })
  with_prepare-Inv b c h = with_progress-Inv c.progress b c.state_dirty c h.in_range h

  prepared-Inv :
      (r : Result (Unit {0}) × Controller) → Inv r.1 → Inv (prepared db config schemas r).1
  prepared-Inv (ok _, c) h = h
  prepared-Inv (err e, c) h = h

  -- A commit keeps the invariant.
  pub after_commit-Inv : (c : Controller) → Inv c → Inv (after_commit db config schemas c).1
  unfolding after_commit
  after_commit-Inv c h = elim (Bool-cases config.read_only) [
    | inl e ↦ rw e h
    | inr e ↦ elim (Bool-cases c.prepare_after_commit) [
      | inl k ↦
          simp (e, k) (prepare_current_chunk-Inv db config schemas _ (with_prepare-Inv false c h))
      | inr k ↦ simp (e, k) h
    ]
  ]

  -- The next chunk of a read-only snapshot keeps the invariant.
  pub prepare_read_only_continuation-Inv :
      (c : Controller) → Inv c → Inv (prepare_read_only_continuation db config schemas c).1
  unfolding prepare_read_only_continuation
  prepare_read_only_continuation-Inv c h =
      elim (Bool-cases (config.read_only && c.prepare_after_commit)) [
        | inl e ↦ simp e (
            prepared-Inv _
              (prepare_current_chunk-Inv db config schemas _ (with_prepare-Inv false c h)))
        | inr e ↦ simp e h
      ]

  -- A restart keeps the invariant.
  pub resume_after_restart-Inv :
      (c : Controller) → Inv c → Inv (resume_after_restart db config schemas c).1
  unfolding resume_after_restart
  resume_after_restart-Inv c h = elim (Bool-cases (is_running c.progress)) [
    | inl e ↦ rw e (prepare_current_chunk-Inv db config schemas c h)
    | inr e ↦ rw e h
  ]
