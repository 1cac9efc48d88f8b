-- ===== src/Runtime/Shutdown.antt =====
-- crates/rustium-core/src/runtime.rs: the end of `run_inner` and of `run`, after the loop.
use rustium.Common.{Bool, true, none, some}
use rustium.Core.Error.{Result, ok, err, source, cancelled}
use rustium.Runtime.World.{
  failed, stopping, stopped, source_stopped, sink_shut_down, SourceExit, returned, panicked,
  timed_out, Env, World, Outcome, done, fail, out_of_fuel, M, log,
}
use rustium.Runtime.Flush.{transition}

-- `Err(Cancelled)` of a cancelled runtime is a normal end.
unfoldable pub ignore_cancelled : Bool → Outcome (Unit {0}) → Outcome (Unit {0})
ignore_cancelled true (fail cancelled) = done tt
ignore_cancelled _ r = r

unfoldable pub source_result : SourceExit → Result (Unit {0})
source_result (returned (ok _)) = ok tt
source_result (returned (err cancelled)) = ok tt
source_result (returned (err e)) = err e
source_result panicked = err (source "source task failed")
source_result timed_out = err (source "source shutdown timed out")

module _ (env : Env) where
  -- `pipeline_result?; source_result?; shutdown_result?`, then the final transition.
  unfoldable pub conclude :
      Outcome (Unit {0}) → Result (Unit {0}) → Result (Unit {0}) → M (Unit {0})
  unfolding transition
  conclude (done _) (ok _) (ok _) w = (done tt, transition env stopped none w)
  conclude (done _) (ok _) (err e) w = (fail e, w)
  conclude (done _) (err e) shutdown w = (fail e, w)
  conclude (fail e) stop shutdown w = (fail e, w)
  conclude out_of_fuel stop shutdown w = (out_of_fuel, w)

  unfoldable pub note_stopping : Outcome (Unit {0}) → World → World
  unfolding transition
  note_stopping (done _) w = transition env stopping none w
  note_stopping (fail e) w = w
  note_stopping out_of_fuel w = w

  -- The source's task is waited for, then the sink is shut down.
  unfoldable pub stop_all : Outcome (Unit {0}) → M (Unit {0})
  unfolding source_result conclude
  stop_all result w =
      let stop = source_result (env.source_exit w.trace) in
      let w' = log (source_stopped stop) w in
      let shutdown = env.sink_shutdown w'.trace in
      conclude result stop shutdown (log (sink_shut_down shutdown) w')

  -- Both happen whatever the pipeline's result.
  unfoldable pub shut_down : Outcome (Unit {0}) × World → Outcome (Unit {0}) × World
  unfolding ignore_cancelled note_stopping stop_all
  shut_down (r, w) =
      let result = ignore_cancelled (env.is_cancelled w.trace) r in
      stop_all result (note_stopping result w)

  unfoldable pub note_failure : Outcome (Unit {0}) × World → Outcome (Unit {0}) × World
  unfolding transition
  note_failure (done _, w) = (done tt, w)
  note_failure (fail cancelled, w) = (fail cancelled, w)
  note_failure (fail e, w) = (fail e, transition env failed (some e) w)
  note_failure (out_of_fuel, w) = (out_of_fuel, w)
