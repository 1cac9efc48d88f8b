-- ===== src/Runtime/Durable/Loop.antt =====
-- crates/rustium-core/src/runtime.rs: the contract over the loop of `run_inner`.
use rustium.Common.{ℕ, ◌≡◌, none, List, [], ◌∷◌, arith}
use rustium.Core.Event.{ConnectorIdentity}
use rustium.Runtime.World.{RuntimeConfig, RetryState, Env, World, done, streaming}
use rustium.Runtime.Ends.{
  Ends, Attempts, returns, fails, Ends-bind, Ends-mono, Ends-done, retry_loop-Ends,
}
use rustium.Runtime.Retry.{wait_for_sink_retry, sink_flush, flush_sink_with_retry}
use rustium.Runtime.Flush.{transition, flush_batch}
use rustium.Runtime.Run.{
  Round, cancellation, tick, channel_closed, record_arrived, source_failed, on_record,
  pipeline_loop, pipeline,
}
use rustium.Runtime.Durable.{Inv, Flushed}
use rustium.Runtime.Durable.Flush.{Durable, flush_batch-Ends}
use rustium.Runtime.Durable.Consume.{on_record-Ends, flush_batch-Inv}

transition-Inv : (env : Env) (w : World) → Inv env w → Inv env (transition env streaming none w)
unfolding transition
transition-Inv env w h = record {
  durable = (tt, h.durable);
  split = h.split;
  position = h.position;
}

wait-Flushed :
    (env : Env) (config : RuntimeConfig) (r : RetryState) (w : World)
    → Flushed env w
    → Flushed env (wait_for_sink_retry env config r w).1
unfolding wait_for_sink_retry
wait-Flushed env config r w h = ground arith

flush-Flushed :
    (env : Env) (w : World)
    → Flushed env w
    → Attempts (Flushed env) (Flushed env) (sink_flush env w)
unfolding sink_flush
flush-Flushed env w h = ground arith

module _ (env : Env) (config : RuntimeConfig) (identity : ConnectorIdentity) (fuel : ℕ) where
  pipeline_loop-Ends :
      (rounds : List Round) (w : World)
      → Inv env w
      → Ends (Durable env) (Inv env) (pipeline_loop env config identity fuel rounds w)
  unfolding pipeline_loop
  pipeline_loop-Ends [] w h = returns h
  pipeline_loop-Ends (cancellation ∷ rounds) w h = returns h
  pipeline_loop-Ends (channel_closed ∷ rounds) w h = returns h
  pipeline_loop-Ends (source_failed e ∷ rounds) w h = fails h.durable
  pipeline_loop-Ends (tick ∷ rounds) w h =
      Ends-bind (flush_batch env config identity fuel)
        (λ _. pipeline_loop env config identity fuel rounds) w
        (flush_batch-Inv env config identity fuel w h) (pipeline_loop-Ends rounds)
  pipeline_loop-Ends (record_arrived r depth ∷ rounds) w h =
      Ends-bind (on_record env config identity fuel r depth)
        (λ _. pipeline_loop env config identity fuel rounds) w
        (on_record-Ends env config identity fuel r depth w h) (pipeline_loop-Ends rounds)

  flush_sink-Ends :
      (w : World)
      → Flushed env w
      → Ends (Flushed env) (Flushed env) (flush_sink_with_retry env config fuel w)
  unfolding flush_sink_with_retry
  flush_sink-Ends w h =
      retry_loop-Ends env config _ _ (sink_flush env) (flush-Flushed env) (wait-Flushed env config)
        fuel _ w h

  -- A pipeline that returns has delivered and stored all that was received; one that fails has
  -- kept the contract.
  pub pipeline-Ends :
      (rounds : List Round) (w : World)
      → Inv env w
      → Ends (Durable env) (Flushed env) (pipeline env config identity fuel rounds w)
  unfolding pipeline
  pipeline-Ends rounds w h =
      Ends-bind (pipeline_loop env config identity fuel rounds) _ _
        (pipeline_loop-Ends rounds _ (transition-Inv env w h))
        λ v i.
          Ends-bind (flush_batch env config identity fuel) _ v
            (flush_batch-Ends env config identity fuel v i)
            λ u f. Ends-mono _ (λ t g. g.durable) (λ t g. g) (flush_sink-Ends u f)

-- A pipeline that starts with the invariant of the loop and ends normally has delivered exactly the
-- encoded events of all records that it received, in order, has saved the position of the last one,
-- and has neither events nor a position left in the batch.
pub pipeline_delivers :
    (env : Env) (config : RuntimeConfig) (identity : ConnectorIdentity) (fuel : ℕ)
    → (rounds : List Round) (w : World) → Inv env w
    → (pipeline env config identity fuel rounds w).0 ≡ done tt
    → Flushed env (pipeline env config identity fuel rounds w).1
pipeline_delivers env config identity fuel rounds w h e =
    Ends-done (pipeline env config identity fuel rounds w)
      (pipeline-Ends env config identity fuel rounds w h) e
