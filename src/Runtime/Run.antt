-- ===== src/Runtime/Run.antt =====
-- crates/rustium-core/src/runtime.rs: `run_inner` and `run`.
--
-- `tokio::select!` picks the event of each round of the loop: the model takes the rounds as a
-- list. The loop ends at a cancellation, at the end of the source's channel or at an error; a list
-- that ends before is a loop that is still waiting, and counts as a cancellation then.
pub mod Status
use rustium.Common.{ℕ, false, Option, none, some, List, [], ◌∷◌, Str, if◌then◌else◌, str_eq}
use rustium.Core.Error.{Error, configuration}
use rustium.Core.Event.{ConnectorIdentity, SourceRecord, Checkpoint}
use rustium.Runtime.World.{
  RuntimeConfig, created, starting, streaming, new_batch, received, Env, World, done, fail, M,
  ◌>>=◌, ◌>>◌, pure, raise, lift, modify, log,
}
use rustium.Runtime.Retry.{validate_sink_with_retry, flush_sink_with_retry}
use rustium.Runtime.Flush.{transition, flush_batch}
use rustium.Runtime.Shutdown.{shut_down, note_failure}
use rustium.Runtime.Consume.{consume_record}

-- One round of the loop.
pub data Round : Type 0 where
  cancellation : Round
  tick : Round
  channel_closed : Round
  record_arrived : SourceRecord → ℕ → Round
  source_failed : Error → Round

unfoldable pub set_queue_depth : ℕ → World → World
set_queue_depth depth w = record w { status = record w.status { queue_depth = depth } }

module _ (config : RuntimeConfig) where
  unfoldable pub check_fingerprint : Option Checkpoint → M (Unit {0})
  check_fingerprint none w = (done tt, w)
  check_fingerprint (some checkpoint) w =
      if str_eq checkpoint.config_fingerprint config.config_fingerprint
      then (done tt, w)
      else (fail (configuration "persisted checkpoint does not match the active configuration"), w)

-- The locals of the loop, from the checkpoint that was loaded.
unfoldable pub restore : Option Checkpoint → World → World
unfolding new_batch
restore none w = record w {
  pending = new_batch;
  snapshot_completed = false;
  connector_state = none;
}
restore (some checkpoint) w = record w {
  pending = new_batch;
  snapshot_completed = checkpoint.snapshot_completed;
  connector_state = checkpoint.connector_state;
}

module _ (env : Env) (config : RuntimeConfig) (identity : ConnectorIdentity) (fuel : ℕ) where
  -- A record with the number of records left in the channel.
  unfoldable pub on_record : SourceRecord → ℕ → M (Unit {0})
  unfolding set_queue_depth
  on_record r depth w =
      consume_record env config identity fuel r (set_queue_depth depth (log (received r) w))

  -- The `select!` loop up to its end.
  unfoldable pub pipeline_loop : List Round → M (Unit {0})
  unfolding on_record
  pipeline_loop [] = pure tt
  pipeline_loop (cancellation ∷ rounds) = pure tt
  pipeline_loop (channel_closed ∷ rounds) = pure tt
  pipeline_loop (source_failed e ∷ rounds) = raise e
  pipeline_loop (tick ∷ rounds) = flush_batch env config identity fuel >>= λ _. pipeline_loop rounds
  pipeline_loop (record_arrived r depth ∷ rounds) = on_record r depth >>= λ _. pipeline_loop rounds

  unfoldable pub pipeline : List Round → M (Unit {0})
  unfolding pipeline_loop
  pipeline rounds = do
    modify (transition env streaming none)
    pipeline_loop rounds
    flush_batch env config identity fuel
    flush_sink_with_retry env config fuel

  unfoldable pub resume : List Round → Option Checkpoint → M (Unit {0})
  unfolding check_fingerprint restore pipeline shut_down
  resume rounds checkpoint = do
    check_fingerprint config checkpoint
    modify (restore checkpoint)
    λ w. shut_down env (pipeline rounds w)

  unfoldable pub run_inner : List Round → M (Unit {0})
  unfolding resume transition
  run_inner rounds = do
    modify (transition env starting none)
    lift env.source_validate
    validate_sink_with_retry env config fuel
    checkpoint ← (λ w. lift (env.store_load w.trace) w)
    resume rounds checkpoint

  unfoldable pub run : List Round → M (Unit {0})
  unfolding run_inner note_failure
  run rounds w = note_failure env (run_inner rounds w)

-- `RuntimeStatus::new`, before anything happened.
unfoldable pub initial : Str → ℕ → World
unfolding new_batch
initial name now = record {
  trace = [];
  status = record {
    connector_name = name;
    state = created;
    state_since = now;
    state_reason = none;
    last_position = none;
    last_checkpoint_at = none;
    last_source_event_at = none;
    last_event_observed_at = none;
    source_lag_millis = none;
    delivered_events = 0;
    failed_events = 0;
    sink_retry_attempts = 0;
    queue_depth = 0;
  };
  pending = new_batch;
  snapshot_completed = false;
  connector_state = none;
}
