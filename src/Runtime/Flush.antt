-- ===== src/Runtime/Flush.antt =====
-- crates/rustium-core/src/runtime.rs: `flush_batch` and the status updates that it makes.
use rustium.Common.{
  ℕ, ◌-◌, Bool, true, false, Option, none, some, List, [], ◌∷◌, ◌==◌, if◌then◌else◌, length,
  is_empty,
}
use rustium.Core.Error.{Error, Result, ok, err, source, cancelled}
use rustium.Core.Position.{SourcePosition}
use rustium.Core.Event.{ConnectorIdentity, Checkpoint, checkpoint_schema_version}
use rustium.Runtime.World.{
  RuntimeConfig, ConnectorState, StatusSnapshot, EventTiming, Action, transitioned, saved,
  save_failed, acknowledged, signal_acknowledged, Env, World, Outcome, done, fail, out_of_fuel, M,
  ◌>>◌, modify, log, add_u64,
}
use rustium.Runtime.Retry.{write_sink_with_retry}

-- Whether the acknowledgement's sender was taken before: it is used once.
unfoldable pub was_acknowledged : ℕ → List Action → Bool
was_acknowledged id [] = false
was_acknowledged id (signal_acknowledged j ∷ t) = if j == id then true else was_acknowledged id t
was_acknowledged id (_ ∷ t) = was_acknowledged id t

unfoldable pub acknowledge : ℕ → World → World
unfolding was_acknowledged
acknowledge id w = if was_acknowledged id w.trace then w else log (signal_acknowledged id) w

-- `pending.signal_acknowledgements.drain(..)`, each one acknowledged.
unfoldable pub acknowledge_all : List ℕ → World → World
unfolding acknowledge
acknowledge_all [] w = w
acknowledge_all (id ∷ ids) w = acknowledge_all ids (acknowledge id w)

-- Later than the source time, or 0.
unfoldable pub event_lag_millis : ℕ → ℕ → ℕ
event_lag_millis source_time observed_time = observed_time - source_time

unfoldable pub increment_failed_events : ℕ → World → World
increment_failed_events n w = record w {
  status = record w.status { failed_events = add_u64 w.status.failed_events n };
}

unfoldable pub with_timing : ℕ → Option EventTiming → StatusSnapshot → StatusSnapshot
unfolding event_lag_millis
with_timing now none s = s
with_timing now (some t) s = record s {
  last_source_event_at = t.source_time;
  last_event_observed_at = some t.observed_time;
  source_lag_millis = elim t.source_time [
    | none ↦ none
    | some since ↦ some (event_lag_millis since now)
  ];
}

-- The error of a delivery is counted unless it is a cancellation.
unfoldable pub after_write : ℕ → Outcome (Unit {0}) × World → Outcome (Unit {0}) × World
unfolding increment_failed_events
after_write delivered (done _, w) = (done tt, w)
after_write delivered (fail cancelled, w) = (fail cancelled, w)
after_write delivered (fail e, w) = (fail e, increment_failed_events delivered w)
after_write delivered (out_of_fuel, w) = (out_of_fuel, w)

unfoldable pub after_save : Checkpoint → Result (Unit {0}) → M (Unit {0})
after_save checkpoint (ok _) w = (done tt, log (saved checkpoint) w)
after_save checkpoint (err e) w = (fail e, log (save_failed checkpoint e) w)

module _ (env : Env) where
  unfoldable pub transition : ConnectorState → Option Error → World → World
  transition state reason w = log (transitioned state) (record w {
    status = record w.status {
      state = state;
      state_since = env.utc_now w.trace;
      state_reason = reason;
    };
  })

  -- `RuntimeStatus::checkpointed`.
  unfoldable pub checkpointed : SourcePosition → ℕ → Option EventTiming → World → World
  unfolding with_timing
  checkpointed position delivered timing w =
      let now = env.utc_now w.trace in
      record w {
        status = with_timing now timing (record w.status {
          last_position = some position;
          last_checkpoint_at = some now;
          delivered_events = add_u64 w.status.delivered_events delivered;
        });
      }

  -- `ack_tx.send(Some(position))`.
  unfoldable pub send_ack : SourcePosition → M (Unit {0})
  send_ack position w =
      if env.ack_receiver_alive w.trace
      then (done tt, log (acknowledged position) w)
      else (fail (source "source acknowledgement channel closed"), w)

  -- The rest of the batch is drained and the status updated.
  unfoldable pub finish_flush : SourcePosition → ℕ → World → World
  unfolding acknowledge_all checkpointed
  finish_flush position delivered w =
      let w' = acknowledge_all w.pending.signal_acknowledgements w in
      checkpointed position delivered w'.pending.latest_event_timing (record w' {
        pending = record w'.pending { signal_acknowledgements = []; latest_event_timing = none };
      })

module _ (env : Env) (config : RuntimeConfig) (fuel : ℕ) where
  -- `std::mem::take(&mut pending.encoded)` and the write of what was taken.
  unfoldable pub deliver : SourcePosition → M (Unit {0})
  unfolding after_write
  deliver position w =
      let events = w.pending.encoded in
      if is_empty events
      then (done tt, w)
      else after_write (length events) (
          write_sink_with_retry env config fuel
            (record { events = events; highest_position = position })
            (record w { pending = record w.pending { encoded = [] } }))

module _ (env : Env) (config : RuntimeConfig) (identity : ConnectorIdentity) where
  abbrev pub checkpoint_at : SourcePosition → World → Checkpoint
  checkpoint_at position w = record {
    schema_version = checkpoint_schema_version;
    connector_name = identity.name;
    generation = identity.generation;
    source_position = position;
    snapshot_completed = w.snapshot_completed;
    config_fingerprint = config.config_fingerprint;
    updated_at = env.utc_now w.trace;
    connector_state = w.connector_state;
  }

  unfoldable pub save_checkpoint : SourcePosition → M (Unit {0})
  unfolding after_save
  save_checkpoint position w =
      let checkpoint = checkpoint_at position w in
      after_save checkpoint (env.store_save w.trace checkpoint) w

module _ (env : Env) (config : RuntimeConfig) (identity : ConnectorIdentity) (fuel : ℕ) where
  unfoldable pub flush_at : SourcePosition → M (Unit {0})
  unfolding deliver save_checkpoint send_ack finish_flush
  flush_at position w =
      let delivered = length w.pending.encoded in
      (do
        deliver env config fuel position
        save_checkpoint env config identity position
        send_ack env position
        modify (finish_flush env position delivered))
        (record w { pending = record w.pending { highest_position = none } })

  -- `pending.highest_position.take()`: nothing to do where no record came since the last flush.
  unfoldable pub flush_batch : M (Unit {0})
  unfolding flush_at
  flush_batch w = elim w.pending.highest_position [
    | none ↦ (done tt, w)
    | some position ↦ flush_at position w
  ]
