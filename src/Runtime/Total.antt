-- ===== src/Runtime/Total.antt =====
-- crates/rustium-core/src/runtime.rs: runs with a limit on the sink's retries.
use rustium.Common.{
  ℕ, ◌^◌, ◌<◌, ◌≡◌, refl, ◌≢◌, Bool, true, false, Option, none, some, List, [], ◌∷◌, arith, inl,
  inr, Bool-cases, Option-cases, is_empty, length, str_eq,
}
use rustium.Common.Int.{pos}
use rustium.Core.Error.{Error, Result, ok, err, cancelled}
use rustium.Core.Position.{SourcePosition}
use rustium.Core.Event.{
  ConnectorIdentity, ChangeEvent, EncodedEvent, SourceRecord, Checkpoint, RecordBoundary,
  data_record, transaction_commit, snapshot_complete, heartbeat,
}
use rustium.Runtime.World.{
  RuntimeConfig, Env, World, Outcome, done, fail, out_of_fuel, M, continue, lift, starting,
  streaming, ◌>>=◌,
}
use rustium.Runtime.Retry.Bounds.{
  write_sink_with_retry-Backs, flush_sink_with_retry-Backs, validate_sink_with_retry-Backs,
}
use rustium.Runtime.Retry.{validate_sink_with_retry}
use rustium.Runtime.Flush.{
  transition, after_write, deliver, after_save, save_checkpoint, send_ack, flush_at, flush_batch,
}
use rustium.Runtime.Consume.{
  moved_backwards, extend_batch, encode_event, absorb_record, flush_if, at_boundary, consume_record,
}
use rustium.Runtime.Shutdown.{ignore_cancelled, conclude, shut_down, note_failure}
use rustium.Runtime.Run.{
  Round, cancellation, tick, channel_closed, record_arrived, source_failed, on_record,
  pipeline_loop, pipeline, check_fingerprint, restore, resume, run_inner, run,
}

-- The call did not run out of fuel.
pub record Answers {A : Type 0} (x : Outcome A × World) : Type 0 where
  pub answers : x.0 ≢ out_of_fuel

answered : {A : Type 0} {a : A} {w : World} → Answers (done a, w)
answered = record { answers = λ e. cc }

failed_with : {A : Type 0} {e : Error} {w : World} → Answers {A = A} (fail e, w)
failed_with = record { answers = λ e. cc }

Answers-continue :
    {A B : Type 0} (o : Outcome A) (f : A → M B) (w : World)
    → o ≢ out_of_fuel
    → ((a : A) (v : World) → Answers (f a v))
    → Answers (continue o f w)
Answers-continue (done a) f w h next = next a w
Answers-continue (fail e) f w h next = failed_with
Answers-continue out_of_fuel f w h next = absurd (h refl)

Answers-bind :
    {A B : Type 0} (m : M A) (f : A → M B) (w : World)
    → Answers (m w)
    → ((a : A) (v : World) → Answers (f a v))
    → Answers ((m >>= f) w)
Answers-bind m f w h next = Answers-continue (m w).0 f (m w).1 h.answers next

Answers-lift : {A : Type 0} (r : Result A) (w : World) → Answers (lift r w)
Answers-lift (ok a) w = answered
Answers-lift (err e) w = failed_with

after_write-Answers :
    (n : ℕ) (o : Outcome (Unit {0})) (w : World) → o ≢ out_of_fuel → Answers (after_write n (o, w))
unfolding after_write
after_write-Answers n (done _) w h = answered
after_write-Answers n (fail cancelled) w h = failed_with
after_write-Answers n (fail e) w h = failed_with
after_write-Answers n out_of_fuel w h = absurd (h refl)

after_save-Answers :
    (c : Checkpoint) (r : Result (Unit {0})) (w : World) → Answers (after_save c r w)
unfolding after_save
after_save-Answers c (ok _) w = answered
after_save-Answers c (err e) w = failed_with

send_ack-Answers : (env : Env) (p : SourcePosition) (w : World) → Answers (send_ack env p w)
unfolding send_ack
send_ack-Answers env p w = elim (Bool-cases (env.ack_receiver_alive w.trace)) [
  | inl e ↦ rw e answered
  | inr e ↦ rw e failed_with
]

extend_batch-Answers :
    (event : ChangeEvent) (r : Result (List EncodedEvent)) (w : World)
    → Answers (extend_batch event r w)
unfolding extend_batch
extend_batch-Answers event (ok events) w = answered
extend_batch-Answers event (err e) w = failed_with

encode_event-Answers :
    (env : Env) (event : Option ChangeEvent) (w : World) → Answers (encode_event env event w)
unfolding encode_event
encode_event-Answers env none w = answered
encode_event-Answers env (some event) w = extend_batch-Answers event _ _

check_fingerprint-Answers :
    (config : RuntimeConfig) (c : Option Checkpoint) (w : World)
    → Answers (check_fingerprint config c w)
unfolding check_fingerprint
check_fingerprint-Answers config none w = answered
check_fingerprint-Answers config (some c) w =
    elim (Bool-cases (str_eq c.config_fingerprint config.config_fingerprint)) [
      | inl e ↦ rw e answered
      | inr e ↦ rw e failed_with
    ]

conclude-Answers :
    (env : Env) (o : Outcome (Unit {0})) (stop shutdown : Result (Unit {0})) (w : World)
    → o ≢ out_of_fuel
    → Answers (conclude env o stop shutdown w)
unfolding conclude
conclude-Answers env (done _) (ok _) (ok _) w h = answered
conclude-Answers env (done _) (ok _) (err e) w h = failed_with
conclude-Answers env (done _) (err e) shutdown w h = failed_with
conclude-Answers env (fail e) stop shutdown w h = failed_with
conclude-Answers env out_of_fuel stop shutdown w h = absurd (h refl)

ignore_cancelled-ne :
    (b : Bool) (o : Outcome (Unit {0})) → o ≢ out_of_fuel → ignore_cancelled b o ≢ out_of_fuel
unfolding ignore_cancelled
ignore_cancelled-ne b o h = ground arith

shut_down-Answers :
    (env : Env) (x : Outcome (Unit {0}) × World) → Answers x → Answers (shut_down env x)
unfolding shut_down
shut_down-Answers env (r, w) h =
    conclude-Answers env _ _ _ _ (ignore_cancelled-ne (env.is_cancelled w.trace) r h.answers)

note_failure-ne :
    (env : Env) (o : Outcome (Unit {0})) (w : World)
    → o ≢ out_of_fuel
    → (note_failure env (o, w)).0 ≢ out_of_fuel
unfolding note_failure
note_failure-ne env (done _) w h = λ e. cc
note_failure-ne env (fail cancelled) w h = λ e. cc
note_failure-ne env (fail x) w h = λ e. cc
note_failure-ne env out_of_fuel w h = h

module _ (env : Env) (config : RuntimeConfig) (identity : ConnectorIdentity) (limit fuel : ℕ)
    (policy : config.errors_max_retries ≡ pos limit) (is_u64 : limit < 2 ^ 64)
    (enough : limit < fuel) where
  deliver-Answers : (p : SourcePosition) (w : World) → Answers (deliver env config fuel p w)
  unfolding deliver
  deliver-Answers p w = elim (Bool-cases (is_empty w.pending.encoded)) [
    | inl e ↦ rw e answered
    | inr e ↦ rw e (
        after_write-Answers (length w.pending.encoded) _ _
          (write_sink_with_retry-Backs env config limit fuel policy is_u64 enough _ _).answers)
  ]

  flush_at-Answers :
      (p : SourcePosition) (w : World) → Answers (flush_at env config identity fuel p w)
  unfolding flush_at save_checkpoint
  flush_at-Answers p w =
      Answers-bind (deliver env config fuel p) _
        (record w { pending = record w.pending { highest_position = none } }) (deliver-Answers p _)
        λ _ v.
          Answers-bind (save_checkpoint env config identity p) _ v (after_save-Answers _ _ v)
            λ _ u. Answers-bind (send_ack env p) _ u (send_ack-Answers env p u) λ _ t. answered

  flush_batch-Answers : (w : World) → Answers (flush_batch env config identity fuel w)
  unfolding flush_batch
  flush_batch-Answers w = elim (Option-cases w.pending.highest_position) [
    | inl e ↦ rw (e, flush_batch) answered
    | inr (p, e) ↦ rw (e, flush_batch) (flush_at-Answers p w)
  ]

  flush_if-Answers : (b : Bool) (w : World) → Answers (flush_if env config identity fuel b w)
  flush_if-Answers true w = flush_batch-Answers w
  flush_if-Answers false w = answered

  at_boundary-Answers :
      (b : RecordBoundary) (w : World) → Answers (at_boundary env config identity fuel b w)
  unfolding at_boundary
  at_boundary-Answers data_record w = flush_if-Answers _ w
  at_boundary-Answers transaction_commit w = flush_batch-Answers w
  at_boundary-Answers snapshot_complete w = flush_batch-Answers _
  at_boundary-Answers heartbeat w = flush_if-Answers _ w

  consume_record-Answers :
      (r : SourceRecord) (w : World) → Answers (consume_record env config identity fuel r w)
  unfolding consume_record
  consume_record-Answers r w =
      elim (Bool-cases (moved_backwards w.pending.highest_position r.position)) [
        | inl e ↦ rw e failed_with
        | inr e ↦ rw e (
            Answers-bind (encode_event env r.event) _ w (encode_event-Answers env r.event w)
              λ _ v. at_boundary-Answers r.boundary (absorb_record r v))
      ]

  on_record-Answers :
      (r : SourceRecord) (depth : ℕ) (w : World)
      → Answers (on_record env config identity fuel r depth w)
  unfolding on_record
  on_record-Answers r depth w = consume_record-Answers r _

  pipeline_loop-Answers :
      (rounds : List Round) (w : World) → Answers (pipeline_loop env config identity fuel rounds w)
  unfolding pipeline_loop
  pipeline_loop-Answers [] w = answered
  pipeline_loop-Answers (cancellation ∷ rounds) w = answered
  pipeline_loop-Answers (channel_closed ∷ rounds) w = answered
  pipeline_loop-Answers (source_failed e ∷ rounds) w = failed_with
  pipeline_loop-Answers (tick ∷ rounds) w =
      Answers-bind (flush_batch env config identity fuel)
        (λ _. pipeline_loop env config identity fuel rounds) w (flush_batch-Answers w)
        λ _ v. pipeline_loop-Answers rounds v
  pipeline_loop-Answers (record_arrived r depth ∷ rounds) w =
      Answers-bind (on_record env config identity fuel r depth)
        (λ _. pipeline_loop env config identity fuel rounds) w (on_record-Answers r depth w)
        λ _ v. pipeline_loop-Answers rounds v

  pipeline-Answers :
      (rounds : List Round) (w : World) → Answers (pipeline env config identity fuel rounds w)
  unfolding pipeline
  pipeline-Answers rounds w =
      Answers-bind (pipeline_loop env config identity fuel rounds) _
        (transition env streaming none w) (pipeline_loop-Answers rounds _)
        λ _ v.
          Answers-bind (flush_batch env config identity fuel) _ v (flush_batch-Answers v) λ _ u.
            record {
              answers =
                  (flush_sink_with_retry-Backs env config limit fuel policy is_u64 enough
                    u).answers;
            }

  resume-Answers :
      (rounds : List Round) (checkpoint : Option Checkpoint) (w : World)
      → Answers (resume env config identity fuel rounds checkpoint w)
  unfolding resume
  resume-Answers rounds checkpoint w =
      Answers-bind (check_fingerprint config checkpoint) _ w
        (check_fingerprint-Answers config checkpoint w)
        λ _ v.
          shut_down-Answers env (pipeline env config identity fuel rounds (restore checkpoint v))
            (pipeline-Answers rounds (restore checkpoint v))

  validate-Answers : (w : World) → Answers (validate_sink_with_retry env config fuel w)
  validate-Answers w = record {
    answers = (validate_sink_with_retry-Backs env config limit fuel policy is_u64 enough w).answers;
  }

  run_inner-Answers :
      (rounds : List Round) (w : World) → Answers (run_inner env config identity fuel rounds w)
  unfolding run_inner
  run_inner-Answers rounds w =
      Answers-bind (lift env.source_validate) _ (transition env starting none w)
        (Answers-lift env.source_validate _)
        λ _ v.
          Answers-bind (validate_sink_with_retry env config fuel) _ v (validate-Answers v) λ _ u.
            Answers-bind (λ t. lift (env.store_load t.trace) t) _ u
              (Answers-lift (env.store_load u.trace) u)
              λ checkpoint t. resume-Answers rounds checkpoint t

  -- Where the retries are limited to a number below 2^64 and the fuel is above it, a run ends,
  -- normally or with an error, whatever the rounds, the environment and the state it starts from.
  pub run-Answers :
      (rounds : List Round) (w : World) → (run env config identity fuel rounds w).0 ≢ out_of_fuel
  unfolding run
  run-Answers rounds w = note_failure-ne env _ _ (run_inner-Answers rounds w).answers
