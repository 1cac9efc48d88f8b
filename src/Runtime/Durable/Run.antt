-- ===== src/Runtime/Durable/Run.antt =====
-- crates/rustium-core/src/runtime.rs: the contract over whole runs of the connector.
use rustium.Common.{ℕ, ◌≡◌, refl, inl, inr, Option, none, some, List, [], arith, Bool-cases, str_eq}
use rustium.Core.Error.{Result, ok, err, cancelled}
use rustium.Core.Event.{ConnectorIdentity, Checkpoint}
use rustium.Runtime.World.{
  RuntimeConfig, RetryState, Env, World, Outcome, done, fail, out_of_fuel, M, continue, lift,
  starting, ◌>>=◌,
}
use rustium.Runtime.Ends.{Ends, Attempts, Ends-mono, Ends-same, retry_loop-Ends}
use rustium.Runtime.Retry.{wait_for_sink_retry, sink_validate, validate_sink_with_retry}
use rustium.Runtime.Flush.{transition}
use rustium.Runtime.Run.{
  Round, pipeline, check_fingerprint, restore, resume, run_inner, run, initial,
}
use rustium.Runtime.Shutdown.{
  ignore_cancelled, conclude, note_stopping, stop_all, shut_down, note_failure,
}
use rustium.Runtime.Durable.{
  consumed, delivered, last_received, last_saved, IsDurable, Inv, Flushed,
}
use rustium.Runtime.Durable.Flush.{Durable}
use rustium.Runtime.Durable.Loop.{pipeline-Ends}

-- Nothing was received, delivered or saved yet.
record Fresh (env : Env) (w : World) : Type 0 where
  durable : IsDurable env w.trace
  consumed_none : consumed env w.trace ≡ []
  delivered_none : delivered w.trace ≡ []
  received_none : last_received w.trace ≡ none
  saved_none : last_saved w.trace ≡ none

wait-Fresh :
    (env : Env) (config : RuntimeConfig) (r : RetryState) (w : World)
    → Fresh env w
    → Fresh env (wait_for_sink_retry env config r w).1
unfolding wait_for_sink_retry
wait-Fresh env config r w h = ground arith

validate-Fresh :
    (env : Env) (w : World) → Fresh env w → Attempts (Fresh env) (Fresh env) (sink_validate env w)
unfolding sink_validate
validate-Fresh env w h = ground arith

started-Fresh : (env : Env) (w : World) → Fresh env w → Fresh env (transition env starting none w)
unfolding transition
started-Fresh env w h = ground arith

restore-Inv :
    (env : Env) (checkpoint : Option Checkpoint) (w : World)
    → Fresh env w
    → Inv env (restore checkpoint w)
unfolding restore
restore-Inv env none w h = ground arith
restore-Inv env (some checkpoint) w h = ground arith

-- The contract after a call, however it ended.
record Stays (env : Env) (x : Outcome (Unit {0}) × World) : Type 0 where
  durable : Durable env x.1

Stays-continue :
    (env : Env) {A : Type 0} (o : Outcome A) (f : A → M (Unit {0})) (w : World)
    → Durable env w
    → ((a : A) → Stays env (f a w))
    → Stays env (continue o f w)
Stays-continue env (done a) f w h next = next a
Stays-continue env (fail e) f w h next = record { durable = h }
Stays-continue env out_of_fuel f w h next = record { durable = h }

Stays-bind :
    (env : Env) {A : Type 0} (m : M A) (f : A → M (Unit {0})) (w : World)
    → Durable env (m w).1
    → ((a : A) → Stays env (f a (m w).1))
    → Stays env ((m >>= f) w)
Stays-bind env m f w h next = Stays-continue env (m w).0 f (m w).1 h next

Stays-lift :
    (env : Env) {A : Type 0} (r : Result A) (f : A → M (Unit {0})) (w : World)
    → Durable env w
    → ((a : A) → Stays env (f a w))
    → Stays env ((lift r >>= f) w)
Stays-lift env (ok a) f w h next = next a
Stays-lift env (err e) f w h next = record { durable = h }

conclude-Durable :
    (env : Env) (o : Outcome (Unit {0})) (stop shutdown : Result (Unit {0})) (w : World)
    → Durable env w
    → Durable env (conclude env o stop shutdown w).1
unfolding conclude
conclude-Durable env (done _) (ok _) (ok _) w h = (tt, h)
conclude-Durable env (done _) (ok _) (err e) w h = h
conclude-Durable env (done _) (err e) shutdown w h = h
conclude-Durable env (fail e) stop shutdown w h = h
conclude-Durable env out_of_fuel stop shutdown w h = h

note_stopping-Durable :
    (env : Env) (o : Outcome (Unit {0})) (w : World)
    → Durable env w
    → Durable env (note_stopping env o w)
unfolding note_stopping
note_stopping-Durable env (done _) w h = (tt, h)
note_stopping-Durable env (fail e) w h = h
note_stopping-Durable env out_of_fuel w h = h

stop_all-Durable :
    (env : Env) (o : Outcome (Unit {0})) (w : World)
    → Durable env w
    → Durable env (stop_all env o w).1
unfolding stop_all
stop_all-Durable env o w h = conclude-Durable env o _ _ _ (tt, (tt, h))

shut_down-Durable :
    (env : Env) (x : Outcome (Unit {0}) × World) → Durable env x.1 → Durable env (shut_down env x).1
unfolding shut_down
shut_down-Durable env (r, w) h =
    let result = ignore_cancelled (env.is_cancelled w.trace) r in
    stop_all-Durable env result _ (note_stopping-Durable env result w h)

note_failure-Durable :
    (env : Env) (o : Outcome (Unit {0})) (w : World)
    → Durable env w
    → Durable env (note_failure env (o, w)).1
unfolding note_failure
note_failure-Durable env (done _) w h = h
note_failure-Durable env (fail cancelled) w h = h
note_failure-Durable env (fail e) w h = (tt, h)
note_failure-Durable env out_of_fuel w h = h

check_fingerprint-Fresh :
    (env : Env) (config : RuntimeConfig) (checkpoint : Option Checkpoint) (w : World)
    → Fresh env w
    → Fresh env (check_fingerprint config checkpoint w).1
unfolding check_fingerprint
check_fingerprint-Fresh env config none w h = h
check_fingerprint-Fresh env config (some checkpoint) w h =
    elim (Bool-cases (str_eq checkpoint.config_fingerprint config.config_fingerprint)) [
      | inl e ↦ rw e h
      | inr e ↦ rw e h
    ]

Ends-Durable :
    (env : Env) (x : Outcome (Unit {0}) × World)
    → Ends (Durable env) (Flushed env) x
    → Durable env x.1
Ends-Durable env x h = Ends-same x (Ends-mono x (λ w d. d) (λ w f. f.durable) h)

module _ (env : Env) (config : RuntimeConfig) (identity : ConnectorIdentity) (fuel : ℕ) where
  resume-Stays :
      (rounds : List Round) (checkpoint : Option Checkpoint) (w : World)
      → Fresh env w
      → Stays env (resume env config identity fuel rounds checkpoint w)
  unfolding resume
  resume-Stays rounds checkpoint w h =
      let f = check_fingerprint-Fresh env config checkpoint w h in
      Stays-bind env (check_fingerprint config checkpoint) _ w f.durable λ _.
        let v = restore checkpoint (check_fingerprint config checkpoint w).1 in
        let x = pipeline env config identity fuel rounds v in
        let inv = restore-Inv env checkpoint (check_fingerprint config checkpoint w).1 f in
        record {
          durable =
              shut_down-Durable env x
                (Ends-Durable env x (pipeline-Ends env config identity fuel rounds v inv));
        }

  validate_sink-Fresh :
      (w : World) → Fresh env w → Fresh env (validate_sink_with_retry env config fuel w).1
  unfolding validate_sink_with_retry
  validate_sink-Fresh w h = Ends-same _ (
      retry_loop-Ends env config (Fresh env) (Fresh env) (sink_validate env) (validate-Fresh env)
        (wait-Fresh env config) fuel _ w h)

  run_inner-Stays :
      (rounds : List Round) (w : World)
      → Fresh env w
      → Stays env (run_inner env config identity fuel rounds w)
  unfolding run_inner
  run_inner-Stays rounds w h =
      let started = started-Fresh env w h in
      Stays-lift env env.source_validate _ (transition env starting none w) started.durable λ _.
        let v = (validate_sink_with_retry env config fuel (transition env starting none w)).1 in
        let ready = validate_sink-Fresh (transition env starting none w) started in
        Stays-bind env (validate_sink_with_retry env config fuel) _ (transition env starting none w)
          ready.durable
          λ _.
            Stays-lift env (env.store_load v.trace) _ v ready.durable
              λ checkpoint. resume-Stays rounds checkpoint v ready

-- In every run from the initial state, whatever the sink, the store, the encoder, the source and
-- the rounds of the loop do: a checkpoint is saved only when the sink has accepted exactly the
-- encoded events of all records received, in order, and it holds the position of the last one; a
-- position is acknowledged to the source only when moreover that position is the last one saved; a
-- signal is acknowledged only when all received events are delivered and the last position received
-- is saved.
pub run-IsDurable :
    (env : Env) (config : RuntimeConfig) (identity : ConnectorIdentity) (fuel now : ℕ)
    → (rounds : List Round)
    → IsDurable env (run env config identity fuel rounds (initial identity.name now)).1.trace
unfolding run initial
run-IsDurable env config identity fuel now rounds =
    note_failure-Durable env _ _
      (run_inner-Stays env config identity fuel rounds (initial identity.name now) (record {
        durable = tt;
        consumed_none = refl;
        delivered_none = refl;
        received_none = refl;
        saved_none = refl;
      })).durable
