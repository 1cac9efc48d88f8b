-- ===== src/Runtime/Run/Status.antt =====
-- crates/rustium-core/src/runtime.rs: the state that a run leaves the connector in.
use rustium.Common.{ℕ, ◌≡◌, refl, none, some, Option, List}
use rustium.Core.Error.{Result, ok, err, cancelled}
use rustium.Core.Event.{ConnectorIdentity, Checkpoint}
use rustium.Runtime.World.{
  RuntimeConfig, starting, stopped, failed, Env, World, Outcome, done, fail, out_of_fuel, M, ◌>>=◌,
  continue, lift,
}
use rustium.Runtime.Retry.{validate_sink_with_retry}
use rustium.Runtime.Flush.{transition}
use rustium.Runtime.Shutdown.{conclude, stop_all, shut_down, note_failure}
use rustium.Runtime.Run.{Round, pipeline, check_fingerprint, restore, resume, run_inner, run}

-- A normal end leaves the connector stopped, and an error other than a cancellation leaves it
-- failed with that error as the reason.
abbrev pub Final : Outcome (Unit {0}) × World → Type 0
Final (done _, w) = w.status.state ≡ stopped
Final (fail cancelled, w) = Unit
Final (fail e, w) = (w.status.state ≡ failed) × (w.status.state_reason ≡ some e)
Final (out_of_fuel, w) = Unit

-- A normal end leaves the connector stopped.
abbrev pub Stopped : Outcome (Unit {0}) × World → Type 0
Stopped (done _, w) = w.status.state ≡ stopped
Stopped (fail e, w) = Unit
Stopped (out_of_fuel, w) = Unit

Stopped-continue :
    {A : Type 0}
    → (x : Outcome A × World) (next : A → M (Unit {0})) → ((a : A) (v : World) → Stopped (next a v))
    → Stopped (continue x.0 next x.1)
Stopped-continue (done a, v) next h = h a v
Stopped-continue (fail e, v) next h = tt
Stopped-continue (out_of_fuel, v) next h = tt

Stopped-bind :
    {A : Type 0}
    → (m : M A) (next : A → M (Unit {0})) (w : World) → ((a : A) (v : World) → Stopped (next a v))
    → Stopped ((m >>= next) w)
Stopped-bind m next w h = Stopped-continue (m w) next h

conclude-Stopped :
    (env : Env) (r : Outcome (Unit {0})) (stop shutdown : Result (Unit {0})) (w : World)
    → Stopped (conclude env r stop shutdown w)
unfolding conclude transition
conclude-Stopped env (done _) (ok _) (ok _) w = refl
conclude-Stopped env (done _) (ok _) (err e) w = tt
conclude-Stopped env (done _) (err e) shutdown w = tt
conclude-Stopped env (fail e) stop shutdown w = tt
conclude-Stopped env out_of_fuel stop shutdown w = tt

shut_down-Stopped : (env : Env) (x : Outcome (Unit {0}) × World) → Stopped (shut_down env x)
unfolding shut_down stop_all
shut_down-Stopped env (r, w) = conclude-Stopped env _ _ _ _

note_failure-Final :
    (env : Env) (x : Outcome (Unit {0}) × World) → Stopped x → Final (note_failure env x)
unfolding note_failure transition
note_failure-Final env (done _, w) h = h
note_failure-Final env (fail cancelled, w) h = tt
note_failure-Final env (fail e, w) h = (refl, refl)
note_failure-Final env (out_of_fuel, w) h = tt

module _ (env : Env) (config : RuntimeConfig) (identity : ConnectorIdentity) (fuel : ℕ) where
  resume-Stopped :
      (rounds : List Round) (checkpoint : Option Checkpoint) (w : World)
      → Stopped (resume env config identity fuel rounds checkpoint w)
  unfolding resume
  resume-Stopped rounds checkpoint w =
      Stopped-bind (check_fingerprint config checkpoint) _ w λ _ v.
        shut_down-Stopped env (pipeline env config identity fuel rounds (restore checkpoint v))

  run_inner-Stopped :
      (rounds : List Round) (w : World) → Stopped (run_inner env config identity fuel rounds w)
  unfolding run_inner
  run_inner-Stopped rounds w =
      Stopped-bind (lift env.source_validate) _ (transition env starting none w) λ _ v.
        Stopped-bind (validate_sink_with_retry env config fuel) _ v λ _ u.
          Stopped-bind (λ t. lift (env.store_load t.trace) t) _ u
            λ checkpoint t. resume-Stopped rounds checkpoint t

  -- A run that ends normally leaves the connector in the state stopped, and a run that ends with an
  -- error other than a cancellation leaves it in the state failed with that error as the reason.
  pub run-Final : (rounds : List Round) (w : World) → Final (run env config identity fuel rounds w)
  unfolding run
  run-Final rounds w = note_failure-Final env _ (run_inner-Stopped rounds w)
