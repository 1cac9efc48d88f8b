-- ===== src/Runtime/Ends.antt =====
-- How a call of the runtime can end: a rule for sequences of calls and one for the retry loop.
use rustium.Common.{ℕ, zero, suc, ◌≡◌, Bool, true, false}
use rustium.Core.Error.{Error, Result, ok, err, retryable_sink}
use rustium.Runtime.World.{
  RuntimeConfig, RetryState, Env, World, Outcome, done, fail, out_of_fuel, M, continue, ◌>>=◌,
}
use rustium.Runtime.Retry.{wait_for_sink_retry, after_wait, after_attempt, retry_loop}

abbrev pub EndsAs : (World → Type 0) → (World → Type 0) → Outcome (Unit {0}) → World → Type 0
EndsAs P Q (done _) w = Q w
EndsAs P Q (fail e) w = P w
EndsAs P Q out_of_fuel w = P w

-- `Q` after a normal return, `P` otherwise.
pub record Ends (P Q : World → Type 0) (x : Outcome (Unit {0}) × World) : Type 0 where
  pub ends : EndsAs P Q x.0 x.1

pub returns : {P Q : World → Type 0} {w : World} → Q w → Ends P Q (done tt, w)
returns h = record { ends = h }

pub fails : {P Q : World → Type 0} {e : Error} {w : World} → P w → Ends P Q (fail e, w)
fails h = record { ends = h }

Ends-continue :
    {P Q R : World → Type 0} (f : Unit {0} → M (Unit {0})) (o : Outcome (Unit {0})) (w : World)
    → EndsAs P Q o w
    → ((v : World) → Q v → Ends P R (f tt v))
    → Ends P R (continue o f w)
Ends-continue f (done _) w h next = next w h
Ends-continue f (fail e) w h next = record { ends = h }
Ends-continue f out_of_fuel w h next = record { ends = h }

pub Ends-bind :
    {P Q R : World → Type 0} (m : M (Unit {0})) (f : Unit {0} → M (Unit {0})) (w : World)
    → Ends P Q (m w)
    → ((v : World) → Q v → Ends P R (f tt v))
    → Ends P R ((m >>= f) w)
Ends-bind m f w h next = Ends-continue f (m w).0 (m w).1 h.ends next

EndsAs-mono :
    (P Q R S : World → Type 0) (o : Outcome (Unit {0})) (w : World)
    → ((w : World) → P w → R w)
    → ((w : World) → Q w → S w)
    → EndsAs P Q o w
    → EndsAs R S o w
EndsAs-mono P Q R S (done _) w f g h = g w h
EndsAs-mono P Q R S (fail e) w f g h = f w h
EndsAs-mono P Q R S out_of_fuel w f g h = f w h

pub Ends-mono :
    {P Q R S : World → Type 0} (x : Outcome (Unit {0}) × World)
    → ((w : World) → P w → R w)
    → ((w : World) → Q w → S w)
    → Ends P Q x
    → Ends R S x
Ends-mono {P} {Q} {R} {S} x f g h = record { ends = EndsAs-mono P Q R S x.0 x.1 f g h.ends }

EndsAs-same : (P : World → Type 0) (o : Outcome (Unit {0})) (w : World) → EndsAs P P o w → P w
EndsAs-same P (done _) w h = h
EndsAs-same P (fail e) w h = h
EndsAs-same P out_of_fuel w h = h

pub Ends-same : {P : World → Type 0} (x : Outcome (Unit {0}) × World) → Ends P P x → P x.1
Ends-same {P} x h = EndsAs-same P x.0 x.1 h.ends

EndsAs-done :
    (P Q : World → Type 0) (o : Outcome (Unit {0})) (w : World) → EndsAs P Q o w → o ≡ done tt → Q w
EndsAs-done P Q (done _) w h e = h
EndsAs-done P Q (fail x) w h e = cc
EndsAs-done P Q out_of_fuel w h e = cc

pub Ends-done :
    {P Q : World → Type 0} (x : Outcome (Unit {0}) × World) → Ends P Q x → x.0 ≡ done tt → Q x.1
Ends-done {P} {Q} x h e = EndsAs-done P Q x.0 x.1 h.ends e

-- The rule for a retry loop: an attempt that fails and a wait keep `P`, and one that succeeds
-- reaches `Q`.
abbrev pub Attempts : (World → Type 0) → (World → Type 0) → Result (Unit {0}) × World → Type 0
Attempts P Q (ok _, w) = Q w
Attempts P Q (err e, w) = P w

module _ (env : Env) (config : RuntimeConfig) (P Q : World → Type 0)
    (attempt : World → Result (Unit {0}) × World)
    (attempt_keeps : (w : World) → P w → Attempts P Q (attempt w))
    (wait_keeps : (r : RetryState) (w : World)
      → P w
      → P (wait_for_sink_retry env config r w).1) where
  module _ (again : RetryState → M (Unit {0}))
      (again_ends : (r : RetryState) (w : World) → P w → Ends P Q (again r w)) where
    after_wait-Ends :
        (e : Error) (o : Outcome (Bool × RetryState)) (w : World)
        → P w
        → Ends P Q (continue o (after_wait again e) w)
    unfolding after_wait
    after_wait-Ends e (done (true, r)) w h = again_ends r w h
    after_wait-Ends e (done (false, r)) w h = record { ends = h }
    after_wait-Ends e (fail _) w h = record { ends = h }
    after_wait-Ends e out_of_fuel w h = record { ends = h }

    after_attempt-Ends :
        (r : RetryState) (x : Result (Unit {0})) (w : World)
        → Attempts P Q (x, w)
        → Ends P Q (after_attempt env config again r x w)
    unfolding after_attempt
    after_attempt-Ends r (ok _) w h = record { ends = h }
    after_attempt-Ends r (err (retryable_sink m)) w h =
        after_wait-Ends (retryable_sink m) _ _ (wait_keeps r w h)
    after_attempt-Ends r (err _) w h = record { ends = h }

  pub retry_loop-Ends :
      (fuel : ℕ) (r : RetryState) (w : World)
      → P w
      → Ends P Q (retry_loop env config attempt fuel r w)
  unfolding retry_loop
  retry_loop-Ends zero r w h = record { ends = h }
  retry_loop-Ends (suc fuel) r w h =
      after_attempt-Ends (λ next. retry_loop env config attempt fuel next) (retry_loop-Ends fuel) r
        (attempt w).0 (attempt w).1 (attempt_keeps w h)
