-- ===== src/Runtime/Retry/Exhausted.antt =====
-- crates/rustium-core/src/runtime.rs: a sink whose retryable errors never end.
use rustium.Common.{
  ℕ, zero, suc, ◌+◌, ◌^◌, ◌<◌, ◌≤◌, ◌≡◌, refl, ◌∙◌, inl, inr, true, false, Bool-cases, List, ◌++◌,
  arith, String,
}
use rustium.Common.Int.{pos}
use rustium.Core.Error.{Error, Result, err, retryable_sink}
use rustium.Core.Event.{DeliveryBatch}
use rustium.Runtime.World.{RuntimeConfig, RetryState, Action, Env, World, Outcome, fail, M}
use rustium.Runtime.Retry.{
  retries_exhausted, after_attempt, retry_loop, sink_write, write_sink_with_retry,
}
use rustium.Runtime.Retry.Bounds.{sleeps, backoff, At, sleep-At, start-At, sink_write-quiet}

-- The call gave up with the sink's error, after the whole budget of sleeps.
pub record GivesUp (config : RuntimeConfig) (limit : ℕ) (m : String) (w₀ : World)
    (x : Outcome (Unit {0}) × World) : Type 0 where
  pub outcome : x.0 ≡ fail (retryable_sink m)
  pub slept_for :
      sleeps x.1.trace
      ≡ backoff config.errors_retry_delay_initial config.errors_retry_delay_max limit
        ++ sleeps w₀.trace

module _ (env : Env) (config : RuntimeConfig) (limit : ℕ)
    (policy : config.errors_max_retries ≡ pos limit) (is_u64 : limit < 2 ^ 64)
    (running : (t : List Action) → env.cancelled_while_waiting t ≡ false) where
  -- What a failed attempt leads to: the error, or the next attempt.
  exhausted_at_limit :
      (attempts : ℕ)
      → retries_exhausted config.errors_max_retries attempts ≡ true
      → attempts ≤ limit
      → attempts ≡ limit
  unfolding retries_exhausted
  exhausted_at_limit attempts e h = ground arith

  step-GivesUp :
      (w₀ : World) (again : RetryState → M (Unit {0})) (r : RetryState) (m : String) (w : World)
      → At env config limit policy is_u64 w₀ r w
      → ((r' : RetryState) (v : World)
          → At env config limit policy is_u64 w₀ r' v
          → r'.attempts ≡ suc r.attempts
          → GivesUp config limit m w₀ (again r' v))
      → GivesUp config limit m w₀ (after_attempt env config again r (err (retryable_sink m)) w)
  unfolding after_attempt
  step-GivesUp w₀ again r m w h next =
      elim (Bool-cases (retries_exhausted config.errors_max_retries r.attempts)) [
        | inl spent ↦
            let e = exhausted_at_limit r.attempts spent h.within in
            rw spent (record { outcome = refl; slept_for = rw (← e) h.slept_for })
        | inr left ↦
            let k = sleep-At env config limit policy is_u64 w₀ r w h left in
            rw (left, running w.trace) (next _ _ k.0 k.1)
      ]

  module _ (attempt : World → Result (Unit {0}) × World) (m : String)
      (fails : (w : World) → (attempt w).0 ≡ err (retryable_sink m))
      (quiet : (w : World) → sleeps (attempt w).1.trace ≡ sleeps w.trace) where
    retry_loop-GivesUp :
        (w₀ : World) (fuel : ℕ) (r : RetryState) (w : World)
        → limit < fuel + r.attempts
        → At env config limit policy is_u64 w₀ r w
        → GivesUp config limit m w₀ (retry_loop env config attempt fuel r w)
    unfolding retry_loop
    retry_loop-GivesUp w₀ zero r w enough h = absurd (omega (arith, h.within))
    retry_loop-GivesUp w₀ (suc fuel) r w enough h = rw (fails w) (
        step-GivesUp w₀ _ r m (attempt w).1
          (record { within = h.within; delay_is = h.delay_is; slept_for = quiet w ∙ h.slept_for })
          (λ r' v k e. retry_loop-GivesUp w₀ fuel r' v (omega arith) k))

sink_write-err :
    (env : Env) (batch : DeliveryBatch) (e : Error) (w : World)
    → env.sink_write w.trace batch ≡ err e
    → (sink_write env batch w).0 ≡ err e
unfolding sink_write
sink_write-err env batch e w h = h

-- Where the retries are limited to a number below 2^64 and the fuel is above it, the wait is never
-- cancelled and the sink answers every write of a batch with the same retryable error, a write
-- under the retry policy sleeps exactly the limit of times, for the delays of the policy in order,
-- and then fails with that error.
pub write_sink_with_retry-GivesUp :
    (env : Env) (config : RuntimeConfig) (limit fuel : ℕ) (batch : DeliveryBatch) (m : String)
    (w : World)
    → config.errors_max_retries ≡ pos limit
    → limit < 2 ^ 64
    → limit < fuel
    → ((t : List Action) → env.cancelled_while_waiting t ≡ false)
    → ((t : List Action) → env.sink_write t batch ≡ err (retryable_sink m))
    → GivesUp config limit m w (write_sink_with_retry env config fuel batch w)
unfolding write_sink_with_retry
write_sink_with_retry-GivesUp env config limit fuel batch m w policy is_u64 enough running fails =
    retry_loop-GivesUp env config limit policy is_u64 running (sink_write env batch) m
      (λ v. sink_write-err env batch (retryable_sink m) v (fails v.trace))
      (sink_write-quiet env batch) w fuel _ w (omega arith)
      (start-At env config limit policy is_u64 w)
