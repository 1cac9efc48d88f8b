-- ===== src/Runtime/Retry.antt =====
-- crates/rustium-core/src/runtime.rs: the sink's operations under the retry policy.
pub mod Bounds
pub mod Exhausted
use rustium.Common.{
  ℕ, zero, suc, ◌+◌, ◌*◌, ◌%◌, ◌^◌, min, Bool, true, false, ◌∷◌, leb, if◌then◌else◌,
}
use rustium.Common.Int.{ℤ, pos, negsuc}
use rustium.Core.Error.{Error, Result, ok, err, retryable_sink, cancelled}
use rustium.Core.Event.{DeliveryBatch}
use rustium.Runtime.World.{
  RuntimeConfig, RetryState, new_retry, max_duration, Action, sink_validated, sink_flushed, wrote,
  write_failed, slept, Env, World, Outcome, done, fail, out_of_fuel, M, ◌>>=◌, pure, raise, log,
  add_u64,
}

-- `errors_max_retries >= 0 && attempts >= errors_max_retries as u64`.
unfoldable pub retries_exhausted : ℤ → ℕ → Bool
retries_exhausted (pos limit) attempts = leb limit attempts
retries_exhausted (negsuc n) attempts = false

-- `delay.saturating_mul(2).min(limit)`.
unfoldable pub next_delay : ℕ → ℕ → ℕ
next_delay delay limit = min (min (delay * 2) max_duration) limit

unfoldable pub increment_sink_retry_attempts : World → World
increment_sink_retry_attempts w = record w {
  status = record w.status { sink_retry_attempts = add_u64 w.status.sink_retry_attempts 1 };
}

module _ (env : Env) where
  unfoldable pub sink_validate : World → Result (Unit {0}) × World
  sink_validate w = let r = env.sink_validate w.trace in (r, log (sink_validated r) w)

  unfoldable pub sink_flush : World → Result (Unit {0}) × World
  sink_flush w = let r = env.sink_flush w.trace in (r, log (sink_flushed r) w)

  abbrev pub write_action : DeliveryBatch → Result (Unit {0}) → Action
  write_action batch (ok _) = wrote batch
  write_action batch (err e) = write_failed batch e

  unfoldable pub sink_write : DeliveryBatch → World → Result (Unit {0}) × World
  sink_write batch w = let r = env.sink_write w.trace batch in (r, log (write_action batch r) w)

-- What follows a failed attempt: another one, or the error.
unfoldable pub after_wait : (RetryState → M (Unit {0})) → Error → Bool × RetryState → M (Unit {0})
after_wait again e (true, retry) = again retry
after_wait again e (false, retry) = raise e

module _ (env : Env) (config : RuntimeConfig) where
  -- `false` is a spent retry budget; `true` comes with the retry state for the next attempt.
  unfoldable pub wait_for_sink_retry : RetryState → M (Bool × RetryState)
  unfolding retries_exhausted next_delay increment_sink_retry_attempts
  wait_for_sink_retry retry w =
      if retries_exhausted config.errors_max_retries retry.attempts
      then (done (false, retry), w)
      else let w' = increment_sink_retry_attempts w in
        if env.cancelled_while_waiting w'.trace then (fail cancelled, w') else (
          done (
            true,
            record {
              attempts = add_u64 retry.attempts 1;
              delay = next_delay retry.delay config.errors_retry_delay_max;
            },
          ),
          log (slept retry.delay) w',
        )

  unfoldable pub after_attempt :
      (RetryState → M (Unit {0})) → RetryState → Result (Unit {0}) → M (Unit {0})
  unfolding wait_for_sink_retry after_wait
  after_attempt again retry (ok _) = pure tt
  after_attempt again retry (err (retryable_sink m)) =
      wait_for_sink_retry retry >>= after_wait again (retryable_sink m)
  after_attempt again retry (err e) = raise e

  -- `loop { match attempt { ... } }`, with fuel for the attempts.
  unfoldable pub retry_loop : (World → Result (Unit {0}) × World) → ℕ → RetryState → M (Unit {0})
  unfolding after_attempt
  retry_loop attempt zero retry w = (out_of_fuel, w)
  retry_loop attempt (suc fuel) retry w =
      let (r, w') = attempt w in after_attempt (λ next. retry_loop attempt fuel next) retry r w'

  unfoldable pub validate_sink_with_retry : ℕ → M (Unit {0})
  unfolding retry_loop sink_validate new_retry
  validate_sink_with_retry fuel =
      retry_loop (sink_validate env) fuel (new_retry config.errors_retry_delay_initial)

  unfoldable pub write_sink_with_retry : ℕ → DeliveryBatch → M (Unit {0})
  unfolding retry_loop sink_write new_retry
  write_sink_with_retry fuel batch =
      retry_loop (sink_write env batch) fuel (new_retry config.errors_retry_delay_initial)

  unfoldable pub flush_sink_with_retry : ℕ → M (Unit {0})
  unfolding retry_loop sink_flush new_retry
  flush_sink_with_retry fuel =
      retry_loop (sink_flush env) fuel (new_retry config.errors_retry_delay_initial)
