-- ===== src/Runtime/Retry/Bounds.antt =====
-- crates/rustium-core/src/runtime.rs: the attempts and delays of the retry policy.
use mathlib.Core.Path.{ap₂}
use native.Mathlib.Nat.{pow-suc, mul_assoc}
use rustium.Common.{
  ℕ, zero, suc, ◌+◌, ◌*◌, ◌^◌, ◌≤◌, ◌<◌, min, ◌≡◌, ◌≢◌, refl, ap, ◌∙◌, inl, inr, Bool-cases, Bool,
  true, false, List, [], ◌∷◌, ◌++◌, arith,
}
use rustium.Common.Int.{ℤ, pos}
use rustium.Core.Error.{Error, Result, ok, err, retryable_sink}
use rustium.Core.Event.{DeliveryBatch}
use rustium.Runtime.World.{
  RuntimeConfig, RetryState, new_retry, max_duration, Action, slept, Env, World, Outcome, done,
  fail, out_of_fuel, M, continue, log, add_u64,
}
use rustium.Runtime.Retry.{
  retries_exhausted, next_delay, increment_sink_retry_attempts, wait_for_sink_retry, after_wait,
  after_attempt, retry_loop, sink_write, sink_flush, sink_validate, write_sink_with_retry,
  flush_sink_with_retry, validate_sink_with_retry,
}

-- The delay before the `k`-th retry, counted from 0, as the loop computes it.
abbrev pub delay_of : ℕ → ℕ → ℕ → ℕ
delay_of initial limit zero = initial
delay_of initial limit (suc k) = next_delay (delay_of initial limit k) limit

doubled_min :
    (a limit : ℕ)
    → limit ≤ max_duration
    → min (min (min a limit * 2) max_duration) limit ≡ min (a * 2) limit
doubled_min a limit h = omega arith

-- Where the maximal delay is a duration, the delay before a retry other than the first is the
-- initial delay doubled once for each retry before it, capped at the maximum.
pub delay_of-eq-min :
    (initial limit k : ℕ)
    → limit ≤ max_duration
    → delay_of initial limit (suc k) ≡ min (initial * 2 ^ suc k) limit
unfolding next_delay
delay_of-eq-min initial limit zero h = rw (pow-suc 2 0) (omega arith)
delay_of-eq-min initial limit (suc k) h =
    rw (delay_of-eq-min initial limit k h, pow-suc 2 (suc k), ← mul_assoc initial (2 ^ suc k) 2)
      (doubled_min (initial * 2 ^ suc k) limit h)

-- The delays of a trace, newest first.
abbrev pub sleeps : List Action → List ℕ
sleeps [] = []
sleeps (slept d ∷ t) = d ∷ sleeps t
sleeps (_ ∷ t) = sleeps t

-- The first `k` delays, newest first.
abbrev pub backoff : ℕ → ℕ → ℕ → List ℕ
backoff initial limit zero = []
backoff initial limit (suc k) = delay_of initial limit k ∷ backoff initial limit k

-- The call ended, after at most `limit` sleeps, the first `count` of the policy.
pub record Backs (config : RuntimeConfig) (limit : ℕ) (w₀ : World) (x : Outcome (Unit {0}) × World)
    : Type 0 where
  pub answers : x.0 ≢ out_of_fuel
  pub count : ℕ
  pub bounded : count ≤ limit
  pub slept_for :
      sleeps x.1.trace
      ≡ backoff config.errors_retry_delay_initial config.errors_retry_delay_max count
        ++ sleeps w₀.trace

below_of_left :
    {max_retries : ℤ} {limit : ℕ}
    → max_retries ≡ pos limit
    → (attempts : ℕ) → retries_exhausted max_retries attempts ≡ false
    → attempts < limit
unfolding retries_exhausted
below_of_left e attempts h = ground arith

next_attempt :
    {attempts limit : ℕ} → attempts < limit → limit < 2 ^ 64 → add_u64 attempts 1 ≡ suc attempts
next_attempt h k = omega arith

module _ (env : Env) (config : RuntimeConfig) (limit : ℕ)
    (policy : config.errors_max_retries ≡ pos limit) (is_u64 : limit < 2 ^ 64) where
  -- A retry state that the loop can reach from `w₀` with the trace of `w`.
  pub record At (w₀ : World) (r : RetryState) (w : World) : Type 0 where
    pub within : r.attempts ≤ limit
    pub delay_is :
        r.delay
        ≡ delay_of config.errors_retry_delay_initial config.errors_retry_delay_max r.attempts
    pub slept_for :
        sleeps w.trace
        ≡ backoff config.errors_retry_delay_initial config.errors_retry_delay_max r.attempts
          ++ sleeps w₀.trace

  At-Backs :
      (w₀ : World) (r : RetryState) (w : World) (o : Outcome (Unit {0}))
      → At w₀ r w
      → o ≢ out_of_fuel
      → Backs config limit w₀ (o, w)
  At-Backs w₀ r w o h a = record {
    answers = a;
    count = r.attempts;
    bounded = h.within;
    slept_for = h.slept_for;
  }

  -- The state after the sleep that precedes the next attempt.
  pub sleep-At :
      (w₀ : World) (r : RetryState) (w : World)
      → At w₀ r w
      → retries_exhausted config.errors_max_retries r.attempts ≡ false
      → At w₀
          (record {
            attempts = add_u64 r.attempts 1;
            delay = next_delay r.delay config.errors_retry_delay_max;
          })
          (log (slept r.delay) (increment_sink_retry_attempts w))
        × (add_u64 r.attempts 1 ≡ suc r.attempts)
  unfolding increment_sink_retry_attempts
  sleep-At w₀ r w h left =
      let room = below_of_left policy r.attempts left in
      let e = next_attempt room is_u64 in
      rw e (
        record {
          within = room;
          delay_is = ap (λ d. next_delay d config.errors_retry_delay_max) h.delay_is;
          slept_for = ap₂ ◌∷◌ h.delay_is h.slept_for;
        },
        refl,
      )

  WaitedAs : World → RetryState → Outcome (Bool × RetryState) → World → Type 0
  WaitedAs w₀ r (done (true, r')) w = At w₀ r' w × (r'.attempts ≡ suc r.attempts)
  WaitedAs w₀ r (done (false, r')) w = At w₀ r w
  WaitedAs w₀ r (fail e) w = At w₀ r w
  WaitedAs w₀ r out_of_fuel w = ⊥

  wait-WaitedAs :
      (w₀ : World) (r : RetryState) (w : World)
      → At w₀ r w
      → WaitedAs w₀ r (wait_for_sink_retry env config r w).0 (wait_for_sink_retry env config r w).1
  unfolding wait_for_sink_retry WaitedAs
  wait-WaitedAs w₀ r w h =
      elim (Bool-cases (retries_exhausted config.errors_max_retries r.attempts)) [
        | inl spent ↦ rw spent h
        | inr left ↦ rw left (elim (Bool-cases (env.cancelled_while_waiting w.trace)) [
          | inl stop ↦
              rw stop (record { within = h.within; delay_is = h.delay_is; slept_for = h.slept_for })
          | inr go ↦ rw go (sleep-At w₀ r w h left)
        ])
      ]

  after_wait-Backs :
      (w₀ : World) (again : RetryState → M (Unit {0})) (r : RetryState)
      → ((r' : RetryState) (w : World)
          → At w₀ r' w
          → r'.attempts ≡ suc r.attempts
          → Backs config limit w₀ (again r' w))
      → (e : Error) (o : Outcome (Bool × RetryState)) (w : World) → WaitedAs w₀ r o w
      → Backs config limit w₀ (continue o (after_wait again e) w)
  unfolding after_wait WaitedAs
  after_wait-Backs w₀ again r next e (done (true, r')) w h = next r' w h.0 h.1
  after_wait-Backs w₀ again r next e (done (false, r')) w h = At-Backs w₀ r w _ h (λ p. cc)
  after_wait-Backs w₀ again r next e (fail x) w h = At-Backs w₀ r w _ h (λ p. cc)
  after_wait-Backs w₀ again r next e out_of_fuel w h = elim h [ ]

  after_attempt-Backs :
      (w₀ : World) (again : RetryState → M (Unit {0})) (r : RetryState)
      → ((r' : RetryState) (w : World)
          → At w₀ r' w
          → r'.attempts ≡ suc r.attempts
          → Backs config limit w₀ (again r' w))
      → (x : Result (Unit {0})) (w : World) → At w₀ r w
      → Backs config limit w₀ (after_attempt env config again r x w)
  unfolding after_attempt
  after_attempt-Backs w₀ again r next (ok _) w h = At-Backs w₀ r w _ h (λ p. cc)
  after_attempt-Backs w₀ again r next (err (retryable_sink m)) w h =
      after_wait-Backs w₀ again r next _ _ _ (wait-WaitedAs w₀ r w h)
  after_attempt-Backs w₀ again r next (err e) w h = At-Backs w₀ r w _ h (λ p. cc)

  module _ (attempt : World → Result (Unit {0}) × World)
      (quiet : (w : World) → sleeps (attempt w).1.trace ≡ sleeps w.trace) where
    retry_loop-Backs :
        (w₀ : World) (fuel : ℕ) (r : RetryState) (w : World)
        → limit < fuel + r.attempts
        → At w₀ r w
        → Backs config limit w₀ (retry_loop env config attempt fuel r w)
    unfolding retry_loop
    retry_loop-Backs w₀ zero r w enough h = absurd (omega (arith, h.within))
    retry_loop-Backs w₀ (suc fuel) r w enough h =
        after_attempt-Backs w₀ (λ r'. retry_loop env config attempt fuel r') r
          (λ r' v k e. retry_loop-Backs w₀ fuel r' v (omega arith) k) (attempt w).0 (attempt w).1
          (record { within = h.within; delay_is = h.delay_is; slept_for = quiet w ∙ h.slept_for })

pub start-At :
    (env : Env) (config : RuntimeConfig) (limit : ℕ)
    → (policy : config.errors_max_retries ≡ pos limit) (is_u64 : limit < 2 ^ 64) → (w : World)
    → At env config limit policy is_u64 w (new_retry config.errors_retry_delay_initial) w
unfolding new_retry
start-At env config limit policy is_u64 w = record {
  within = omega arith;
  delay_is = refl;
  slept_for = refl;
}

pub sink_write-quiet :
    (env : Env) (batch : DeliveryBatch) (w : World)
    → sleeps (sink_write env batch w).1.trace ≡ sleeps w.trace
unfolding sink_write
sink_write-quiet env batch w = ground arith

-- The sink's three operations, with a limit on the retries and fuel for one attempt more.
module _ (env : Env) (config : RuntimeConfig) (limit fuel : ℕ)
    (policy : config.errors_max_retries ≡ pos limit) (is_u64 : limit < 2 ^ 64)
    (enough : limit < fuel) (w : World) where
  -- Where the retries are limited to a number below 2^64 and the fuel is above it, a write under
  -- the retry policy ends, and it slept at most the limit of times, each time for the delay that
  -- the policy gives to that retry, in order.
  pub write_sink_with_retry-Backs :
      (batch : DeliveryBatch) → Backs config limit w (write_sink_with_retry env config fuel batch w)
  unfolding write_sink_with_retry
  write_sink_with_retry-Backs batch =
      retry_loop-Backs env config limit policy is_u64 (sink_write env batch)
        (sink_write-quiet env batch) w fuel _ w (omega arith)
        (start-At env config limit policy is_u64 w)

  -- Where the retries are limited to a number below 2^64 and the fuel is above it, a flush of the
  -- sink under the retry policy ends, and it slept at most the limit of times, each time for the
  -- delay that the policy gives to that retry, in order.
  pub flush_sink_with_retry-Backs : Backs config limit w (flush_sink_with_retry env config fuel w)
  unfolding flush_sink_with_retry sink_flush
  flush_sink_with_retry-Backs =
      retry_loop-Backs env config limit policy is_u64 (sink_flush env) (λ v. refl) w fuel _ w
        (omega arith) (start-At env config limit policy is_u64 w)

  -- Where the retries are limited to a number below 2^64 and the fuel is above it, a validation of
  -- the sink under the retry policy ends, and it slept at most the limit of times, each time for
  -- the delay that the policy gives to that retry, in order.
  pub validate_sink_with_retry-Backs :
      Backs config limit w (validate_sink_with_retry env config fuel w)
  unfolding validate_sink_with_retry sink_validate
  validate_sink_with_retry-Backs =
      retry_loop-Backs env config limit policy is_u64 (sink_validate env) (λ v. refl) w fuel _ w
        (omega arith) (start-At env config limit policy is_u64 w)
