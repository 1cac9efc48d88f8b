-- ===== src/Postgres/Resume/Retry.antt =====
-- crates/rustium-postgresql/src/source.rs: how long a connection is tried again.
pub mod Budget
use rustium.Common.{ℕ, zero, suc, ◌+◌, ◌-◌, ◌*◌, ◌^◌, ltb, if◌then◌else◌, min}
use rustium.Common.Int.{ℤ, pos, negsuc}
use rustium.Runtime.World.{max_duration}
use rustium.Runtime.Retry.{next_delay}

-- `Duration::saturating_add` and `saturating_mul`.
abbrev pub saturating_add : ℕ → ℕ → ℕ
saturating_add a b = min (a + b) max_duration

abbrev pub saturating_mul : ℕ → ℕ → ℕ
saturating_mul a n = min (a * n) max_duration

pub record RetryPolicy : Type 0 where
  pub max_retries : ℤ
  pub initial_delay : ℕ
  pub max_delay : ℕ

-- `u32::try_from(max_retries).unwrap_or_default()`.
abbrev pub retries_of : ℤ → ℕ
retries_of (pos n) = n
retries_of (negsuc n) = 0

-- The loop of the delays that still grow, and the rest at the greatest.
unfoldable pub budget_loop : ℕ → ℕ → ℕ → ℕ → ℕ
unfolding next_delay
budget_loop max_delay zero delay total = saturating_add total (saturating_mul max_delay 0)
budget_loop max_delay (suc remaining) delay total =
    let rest =
      budget_loop max_delay remaining (next_delay delay max_delay) (saturating_add total delay) in
    if ltb delay max_delay
    then rest
    else saturating_add total (saturating_mul max_delay (suc remaining))

unfoldable pub retry_delay_budget : RetryPolicy → ℕ
unfolding budget_loop
retry_delay_budget policy =
    budget_loop policy.max_delay (retries_of policy.max_retries) policy.initial_delay 0

-- `Duration::from_secs(4_294_967_295)`.
abbrev pub effectively_unbounded_retry_duration : ℕ
effectively_unbounded_retry_duration = 4_294_967_295 * 1_000_000_000

-- The replication client's `RetryConfig`, of which the code sets the multiplier to 2 and no jitter.
pub record RetryConfig : Type 0 where
  pub max_attempts : ℕ
  pub initial_delay : ℕ
  pub max_delay : ℕ
  pub max_duration : ℕ

abbrev attempts_of : ℤ → ℕ
attempts_of (negsuc n) = 2 ^ 32 - 1
attempts_of (pos n) = min (n + 1) (2 ^ 32 - 1)

abbrev duration_of : ℤ → ℕ → ℕ → ℕ
duration_of (negsuc n) bounded unbounded = unbounded
duration_of (pos n) bounded unbounded = bounded

unfoldable pub postgres_retry_config : RetryPolicy → ℕ → RetryConfig
unfolding retry_delay_budget
postgres_retry_config policy connect_timeout = record {
  max_attempts = attempts_of policy.max_retries;
  initial_delay = policy.initial_delay;
  max_delay = policy.max_delay;
  max_duration =
      duration_of policy.max_retries
        (saturating_add (saturating_mul connect_timeout (attempts_of policy.max_retries))
          (retry_delay_budget policy))
        effectively_unbounded_retry_duration;
}
