-- ===== src/Postgres/Resume/Retry/Budget.antt =====
-- crates/rustium-postgresql/src/source.rs: the time that the retries of a connection may take.
use rustium.Common.{
  ℕ, zero, suc, ◌+◌, ◌*◌, ◌≤◌, false, ltb, min, ◌≡◌, sym, arith, Bool-cases, inl, inr, ap, ◌∙◌,
}
use native.Mathlib.Nat.{zero-add, mul-zero, mul-suc}
use rustium.Runtime.World.{max_duration}
use rustium.Runtime.Retry.{next_delay}
use rustium.Postgres.Resume.Retry.{
  RetryPolicy, retries_of, saturating_add, budget_loop, retry_delay_budget,
}

-- The sum of so many delays from the first one on.
abbrev pub total_delay : ℕ → ℕ → ℕ → ℕ
total_delay limit zero delay = 0
total_delay limit (suc n) delay = delay + total_delay limit n (next_delay delay limit)

next_at_limit : (limit : ℕ) → limit ≤ max_duration → next_delay limit limit ≡ limit
unfolding next_delay
next_at_limit limit h = omega arith

next_le : (delay limit : ℕ) → next_delay delay limit ≤ limit
unfolding next_delay
next_le delay limit = omega arith

at_limit : (delay limit : ℕ) → delay ≤ limit → ltb delay limit ≡ false → delay ≡ limit
at_limit delay limit h e = ground arith

total_delay_limit : (limit n : ℕ) → limit ≤ max_duration → total_delay limit n limit ≡ limit * n
unfolding next_delay
total_delay_limit limit zero h = sym (mul-zero limit)
total_delay_limit limit (suc n) h =
    rw (next_at_limit limit h, total_delay_limit limit n h, mul-suc limit n) (omega arith)

budget_loop-total :
    (limit n delay total : ℕ)
    → limit ≤ max_duration
    → delay ≤ limit
    → total ≤ max_duration
    → budget_loop limit n delay total ≡ min (total + total_delay limit n delay) max_duration
unfolding budget_loop
budget_loop-total limit zero delay total h k t = rw (mul-zero limit) (omega arith)
budget_loop-total limit (suc n) delay total h k t = elim (Bool-cases (ltb delay limit)) [
  | inl e ↦
      rw
        (
          e,
          budget_loop-total limit n (next_delay delay limit) (saturating_add total delay) h
              (next_le delay limit) (omega arith),
        )
        (omega arith)
  | inr e ↦ rw (e, at_limit delay limit k e, total_delay_limit limit (suc n) h) (omega arith)
]

-- Where the initial delay is at most the maximal one and that is a duration, the loop that computes
-- the retry budget gives the sum of the delays before the retries that the policy allows, capped at
-- the greatest duration.
pub retry_delay_budget-eq-min :
    (policy : RetryPolicy)
    → policy.max_delay ≤ max_duration
    → policy.initial_delay ≤ policy.max_delay
    → retry_delay_budget policy
      ≡ min
          (total_delay policy.max_delay (retries_of policy.max_retries) policy.initial_delay)
          max_duration
unfolding retry_delay_budget
retry_delay_budget-eq-min policy h k =
    budget_loop-total policy.max_delay (retries_of policy.max_retries) policy.initial_delay 0 h k
      (omega arith)
    ∙ ap (λ n. min n max_duration) (zero-add _)
