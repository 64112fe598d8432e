-- ===== src/Retry.antt =====
-- Retry with exponential backoff (packages/engine/src/core/retry.ts). `sleep` has no effect on the
-- state; the loop takes fuel, since a configured bound may be infinite.
pub mod Frames
pub mod Attempts
pub mod Trials
use ai_agent_workflow_builde.Common.{
  ⊤, ℕ, zero, suc, ◌-◌, ◌*◌, ◌^◌, min, max, Bool, true, false, not, ◌&&◌, Option, none, some, leb,
  ltb, if◌then◌else◌,
}
use ai_agent_workflow_builde.Common.Text.{ℤ, pos, negsuc}
use ai_agent_workflow_builde.Json.{Json, prop, non_null}
use ai_agent_workflow_builde.Domain.{Thrown, step_error, other}
use ai_agent_workflow_builde.Host.{Host, Limit, nan, finite, infinite}
use ai_agent_workflow_builde.Store.Program.{Program, pure, throw, diverge, handle, ◌>>=◌, ◌>>◌}

pub record RetryPolicy : Type 0 where
  pub max_attempts : Limit
  pub base_delay_ms : Limit

pub record AttemptInfo : Type 0 where
  pub attempt : ℕ
  pub error : Option Thrown
  pub will_retry : Bool
  pub delay_ms : Limit

-- `isRetryable`
abbrev pub is_retryable : Thrown → Bool
is_retryable (step_error _ permanent) = not permanent
is_retryable _ = true

-- `Math.max(n, limit)`
abbrev pub at_least : ℕ → Limit → Limit
at_least n nan = nan
at_least n (finite m) = finite (max n m)
at_least n infinite = infinite

-- `n <= limit` and `n < limit`; both fail on NaN.
abbrev pub within : ℕ → Limit → Bool
within n nan = false
within n (finite m) = leb n m
within n infinite = true

abbrev pub below : ℕ → Limit → Bool
below n nan = false
below n (finite m) = ltb n m
below n infinite = true

abbrev pub max_delay_ms : ℕ
max_delay_ms = 30_000

abbrev pub limit_of_ℤ : ℤ → Limit
limit_of_ℤ (pos n) = finite n
limit_of_ℤ (negsuc _) = finite 0

module _ {N : Type 0} (host : Host N) where
  -- `backoffDelay` at the random number of this point of the run.
  unfoldable pub backoff_delay : (tick attempt : ℕ) → Limit → Limit
  backoff_delay tick attempt nan = nan
  backoff_delay tick attempt (finite base) =
      finite (min (host.jitter tick (base * 2 ^ (attempt - 1))) max_delay_ms)
  backoff_delay tick attempt infinite = finite max_delay_ms

  -- A bound from the step's config, or the default.
  config_limit : Option (Json N) → Limit → Limit
  config_limit none default = default
  config_limit (some v) default = host.to_limit v

  -- `resolvePolicy`; the floor of 0 under the delay is part of `to_limit`.
  unfoldable pub resolve_policy : Json N → RetryPolicy → RetryPolicy
  unfolding config_limit
  resolve_policy step_config defaults = record {
    max_attempts =
        at_least 1
          (config_limit (non_null (prop "max_attempts" step_config)) defaults.max_attempts);
    base_delay_ms =
        config_limit (non_null (prop "base_delay_ms" step_config)) defaults.base_delay_ms;
  }

  module _ {A : Type 0} (fn : ℕ → Program N A) (on_attempt : AttemptInfo → Program N ⊤) where
    -- The body of the `try`: the attempt and the report of its success.
    try_attempt : ℕ → Program N A
    try_attempt attempt = do
      value ← fn attempt
      on_attempt
          (record { attempt = attempt; error = none; will_retry = false; delay_ms = finite 0 })
      pure value

    abbrev delay_at : Bool → ℕ → Limit → ℕ → Limit
    delay_at can_retry attempt base tick =
        if can_retry then backoff_delay tick attempt base else finite 0

    -- The rounds from `attempt` on; `last` is the error thrown when no attempt is left.
    unfoldable pub retry_from : ℕ → RetryPolicy → ℕ → Thrown → Program N A
    unfolding try_attempt
    retry_from zero policy attempt last w = diverge w
    retry_from (suc fuel) policy attempt last w =
        let again = retry_from fuel policy (suc attempt) in
        if not (within attempt policy.max_attempts)
        then throw last w
        else handle (try_attempt attempt)
            (λ e w'.
              let can_retry = below attempt policy.max_attempts && is_retryable e in
              let delay = delay_at can_retry attempt policy.base_delay_ms w'.tick in
              (on_attempt (record {
                attempt = attempt;
                error = some e;
                will_retry = can_retry;
                delay_ms = delay;
              })
                  >>= λ _. if can_retry then again e else throw e)
                w')
            pure w

    -- `withRetry`
    unfoldable pub with_retry : ℕ → RetryPolicy → Program N A
    unfolding retry_from
    with_retry fuel policy =
        retry_from fuel (record policy { max_attempts = at_least 1 policy.max_attempts }) 1
          (other "retry loop did not execute")
