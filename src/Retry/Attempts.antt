-- ===== src/Retry/Attempts.antt =====
-- How often `withRetry` tries: it stops, and it does not repeat a permanent failure.
use ai_agent_workflow_builde.Common.{
  ⊤, ℕ, zero, suc, ◌+◌, ◌≤◌, max, true, ◌&&◌, ◌≡◌, arith, inl, inr, Bool-cases, leb, ltb,
  if◌then◌else◌, ltb→lt,
}
use ai_agent_workflow_builde.Domain.{Thrown}
use ai_agent_workflow_builde.Host.{Host, Limit, nan, finite, infinite}
use ai_agent_workflow_builde.Store.Ends.{Halts, and_then-Halts, settle-Halts}
use ai_agent_workflow_builde.Store.Program.{Program, throw}
use ai_agent_workflow_builde.Retry.{
  RetryPolicy, AttemptInfo, is_retryable, try_attempt, retry_from, with_retry,
}

module _ {N A : Type 0} (host : Host N) (fn : ℕ → Program N A)
    (on_attempt : AttemptInfo → Program N ⊤) (m : ℕ) (base : Limit) where
  abbrev pub bounded : RetryPolicy
  bounded = record { max_attempts = finite m; base_delay_ms = base }

  module _ (runs : (n : ℕ) → Halts (fn n))
      (reports : (i : AttemptInfo) → Halts (on_attempt i)) where
    try_attempt-Halts : (n : ℕ) → Halts (try_attempt host fn on_attempt n)
    unfolding try_attempt
    try_attempt-Halts n w =
        and_then-Halts (fn n w) _ (runs n w)
          λ value w1. and_then-Halts (on_attempt _ w1) _ (reports _ w1) λ u w2 e. cc

    retry_from-Halts :
        (fuel attempt : ℕ) (last : Thrown)
        → m + 2 ≤ attempt + fuel
        → attempt ≤ m + 1
        → Halts (retry_from host fn on_attempt fuel bounded attempt last)
    unfolding retry_from
    retry_from-Halts zero attempt last enough started w = absurd (omega arith)
    retry_from-Halts (suc fuel) attempt last enough started w = elim (Bool-cases (leb attempt m)) [
      | inr over ↦ rw over (λ e. cc)
      | inl left ↦ rw left (
          settle-Halts (try_attempt host fn on_attempt attempt w) _ _ (try_attempt-Halts attempt w)
            (λ e w1. and_then-Halts (on_attempt _ w1) _ (reports _ w1) (λ u. next e λ below_m.
              let lt = ltb→lt attempt m below_m in
              retry_from-Halts fuel (suc attempt) e (omega arith) (omega arith)))
            (λ a w1 e. cc))
    ]
      where
        next :
            (e : Thrown)
            → (ltb attempt m ≡ true
                → Halts (retry_from host fn on_attempt fuel bounded (suc attempt) e))
            → Halts (
                if ltb attempt m && is_retryable e
                then retry_from host fn on_attempt fuel bounded (suc attempt) e
                else throw e)
        next e more w1 = elim (Bool-cases (ltb attempt m)) [
          | inr over ↦ rw over (λ q. cc)
          | inl left ↦ elim (Bool-cases (is_retryable e)) [
            | inl again ↦ rw left (rw again (more left w1))
            | inr permanent ↦ rw left (rw permanent (λ q. cc))
          ]
        ]

-- With a finite bound on the attempts `withRetry` comes to an end: for m configured attempts (at
-- least one is made), m + 2 rounds are enough, if each attempt and each report comes to an end.
pub with_retry-Halts :
    {N A : Type 0} (host : Host N) (fn : ℕ → Program N A) (on_attempt : AttemptInfo → Program N ⊤)
    (m fuel : ℕ) (base : Limit)
    → m + 2 ≤ fuel
    → ((n : ℕ) → Halts (fn n))
    → ((i : AttemptInfo) → Halts (on_attempt i))
    → Halts (
        with_retry host fn on_attempt fuel
          (record { max_attempts = finite m; base_delay_ms = base }))
unfolding with_retry
with_retry-Halts host fn on_attempt m fuel base enough runs reports =
    retry_from-Halts host fn on_attempt (max 1 m) base runs reports fuel 1 _ (omega arith)
      (omega arith)

-- A bound that is at most `most`; NaN admits no attempt.
abbrev pub IsBounded : ℕ → Limit → Type 0
IsBounded most nan = ⊤
IsBounded most (finite m) = m ≤ most
IsBounded most infinite = ⊥

-- The same for a policy whose bound is known only by its size.
pub bounded_retry-Halts :
    {N A : Type 0} (host : Host N) (fn : ℕ → Program N A) (on_attempt : AttemptInfo → Program N ⊤)
    (most fuel : ℕ) (limit base : Limit)
    → IsBounded most limit
    → most + 2 ≤ fuel
    → ((n : ℕ) → Halts (fn n))
    → ((i : AttemptInfo) → Halts (on_attempt i))
    → Halts
        (with_retry host fn on_attempt fuel (record { max_attempts = limit; base_delay_ms = base }))
unfolding with_retry retry_from
bounded_retry-Halts host fn on_attempt most zero nan base small enough runs reports w =
    absurd (omega arith)
bounded_retry-Halts host fn on_attempt most (suc fuel) nan base small enough runs reports w =
    λ e. cc
bounded_retry-Halts host fn on_attempt most fuel (finite m) base small enough runs reports w =
    with_retry-Halts host fn on_attempt m fuel base (omega arith) runs reports w
bounded_retry-Halts host fn on_attempt most fuel infinite base small enough runs reports w =
    absurd small
