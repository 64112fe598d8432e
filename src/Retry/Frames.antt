-- ===== src/Retry/Frames.antt =====
-- A relation that one attempt and its report keep is kept by the whole retry loop.
use ai_agent_workflow_builde.Common.{⊤, ℕ, zero, suc, inl, inr, ◌&&◌, Bool-cases}
use ai_agent_workflow_builde.Domain.{Thrown}
use ai_agent_workflow_builde.Host.{Host}
use ai_agent_workflow_builde.Store.{Db}
use ai_agent_workflow_builde.Store.Program.{Program}
use ai_agent_workflow_builde.Store.Keeps.{Keeps, IsFrame, and_then-Keeps, settle-Keeps}
use ai_agent_workflow_builde.Retry.{
  RetryPolicy, AttemptInfo, within, below, is_retryable, try_attempt, retry_from, with_retry,
}

module _ {N : Type 0} (host : Host N) {R : Db N → Db N → Type 0} (frame : IsFrame R) {A : Type 0}
    (fn : ℕ → Program N A) (on_attempt : AttemptInfo → Program N ⊤)
    (fn_keeps : (n : ℕ) → Keeps R (fn n))
    (report_keeps : (i : AttemptInfo) → Keeps R (on_attempt i)) where
  try_attempt-Keeps : (attempt : ℕ) → Keeps R (try_attempt host fn on_attempt attempt)
  unfolding try_attempt
  try_attempt-Keeps attempt w =
      and_then-Keeps frame w.db (fn attempt w) _ (fn_keeps attempt w) λ a w1.
        and_then-Keeps frame w1.db (on_attempt _ w1) _ (report_keeps _ w1) λ _ w2. frame.same _

  retry_from-Keeps :
      (fuel : ℕ) (policy : RetryPolicy) (attempt : ℕ) (last : Thrown)
      → Keeps R (retry_from host fn on_attempt fuel policy attempt last)
  unfolding retry_from
  retry_from-Keeps zero policy attempt last w = frame.same _
  retry_from-Keeps (suc fuel) policy attempt last w =
      elim (Bool-cases (within attempt policy.max_attempts)) [
        | inr none_left ↦ rw none_left (frame.same _)
        | inl in_range ↦ rw in_range (
            settle-Keeps frame w.db (try_attempt host fn on_attempt attempt w) _ _
              (try_attempt-Keeps attempt w)
              (λ e w1. and_then-Keeps frame w1.db (on_attempt _ w1) _ (report_keeps _ w1) λ _ w2.
                elim (Bool-cases (below attempt policy.max_attempts && is_retryable e)) [
                  | inl again ↦ rw again (retry_from-Keeps fuel policy (suc attempt) e w2)
                  | inr done ↦ rw done (frame.same _)
                ])
              λ a w1. frame.same _)
      ]

  pub with_retry-Keeps :
      (fuel : ℕ) (policy : RetryPolicy) → Keeps R (with_retry host fn on_attempt fuel policy)
  unfolding with_retry
  with_retry-Keeps fuel policy w = retry_from-Keeps fuel _ 1 _ w
