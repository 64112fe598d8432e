-- ===== src/Engine/Ending.antt =====
-- A round of the loop of `executeRun` comes to an end, and the index grows.
use ai_agent_workflow_builde.Common.{
  ⊤, ℕ, suc, ◌+◌, ◌≤◌, ◌<◌, String, ◌≡◌, ◌≢◌, refl, Option, none, some, List, arith, inl, inr,
  Bool-cases, get_elem?, length, ltb, leb, lt-length_of_get_elem?, false,
}
use ai_agent_workflow_builde.Json.{Json}
use ai_agent_workflow_builde.Domain.{
  WorkflowStepRow, StepType, StepExecutionResult, Thrown, message_of,
}
use ai_agent_workflow_builde.Host.{Host}
use ai_agent_workflow_builde.Context.{RunContext, resolve_templates}
use ai_agent_workflow_builde.Executors.{Executors, ExecutorsHalt}
use ai_agent_workflow_builde.Retry.{RetryPolicy, resolve_policy}
use ai_agent_workflow_builde.Retry.Attempts.{IsBounded, bounded_retry-Halts}
use ai_agent_workflow_builde.Branching.{Target, index, end_run, resolve_branch_target}
use ai_agent_workflow_builde.Branching.Laws.{IsReachable, resolve_branch_target-IsReachable}
use ai_agent_workflow_builde.Branching.Halting.{run_branch-Answers, resolve_branch_target-Answers}
use ai_agent_workflow_builde.Store.{World}
use ai_agent_workflow_builde.Store.Program.{Result, ok, err, out_of_fuel, settle}
use ai_agent_workflow_builde.Store.Ends.{
  Ends, Halts, Ends-pure, Ends-after, Ends-settle, and_then-Halts,
}
use ai_agent_workflow_builde.Repository.Halting.{
  mark_run_paused-Halts, mark_run_failed-Halts, upsert_step_run-Halts, mark_steps_skipped-Halts,
}
use ai_agent_workflow_builde.Tables.{RunBundle}
use ai_agent_workflow_builde.Engine.Rounds.{
  Round, stop, finish, continue_at, run_step_body, gate_round, step_failed, branch_failed,
  skip_between, follow, after_step, step_succeeded, attempt_step, execute_round, step_round,
  is_approved, is_gate,
}

module _ {N : Type 0} where
  -- Where a round at an index may go on: further, but not past the end of the list.
  abbrev pub IsOnward : List (WorkflowStepRow N) → ℕ → Round N → Type 0
  IsOnward steps i (stop o) = ⊤
  IsOnward steps i (finish n) = ⊤
  IsOnward steps i (continue_at j n c) = (i < j) × (j ≤ length steps)

-- The attempts of each of these steps are bounded, whatever its templates are filled in with.
abbrev pub HasBoundedRetries :
    {N : Type 0} → Host N → RetryPolicy → ℕ → List (WorkflowStepRow N) → Type 0
HasBoundedRetries {N} host defaults most steps =
    (i : ℕ) (step : WorkflowStepRow N)
    → get_elem? steps i ≡ some step
    → (ctx : RunContext N)
    → IsBounded most
        (resolve_policy host (resolve_templates host ctx step.config) defaults).max_attempts

module _ {N : Type 0} (host : Host N) (ex : Executors N) (halt : ExecutorsHalt ex) where
  run_step_body-Halts :
      (t : StepType) (cfg : Json N) (run_id step_run_id : String) (ctx : RunContext N)
      → Halts (run_step_body host ex t cfg run_id step_run_id ctx)
  unfolding run_step_body
  run_step_body-Halts StepType.llm_call cfg run_id step_run_id ctx w = halt.llm_call_halts cfg w
  run_step_body-Halts StepType.http_request cfg run_id step_run_id ctx w =
      halt.http_request_halts cfg w
  run_step_body-Halts StepType.db_write cfg run_id step_run_id ctx w =
      halt.db_write_halts cfg run_id w
  run_step_body-Halts StepType.notify cfg run_id step_run_id ctx w =
      halt.notify_halts cfg run_id step_run_id w
  run_step_body-Halts StepType.conditional_branch cfg run_id step_run_id ctx w =
      run_branch-Answers host ctx cfg
  run_step_body-Halts StepType.approval_gate cfg run_id step_run_id ctx w = λ e. cc

  module _ (fuel most : ℕ) (enough : most + 2 ≤ fuel) (defaults : RetryPolicy)
      (bundle : RunBundle N) where
    abbrev run_id : String
    run_id = bundle.run.id

    attempt_step-Halts :
        (step : WorkflowStepRow N) (cfg : Json N) (step_run_id : String) (ctx : RunContext N)
        → IsBounded most (resolve_policy host cfg defaults).max_attempts
        → Halts (attempt_step host ex fuel defaults bundle step cfg step_run_id ctx)
    unfolding attempt_step
    attempt_step-Halts step cfg step_run_id ctx small =
        bounded_retry-Halts host _ _ most fuel (resolve_policy host cfg defaults).max_attempts
          (resolve_policy host cfg defaults).base_delay_ms small enough
          (λ n w. run_step_body-Halts step.type cfg run_id step_run_id ctx w)
          λ i w. and_then-Halts _ _ (upsert_step_run-Halts host run_id step.id _ w) λ r w1 e. cc

    module _ (i : ℕ) (step : WorkflowStepRow N) (at : get_elem? bundle.steps i ≡ some step) where
      abbrev Advances : Result (Round N) × World N → Type 0
      Advances p = Ends (IsOnward bundle.steps i) p

      inside : suc i ≤ length bundle.steps
      inside = lt-length_of_get_elem? i bundle.steps at

      target_inside :
          (target : ℕ)
          → IsReachable host bundle.steps i (index target)
          → leb target i ≡ false
          → (i < target) × (target ≤ length bundle.steps)
      target_inside target (inl (j, same, inl lt)) on =
          let e : target ≡ j = cc in (ground arith, ground arith)
      target_inside target (inl (j, same, inr next)) on =
          let e : target ≡ j = cc in let h = inside in (ground arith, ground arith)
      target_inside target (inr ends) on = cc

      branch_failed-Advances :
          (executed : ℕ) (message : String) (w : World N)
          → Advances (branch_failed host ex fuel defaults bundle executed step message w)
      unfolding branch_failed
      branch_failed-Advances executed message w =
          Ends-after _ _ _ (upsert_step_run-Halts host run_id step.id _ w) λ r w1.
            Ends-after _ _ _ (mark_run_failed-Halts host run_id message w1)
              λ u w2. Ends-pure _ _ w2 tt

      step_failed-Advances :
          (executed : ℕ) (e : Thrown) (w : World N)
          → Advances (step_failed host ex fuel defaults bundle i executed step e w)
      unfolding step_failed
      step_failed-Advances executed e w =
          Ends-after _ _ _ (upsert_step_run-Halts host run_id step.id _ w) λ r w1.
            Ends-after _ _ _ (mark_steps_skipped-Halts host run_id _ w1) λ n w2.
              Ends-after _ _ _ (mark_run_failed-Halts host run_id _ w2) λ u w3. Ends-pure _ _ w3 tt

      skip_between-Halts : (target : ℕ) → Halts (skip_between host ex fuel defaults bundle i target)
      unfolding skip_between
      skip_between-Halts target w = elim (Bool-cases (ltb (suc i) target)) [
        | inl far ↦
            rw far (and_then-Halts _ _ (mark_steps_skipped-Halts host run_id _ w) λ n w1 e. cc)
        | inr near ↦ rw near (λ e. cc)
      ]

      follow-Advances :
          (executed : ℕ) (ctx : RunContext N) (t : Target) (w : World N)
          → IsReachable host bundle.steps i t
          → Advances (follow host ex fuel defaults bundle i executed ctx step t w)
      unfolding follow
      follow-Advances executed ctx end_run w r =
          Ends-after _ _ _ (mark_steps_skipped-Halts host run_id _ w) λ n w1. Ends-pure _ _ w1 tt
      follow-Advances executed ctx (index target) w r =
          Ends-after _ _ _ (skip_between-Halts target w) λ u w1. elim (Bool-cases (leb target i)) [
            | inl back ↦ rw back (branch_failed-Advances executed _ w1)
            | inr on ↦ rw on (Ends-pure _ _ w1 (target_inside target r on))
          ]

      target_followed :
          (executed : ℕ) (ctx : RunContext N) (w : World N) (t : Result Target)
          → t ≢ out_of_fuel
          → ((target : Target) → t ≡ ok target → IsReachable host bundle.steps i target)
          → Advances (
              settle
                (t, w)
                (λ e. branch_failed host ex fuel defaults bundle executed step (message_of e))
                (follow host ex fuel defaults bundle i executed ctx step))
      target_followed executed ctx w (ok target) ends r =
          follow-Advances executed ctx target w (r target refl)
      target_followed executed ctx w (err e) ends r =
          branch_failed-Advances executed (message_of e) w
      target_followed executed ctx w out_of_fuel ends r = absurd (ends refl)

      after_step-Advances :
          (executed : ℕ) (ctx : RunContext N) (branch : Option (Json N)) (w : World N)
          → Advances (after_step host ex fuel defaults bundle i executed ctx step branch w)
      unfolding after_step
      after_step-Advances executed ctx none w = Ends-pure _ _ w (omega arith, inside)
      after_step-Advances executed ctx (some branch) w =
          target_followed executed ctx w (resolve_branch_target host branch bundle.steps i)
            (resolve_branch_target-Answers host branch bundle.steps i)
            (λ t e. resolve_branch_target-IsReachable host branch bundle.steps i t e)

      step_succeeded-Advances :
          (executed : ℕ) (ctx : RunContext N) (result : StepExecutionResult N) (w : World N)
          → Advances (step_succeeded host ex fuel defaults bundle i executed ctx step result w)
      unfolding step_succeeded
      step_succeeded-Advances executed ctx result w =
          Ends-after _ _ _ (upsert_step_run-Halts host run_id step.id _ w)
            λ r w1. after_step-Advances (suc executed) _ result.branch w1

      gate_round-Advances :
          (executed : ℕ) (ctx : RunContext N) (w : World N)
          → Advances (gate_round host ex fuel defaults bundle i executed ctx step w)
      unfolding gate_round
      gate_round-Advances executed ctx w =
          elim (Bool-cases (is_approved host ex fuel defaults bundle step)) [
            | inl approved ↦ rw approved (Ends-pure _ _ w (omega arith, inside))
            | inr waiting ↦ rw waiting (
                Ends-after _ _ _ (upsert_step_run-Halts host run_id step.id _ w) λ r w1.
                  Ends-after _ _ _ (mark_run_paused-Halts host run_id _ w1)
                    λ u w2. Ends-pure _ _ w2 tt)
          ]

      execute_round-Advances :
          HasBoundedRetries host defaults most bundle.steps
          → (executed : ℕ) (ctx : RunContext N) (w : World N)
          → Advances (execute_round host ex fuel defaults bundle i executed ctx step w)
      unfolding execute_round
      execute_round-Advances bounded executed ctx w =
          Ends-after _ _ _ (upsert_step_run-Halts host run_id step.id _ w) λ row w1.
            Ends-settle _ _ _ _
              (attempt_step-Halts step (resolve_templates host ctx step.config) row.id ctx
                (bounded i step at ctx) w1)
              (λ e w2. step_failed-Advances executed e w2)
              λ result w2. step_succeeded-Advances executed ctx result w2

      pub step_round-Advances :
          HasBoundedRetries host defaults most bundle.steps
          → (executed : ℕ) (ctx : RunContext N) (w : World N)
          → Advances (step_round host ex fuel defaults bundle i executed ctx step w)
      unfolding step_round
      step_round-Advances bounded executed ctx w =
          elim (Bool-cases (is_gate host ex fuel defaults bundle step.type)) [
            | inl gate ↦ rw gate (gate_round-Advances executed ctx w)
            | inr other ↦ rw other (execute_round-Advances bounded executed ctx w)
          ]
