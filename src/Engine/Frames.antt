-- ===== src/Engine/Frames.antt =====
-- What the work on one step leaves alone: the rows of the other steps, and the runs.
use ai_agent_workflow_builde.Common.{ℕ, String}
use ai_agent_workflow_builde.Json.{Json}
use ai_agent_workflow_builde.Domain.{
  WorkflowStepRow, StepType, llm_call, http_request, db_write, notify, conditional_branch,
  approval_gate,
}
use ai_agent_workflow_builde.Host.{Host}
use ai_agent_workflow_builde.Context.{RunContext}
use ai_agent_workflow_builde.Executors.{Executors, ExecutorsLaws}
use ai_agent_workflow_builde.Retry.{RetryPolicy}
use ai_agent_workflow_builde.Retry.Frames.{with_retry-Keeps}
use ai_agent_workflow_builde.Store.Keeps.{Keeps, and_then-Keeps}
use ai_agent_workflow_builde.Tables.{RunBundle}
use ai_agent_workflow_builde.Repository.{upsert_step_run}
use ai_agent_workflow_builde.Repository.Laws.{
  OnlyStep, OnlyStep-frame, OnlyStep-of_same_engine, upsert_step_run-Keeps,
}
use ai_agent_workflow_builde.Engine.Rounds.{run_step_body, attempt_patch, attempt_step}

module _ {N : Type 0} (host : Host N) (ex : Executors N) (laws : ExecutorsLaws ex) where
  run_step_body-Keeps :
      (step_id : String) (type : StepType) (cfg : Json N) (run_id step_run_id : String)
      (ctx : RunContext N)
      → Keeps (OnlyStep run_id step_id) (run_step_body host ex type cfg run_id step_run_id ctx)
  unfolding run_step_body
  run_step_body-Keeps step_id llm_call cfg run_id sr ctx w =
      OnlyStep-of_same_engine run_id step_id (laws.llm_call_leaves cfg w)
  run_step_body-Keeps step_id http_request cfg run_id sr ctx w =
      OnlyStep-of_same_engine run_id step_id (laws.http_request_leaves cfg w)
  run_step_body-Keeps step_id db_write cfg run_id sr ctx w =
      OnlyStep-of_same_engine run_id step_id (laws.db_write_leaves cfg run_id w)
  run_step_body-Keeps step_id notify cfg run_id sr ctx w =
      OnlyStep-of_same_engine run_id step_id (laws.notify_leaves cfg run_id sr w)
  run_step_body-Keeps step_id conditional_branch cfg run_id sr ctx w =
      (OnlyStep-frame run_id step_id).same w.db
  run_step_body-Keeps step_id approval_gate cfg run_id sr ctx w =
      (OnlyStep-frame run_id step_id).same w.db

  -- All attempts at a step, with their reports.
  pub attempt_step-Keeps :
      (retry_fuel : ℕ) (defaults : RetryPolicy) (bundle : RunBundle N) (step : WorkflowStepRow N)
      (cfg : Json N) (step_run_id : String) (ctx : RunContext N)
      → Keeps
          (OnlyStep bundle.run.id step.id)
          (attempt_step host ex retry_fuel defaults bundle step cfg step_run_id ctx)
  unfolding attempt_step
  attempt_step-Keeps retry_fuel defaults bundle step cfg sr ctx w =
      let frame = OnlyStep-frame {N = N} bundle.run.id step.id in
      with_retry-Keeps host frame _ _
        (λ _ w1. run_step_body-Keeps step.id step.type cfg bundle.run.id sr ctx w1)
        (λ info w1.
          and_then-Keeps frame w1.db
            (upsert_step_run host bundle.run.id step.id (attempt_patch host info) w1) _
            (upsert_step_run-Keeps host bundle.run.id step.id _ w1) λ _ w2. frame.same w2.db)
        retry_fuel _ w
