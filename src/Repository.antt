-- ===== src/Repository.antt =====
-- The engine's reads and writes (packages/engine/src/core/repository.ts): each function is the
-- request that it sends, with the time at which it is made.
pub mod Laws
pub mod Halting
use ai_agent_workflow_builde.Common.{⊤, ℕ, String, Bool, Option, none, some, List, [], ◌∷◌, eqb}
use ai_agent_workflow_builde.Common.Text.{first}
use ai_agent_workflow_builde.Domain.{WorkflowRunRow, StepRunRow, RunStatus, Time}
use ai_agent_workflow_builde.Host.{Host}
use ai_agent_workflow_builde.Store.{Db}
use ai_agent_workflow_builde.Store.Program.{Program, pure, now, fresh_ids, request, ◌>>=◌}
use ai_agent_workflow_builde.Tables.{
  RunBundle, StepRunPatch, find_bundle, claim_rows, update_run_row, upserted, set_step_runs,
  skip_rows, count_new, on_engine,
}

unfoldable pub claim_request : {N : Type 0} → String → Time → Db N → Option (ℕ × Db N)
claim_request run_id time d =
    let (n, e) = claim_rows run_id time d.engine in some (n, record d { engine = e })

module _ {N : Type 0} (host : Host N) where
  -- `loadRunBundle`; `none` is null.
  unfoldable pub load_run_bundle : String → Program N (Option (RunBundle N))
  load_run_bundle run_id = request host (find_bundle run_id)

  -- `claimRunForExecution`
  unfoldable pub claim_run_for_execution : String → Program N Bool
  claim_run_for_execution run_id = do
    time ← now host
    affected ← request host (claim_request run_id time)
    pure (eqb affected 1)

  -- `updateRun`
  unfoldable pub update_run : String → (WorkflowRunRow N → WorkflowRunRow N) → Program N ⊤
  update_run run_id set = request host (λ d. some (tt, on_engine (update_run_row run_id set) d))

  unfoldable pub mark_run_paused : String → ℕ → Program N ⊤
  unfolding update_run
  mark_run_paused run_id resume_position = do
    time ← now host
    update_run run_id λ r. record r {
      status = RunStatus.paused;
      paused_at = some time;
      resume_position = some resume_position;
    }

  unfoldable pub mark_run_completed : String → Program N ⊤
  unfolding update_run
  mark_run_completed run_id = do
    time ← now host
    update_run run_id λ r. record r {
      status = RunStatus.completed;
      completed_at = some time;
      resume_position = none;
      error = none;
    }

  unfoldable pub mark_run_failed : String → String → Program N ⊤
  unfolding update_run
  mark_run_failed run_id error = do
    time ← now host
    update_run run_id λ r. record r {
      status = RunStatus.failed;
      completed_at = some time;
      resume_position = none;
      error = some (first 2000 error);
    }

  -- `upsertStepRun`; the result is the row after the statement.
  unfoldable pub upsert_step_run : String → String → StepRunPatch N → Program N (StepRunRow N)
  upsert_step_run run_id step_id patch = do
    uuid ← fresh_ids host
    request host (upserted (uuid 0) run_id step_id patch)

  -- `markStepsSkipped`: no request for an empty list.
  unfoldable pub mark_steps_skipped : String → List String → Program N ℕ
  mark_steps_skipped run_id [] = pure 0
  mark_steps_skipped run_id (step_id ∷ ids) = do
    time ← now host
    uuid ← fresh_ids host
    request host λ d. some (
      count_new run_id (step_id ∷ ids) d.engine.step_runs,
      on_engine (set_step_runs (skip_rows uuid 0 run_id time (step_id ∷ ids))) d,
    )
