-- ===== src/Repository/Halting.antt =====
-- Every function of repository.ts comes to an end.
use ai_agent_workflow_builde.Common.{ℕ, String, List, [], ◌∷◌}
use ai_agent_workflow_builde.Domain.{WorkflowRunRow}
use ai_agent_workflow_builde.Host.{Host}
use ai_agent_workflow_builde.Store.Ends.{Halts, and_then-Halts, request-Halts}
use ai_agent_workflow_builde.Tables.{StepRunPatch}
use ai_agent_workflow_builde.Repository.{
  load_run_bundle, claim_run_for_execution, update_run, mark_run_paused, mark_run_failed,
  mark_run_completed, upsert_step_run, mark_steps_skipped,
}

module _ {N : Type 0} (host : Host N) (run_id : String) where
  pub load_run_bundle-Halts : Halts (load_run_bundle host run_id)
  unfolding load_run_bundle
  load_run_bundle-Halts w = request-Halts host _ w

  pub claim_run-Halts : Halts (claim_run_for_execution host run_id)
  unfolding claim_run_for_execution
  claim_run-Halts w = and_then-Halts _ _ (request-Halts host _ w) λ n w1 e. cc

  pub update_run-Halts :
      (set : WorkflowRunRow N → WorkflowRunRow N) → Halts (update_run host run_id set)
  unfolding update_run
  update_run-Halts set w = request-Halts host _ w

  pub mark_run_paused-Halts : (position : ℕ) → Halts (mark_run_paused host run_id position)
  unfolding mark_run_paused
  mark_run_paused-Halts position w = request-Halts host _ w

  pub mark_run_completed-Halts : Halts (mark_run_completed host run_id)
  unfolding mark_run_completed
  mark_run_completed-Halts w = request-Halts host _ w

  pub mark_run_failed-Halts : (error : String) → Halts (mark_run_failed host run_id error)
  unfolding mark_run_failed
  mark_run_failed-Halts error w = request-Halts host _ w

  pub upsert_step_run-Halts :
      (step_id : String) (p : StepRunPatch N) → Halts (upsert_step_run host run_id step_id p)
  unfolding upsert_step_run
  upsert_step_run-Halts step_id p w = request-Halts host _ w

  pub mark_steps_skipped-Halts : (ids : List String) → Halts (mark_steps_skipped host run_id ids)
  unfolding mark_steps_skipped
  mark_steps_skipped-Halts [] w = λ e. cc
  mark_steps_skipped-Halts (id ∷ ids) w = request-Halts host _ w
