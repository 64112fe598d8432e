-- ===== src/Tests/Engine.antt =====
-- The theorems on the engine, on a run of the small installation.
use ai_agent_workflow_builde.Common.{
  ℕ, zero, suc, String, ◌≡◌, refl, ap, ◌==◌, [], true, false, arith,
}
use ai_agent_workflow_builde.Domain.{RunStatus}
use ai_agent_workflow_builde.Store.{World, EngineTables}
use ai_agent_workflow_builde.Store.Program.{Result, ok, err, out_of_fuel}
use ai_agent_workflow_builde.Tests.{host, executors, executors_laws, world_with, bundle}
use ai_agent_workflow_builde.Engine.{start, execute_bundle, execute_run, first_index}
use ai_agent_workflow_builde.Engine.Rounds.{ExecutionOutcome, OutcomeStatus, outcome}
use ai_agent_workflow_builde.Engine.Progress.{HasDistinctIds, Progress}
use ai_agent_workflow_builde.Engine.Loop.{IsUnapproved, Accounted}
use ai_agent_workflow_builde.Engine.Outcome.{execute_bundle-Accounted}
use ai_agent_workflow_builde.Engine.Claims.{execute_run_redelivered, claim_rows_once, IsIgnored}
use ai_agent_workflow_builde.Tables.{claim_rows}

abbrev outcome_of : Result ExecutionOutcome → ExecutionOutcome
outcome_of (ok o) = o
outcome_of _ = outcome "" OutcomeStatus.noop 0

apart : Path String "n" "g" → ⊥
apart h = let no : false ≡ true = ap (λ x. x == "g") h in cc

bundle-HasDistinctIds : HasDistinctIds bundle.steps
bundle-HasDistinctIds zero zero s t p q e = refl
bundle-HasDistinctIds zero (suc zero) s t p q e = absurd (apart (cc (p, q, e)))
bundle-HasDistinctIds zero (suc (suc k)) s t p q e = cc
bundle-HasDistinctIds (suc zero) zero s t p q e = absurd (apart (cc (p, q, e)))
bundle-HasDistinctIds (suc zero) (suc zero) s t p q e = refl
bundle-HasDistinctIds (suc zero) (suc (suc k)) s t p q e = cc
bundle-HasDistinctIds (suc (suc j)) k s t p q e = cc

bundle-IsUnapproved : IsUnapproved host executors executors_laws 4 bundle bundle-HasDistinctIds 0
unfolding ai_agent_workflow_builde.Engine.Rounds.is_approved
bundle-IsUnapproved k s at from = refl

bundle-Progress : Progress "r" bundle.steps 0 []
bundle-Progress = record { done = λ k s at lt. absurd (omega arith); fresh = λ k s at le. refl }

abbrev running : World ℕ
running = world_with RunStatus.running []

abbrev execution : Result ExecutionOutcome × World ℕ
execution = execute_bundle host executors 4 start bundle running

execute_bundle-Accounted_example :
    Accounted host executors executors_laws 4 bundle bundle-HasDistinctIds 0 bundle-IsUnapproved
      running.db
      (outcome_of execution.0)
      execution.1.db
unfolding execute_bundle ai_agent_workflow_builde.Engine.Rounds.step_round
    ai_agent_workflow_builde.Repository.upsert_step_run
    ai_agent_workflow_builde.Store.Program.request ai_agent_workflow_builde.Tables.upserted
    ai_agent_workflow_builde.Retry.with_retry ai_agent_workflow_builde.Retry.resolve_policy
    ai_agent_workflow_builde.Context.resolve_templates ai_agent_workflow_builde.Env.int_env
    ai_agent_workflow_builde.Steps.execute_notify
    ai_agent_workflow_builde.Context.interpolate_string ai_agent_workflow_builde.Tables.is_run
    ai_agent_workflow_builde.Repository.mark_run_paused
execute_bundle-Accounted_example =
    execute_bundle-Accounted host executors executors_laws 4 bundle bundle-HasDistinctIds start
      bundle-IsUnapproved running (outcome_of execution.0) execution.1 bundle-Progress refl

-- The event for a run that is being execution, delivered again.
execute_run_redelivered_example :
    IsIgnored host executors 4 "r" running
      (outcome "r" OutcomeStatus.skipped_already_running 0)
      (execute_run host executors 4 "r" start running).1
unfolding ai_agent_workflow_builde.Tables.claimable ai_agent_workflow_builde.Tables.is_run
    execute_run ai_agent_workflow_builde.Repository.load_run_bundle
    ai_agent_workflow_builde.Store.Program.request ai_agent_workflow_builde.Tables.find_bundle
    ai_agent_workflow_builde.Repository.claim_run_for_execution
    ai_agent_workflow_builde.Repository.claim_request claim_rows
execute_run_redelivered_example =
    execute_run_redelivered host executors 4 "r" running
      (outcome "r" OutcomeStatus.skipped_already_running 0)
      (execute_run host executors 4 "r" start running).1 refl refl

abbrev waiting : EngineTables ℕ
waiting = (world_with RunStatus.pending []).db.engine

claim_rows_once_example :
    claim_rows "r" 20 (claim_rows "r" 10 waiting).1 ≡ (0, (claim_rows "r" 10 waiting).1)
claim_rows_once_example = claim_rows_once "r" 10 20 waiting
