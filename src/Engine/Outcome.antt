-- ===== src/Engine/Outcome.antt =====
-- What the outcome of a run's execution says of its rows.
use ai_agent_workflow_builde.Common.{ℕ, suc, ◌≡◌, refl, length, arith}
use ai_agent_workflow_builde.Host.{Host}
use ai_agent_workflow_builde.Executors.{Executors, ExecutorsLaws}
use ai_agent_workflow_builde.Store.{World}
use ai_agent_workflow_builde.Store.Program.{ok}
use ai_agent_workflow_builde.Tables.{RunBundle}
use ai_agent_workflow_builde.Engine.{ExecutionMode, first_index, execute_bundle}
use ai_agent_workflow_builde.Engine.Rounds.{ExecutionOutcome, build_context}
use ai_agent_workflow_builde.Engine.Progress.{Progress, HasDistinctIds}
use ai_agent_workflow_builde.Engine.Loop.{IsUnapproved, Accounted, run_loop-Settles}

-- Let a run be executed from its first index, where the steps before that index are done (their rows
-- are completed or skipped), no step from there on has a row or an approval, the steps have distinct
-- ids, and the executors leave the engine's tables alone. If the execution returns, its outcome is
-- completed, paused or failed. Completed: every step is done. Paused: some step's row is paused, the
-- steps before it are done and the steps after it have no row. Failed: some step's row is failed,
-- the steps before it are done, and each step after it is done or has no row. In each case the run's
-- row has been set to the status of the outcome.
pub execute_bundle-Accounted :
    {N : Type 0} (host : Host N) (ex : Executors N) (laws : ExecutorsLaws ex) (fuel : ℕ)
    (bundle : RunBundle N) (distinct : HasDistinctIds bundle.steps) (mode : ExecutionMode)
    (unapproved : IsUnapproved host ex laws fuel bundle distinct
      (first_index host ex fuel mode bundle))
    (w : World N) (o : ExecutionOutcome) (w' : World N)
    → Progress bundle.run.id bundle.steps
        (first_index host ex fuel mode bundle)
        w.db.engine.step_runs
    → execute_bundle host ex fuel mode bundle w ≡ (ok o, w')
    → Accounted host ex laws fuel bundle distinct
        (first_index host ex fuel mode bundle)
        unapproved
        w.db
        o
        w'.db
unfolding execute_bundle
execute_bundle-Accounted host ex laws fuel bundle distinct mode unapproved w o w' p h =
    (run_loop-Settles host ex laws fuel bundle distinct (first_index host ex fuel mode bundle)
        unapproved w.db (suc (length bundle.steps)) (first_index host ex fuel mode bundle) 0
        (build_context host bundle) w (omega arith) p refl).holds
      o w' h
