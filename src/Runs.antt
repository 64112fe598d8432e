-- ===== src/Runs.antt =====
-- Run creation (packages/engine/src/core/runs.ts): quota first, then the row.
pub mod Paid
pub mod Refunded
pub mod Halting
use ai_agent_workflow_builde.Common.{◌+◌, String, Option, none, some, List, [], ◌∷◌, ◌==◌, find}
use ai_agent_workflow_builde.Json.{Json, null, object, end}
use ai_agent_workflow_builde.Domain.{
  Time, TriggerType, RunStatus, WorkflowRunRow, run_status_name, other,
}
use ai_agent_workflow_builde.Host.{Host}
use ai_agent_workflow_builde.Store.{Db, WorkflowRow}
use ai_agent_workflow_builde.Store.Program.{
  Program, pure, throw, handle, now, fresh_ids, request, ◌>>=◌, ◌>>◌,
}
use ai_agent_workflow_builde.Tables.{set_runs, on_engine}
use ai_agent_workflow_builde.Quota.{QuotaReservation, reserve_quota, release_quota}

pub record CreatedRun : Type 0 where
  pub run_id : String
  pub status : String
  pub org_id : String
  pub quota : QuotaReservation

pub record RunParams (N : Type 0) : Type 0 where
  pub workflow_id : String
  pub org_id : String
  pub trigger_type : TriggerType
  pub triggered_by : Option String
  pub input : Json N

module _ {N : Type 0} where
  -- `input ?? {}`
  abbrev pub input_or_empty : Json N → Json N
  input_or_empty null = object end
  input_or_empty v = v

  -- The row that CreateWorkflowRun inserts; a database trigger derives the organization.
  unfoldable pub new_run : String → Time → WorkflowRow → RunParams N → WorkflowRunRow N
  new_run uuid time wf p = record {
    id = uuid;
    workflow_id = p.workflow_id;
    org_id = wf.org_id;
    status = RunStatus.pending;
    trigger_type = p.trigger_type;
    triggered_by = p.triggered_by;
    input = input_or_empty p.input;
    resume_position = none;
    started_at = none;
    completed_at = none;
    paused_at = none;
    error = none;
    created_at = time;
  }

  -- CreateWorkflowRun; the foreign key refuses a workflow that is not there.
  unfoldable pub insert_run :
      String → Time → RunParams N → Db N → Option (Option (WorkflowRunRow N) × Db N)
  unfolding new_run
  insert_run uuid time p d = elim (find (λ w. w.id == p.workflow_id) d.engine.workflows) [
    | none ↦ none
    | some wf ↦
        let run = new_run uuid time wf p in
        some (some run, on_engine (set_runs λ rows. run ∷ rows) d)
  ]

module _ {N : Type 0} (host : Host N) where
  -- What `createRunWithQuota` makes of the row that the insertion returns.
  unfoldable pub created_of : QuotaReservation → Option (WorkflowRunRow N) → Program N CreatedRun
  created_of quota none = throw (other "workflow_run insert returned no row")
  created_of quota (some row) = pure (record {
    run_id = row.id;
    status = run_status_name row.status;
    org_id = row.org_id;
    quota = quota;
  })

  -- The body of its `try`.
  unfoldable pub insert_created : RunParams N → QuotaReservation → Program N CreatedRun
  unfolding insert_run created_of
  insert_created p quota = do
    time ← now host
    uuid ← fresh_ids host
    row ← request host (insert_run (uuid 0) time p)
    created_of quota row

  -- `createRunWithQuota`
  unfoldable pub create_run_with_quota : RunParams N → Program N CreatedRun
  unfolding insert_created
  create_run_with_quota p = do
    quota ← reserve_quota host p.org_id
    handle (insert_created p quota) (λ e. release_quota host p.org_id >> throw e) pure
