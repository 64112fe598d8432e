-- ===== src/Approval.antt =====
-- Approval of a gate and resumption of its run (packages/engine/src/core/approval.ts).
pub mod Winner
use ai_agent_workflow_builde.Common.{
  ℕ, String, Bool, true, ◌&&◌, Option, none, some, List, ◌==◌, eqb, if◌then◌else◌, keep,
  update_where, count_where, get_elem?, get_or_else,
}
use ai_agent_workflow_builde.Domain.{
  StepRunRow, StepRunStatus, Time, authorization_error, invalid_state,
}
use ai_agent_workflow_builde.Host.{Host}
use ai_agent_workflow_builde.Store.{Db, EngineTables}
use ai_agent_workflow_builde.Store.Program.{Program, pure, throw, now, request, ◌>>=◌}
use ai_agent_workflow_builde.Tables.{set_step_runs}
use ai_agent_workflow_builde.Authz.{is_paused_step, is_none}
use ai_agent_workflow_builde.Executors.{Executors}
use ai_agent_workflow_builde.Engine.{ExecutionMode, resume, execute_run}
use ai_agent_workflow_builde.Engine.Rounds.{ExecutionOutcome}

pub record ApprovalResult : Type 0 where
  pub step_run_id : String
  pub run_id : String
  pub approved_by : String
  pub approved_at : Time
  pub outcome : ExecutionOutcome

-- What ClaimApproval returns: `affected_rows`, and the rows after the update.
pub record ClaimedRows (N : Type 0) : Type 0 where
  pub affected_rows : ℕ
  pub returning : List (StepRunRow N)

module _ {N : Type 0} where
  -- The condition of ClaimApproval.
  unfoldable pub approvable : String → StepRunRow N → Bool
  approvable step_run_id r =
      r.id == step_run_id && (is_paused_step r.status && is_none r.approved_by)

  unfoldable pub approve_row : String → Time → StepRunRow N → StepRunRow N
  approve_row user_id time r = record r {
    status = StepRunStatus.completed;
    approved_by = some user_id;
    approved_at = some time;
    completed_at = some time;
    error = none;
  }

  -- ClaimApproval: one statement.
  unfoldable pub claim_approval_rows :
      String → String → Time → EngineTables N → ClaimedRows N × EngineTables N
  unfolding approvable approve_row
  claim_approval_rows step_run_id user_id time e = (
    record {
      affected_rows = count_where (approvable step_run_id) e.step_runs;
      returning =
          update_where (λ r. true) (approve_row user_id time)
            (keep (approvable step_run_id) e.step_runs);
    },
    set_step_runs (update_where (approvable step_run_id) (approve_row user_id time)) e,
  )

  unfoldable pub claim_approval : String → String → Time → Db N → Option (ClaimedRows N × Db N)
  unfolding claim_approval_rows
  claim_approval step_run_id user_id time d =
      let (claimed, e) = claim_approval_rows step_run_id user_id time d.engine in
      some (claimed, record d { engine = e })

  -- The row that the claim has won.
  unfoldable pub won_row : ClaimedRows N → Program N (StepRunRow N)
  won_row claimed = elim (get_elem? claimed.returning 0) [
    | none ↦ throw (
        authorization_error "This approval was already processed by another request." invalid_state)
    | some row ↦
        if eqb claimed.affected_rows 1
        then pure row
        else throw (
            authorization_error "This approval was already processed by another request."
              invalid_state)
  ]

module _ {N : Type 0} (host : Host N) (ex : Executors N) (fuel : ℕ) where
  unfoldable pub claim_gate : String → String → Program N (StepRunRow N)
  unfolding claim_approval won_row
  claim_gate step_run_id user_id = do
    time ← now host
    claimed ← request host (claim_approval step_run_id user_id time)
    won_row claimed

  -- `approveAndResume`; the columns of the approval are not null in the row it returns.
  unfoldable pub approve_and_resume : String → String → Program N ApprovalResult
  unfolding claim_gate
  approve_and_resume step_run_id user_id = do
    row ← claim_gate step_run_id user_id
    outcome ← execute_run host ex fuel row.workflow_run_id resume
    pure (record {
      step_run_id = row.id;
      run_id = row.workflow_run_id;
      approved_by = get_or_else row.approved_by "";
      approved_at = get_or_else row.approved_at 0;
      outcome = outcome;
    })
