-- ===== src/Routes/Actions.antt =====
-- The actions triggerWorkflowRun and approveStep
-- (apps/web/app/api/actions/{trigger-workflow-run,approve-step}/route.ts).
use ai_agent_workflow_builde.Common.{ℕ, String, some, get_or_else}
use ai_agent_workflow_builde.Json.{
  Json, number, string, object, field, end, prop, prop_of, non_null,
}
use ai_agent_workflow_builde.Domain.{roles_that_may_execute, roles_that_may_approve, TriggerType}
use ai_agent_workflow_builde.Host.{Host}
use ai_agent_workflow_builde.Executors.{Executors}
use ai_agent_workflow_builde.Engine.Rounds.{OutcomeStatus}
use ai_agent_workflow_builde.Store.Program.{Program, pure, ◌>>=◌, ◌>>◌}
use ai_agent_workflow_builde.Authz.{
  WorkflowAuthzResult, require_user_id, authorize_workflow_execution, authorize_approval,
}
use ai_agent_workflow_builde.Runs.{RunParams, CreatedRun, create_run_with_quota}
use ai_agent_workflow_builde.Approval.{ApprovalResult, approve_and_resume}
use ai_agent_workflow_builde.Routes.{
  Request, Response, guarded, assert_called_by_hasura, parse_action_payload, session_of, uuid_input,
}

-- The status that `approveStep` reports.
abbrev pub reported_status : OutcomeStatus → String
reported_status OutcomeStatus.completed = "completed"
reported_status OutcomeStatus.failed = "failed"
reported_status OutcomeStatus.paused = "paused"
reported_status OutcomeStatus.skipped_already_running = "running"
reported_status OutcomeStatus.noop = "running"

module _ {N : Type 0} (host : Host N) where
  -- What every action begins with: the caller is Hasura, and there is a user.
  unfoldable pub action_caller : Request N → Program N (Json N × String)
  action_caller request = do
    assert_called_by_hasura host request
    payload ← parse_action_payload host request.body
    session ← session_of host (prop "session_variables" payload)
    user_id ← require_user_id session
    pure (payload, user_id)

  -- `(payload.input?.input ?? {}) as Json`
  abbrev pub run_input : Json N → Json N
  run_input payload = get_or_else (non_null (prop_of "input" (prop "input" payload))) (object end)

  abbrev pub manual_run : WorkflowAuthzResult → String → Json N → RunParams N
  manual_run authz user_id payload = record {
    workflow_id = authz.workflow_id;
    org_id = authz.org_id;
    trigger_type = TriggerType.manual;
    triggered_by = some user_id;
    input = run_input payload;
  }

  triggered_response : WorkflowAuthzResult → CreatedRun → Response N
  triggered_response authz created = record {
    status = 200;
    body = object (
        field "run_id" (string created.run_id) (
          field "status" (string created.status) (
            field "workflow_id" (string authz.workflow_id) (
              field "quota_used" (number (host.of_ℕ created.quota.used))
                (field "quota_limit" (number (host.of_ℕ created.quota.limit)) end)))));
  }

  -- From the caller on: authorization, then the run.
  unfoldable pub trigger_for : Json N × String → Program N (Response N)
  unfolding triggered_response
  trigger_for (payload, user_id) = do
    workflow_id ← uuid_input host "workflow_id" payload
    authz ← authorize_workflow_execution host workflow_id user_id roles_that_may_execute
    created ← create_run_with_quota host (manual_run authz user_id payload)
    pure (triggered_response authz created)

  -- The body of the `try` of triggerWorkflowRun, and its handler.
  unfoldable pub trigger_workflow_run_body : Request N → Program N (Response N)
  unfolding action_caller trigger_for
  trigger_workflow_run_body request = action_caller request >>= trigger_for

  unfoldable pub trigger_workflow_run : Request N → Program N (Response N)
  unfolding trigger_workflow_run_body guarded
  trigger_workflow_run request = guarded (trigger_workflow_run_body request)

  module _ (ex : Executors N) (fuel : ℕ) where
    approved_response : ApprovalResult → Response N
    approved_response result = record {
      status = 200;
      body = object (
          field "step_run_id" (string result.step_run_id) (
            field "run_id" (string result.run_id) (
              field "approved_by" (string result.approved_by) (
                field "approved_at" (number (host.of_ℕ result.approved_at))
                  (field "run_status" (string (reported_status result.outcome.status)) end)))));
    }

    unfoldable pub approve_for : Json N × String → Program N (Response N)
    unfolding approved_response
    approve_for (payload, user_id) = do
      step_run_id ← uuid_input host "step_run_id" payload
      authorize_approval host step_run_id user_id roles_that_may_approve
      result ← approve_and_resume host ex fuel step_run_id user_id
      pure (approved_response result)

    unfoldable pub approve_step_body : Request N → Program N (Response N)
    unfolding action_caller approve_for
    approve_step_body request = action_caller request >>= approve_for

    unfoldable pub approve_step : Request N → Program N (Response N)
    unfolding approve_step_body guarded
    approve_step request = guarded (approve_step_body request)
