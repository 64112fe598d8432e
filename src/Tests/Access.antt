-- ===== src/Tests/Access.antt =====
-- The theorems on access and quota on the small installation.
use ai_agent_workflow_builde.Common.{if◌then◌else◌, eqb}
use ai_agent_workflow_builde.Host.{Host, answered, refused}
use ai_agent_workflow_builde.Domain.{Thrown}
use ai_agent_workflow_builde.Store.{Organization}
use ai_agent_workflow_builde.Runs.Refunded.{create_run-refunded}
use ai_agent_workflow_builde.Common.{
  ℕ, String, ◌≡◌, ◌≢◌, refl, List, [], ◌∷◌, false, none, some, find, arith, subst, inr, ◌==◌,
}
use ai_agent_workflow_builde.Json.{Json, null, string, object, field, end}
use ai_agent_workflow_builde.Domain.{
  RunStatus, editor, roles_that_may_approve, roles_that_may_execute, TriggerType,
}
use ai_agent_workflow_builde.Store.{Db, World, EngineTables, OrgMember}
use ai_agent_workflow_builde.Store.Program.{Result, ok, err, out_of_fuel}
use ai_agent_workflow_builde.Tests.{
  host, executors, world_with, workflow_id, other_id, gate_id, gate_row, other_workflow, acme,
  rival,
}
use ai_agent_workflow_builde.Quota.Bounds.{
  QuotaCall, reserve, release, perform_all, IsWithinLimits, quota_never_exceeded, granted_count,
  granted_count-eq-min,
}
use ai_agent_workflow_builde.Quota.{is_org}
use ai_agent_workflow_builde.Env.{required, env_text}
use ai_agent_workflow_builde.Runs.{RunParams, CreatedRun, create_run_with_quota}
use ai_agent_workflow_builde.Runs.Paid.{IsGranted, IsInserted, create_run-paid}
use ai_agent_workflow_builde.Authz.{
  role_in, ApprovalChain, ApprovalAuthzResult, WorkflowChain, WorkflowAuthzResult,
  authorize_approval, authorize_workflow_execution,
}
use ai_agent_workflow_builde.Authz.Approvals.{IsChain, IsPermitted, authorize_approval-IsPermitted}
use ai_agent_workflow_builde.Authz.Workflows.{
  IsWorkflowChain, IsRunnable, IsStranger, authorize_workflow-IsRunnable,
  authorize_workflow-indistinguishable,
}
use ai_agent_workflow_builde.Approval.{ApprovalResult, approve_and_resume, claim_approval_rows}
use ai_agent_workflow_builde.Approval.Winner.{
  nothing_claimed, claim_approval_once, approve_and_resume-loser,
}
use ai_agent_workflow_builde.Routes.{Request, Response}
use ai_agent_workflow_builde.Routes.Actions.{trigger_for, trigger_workflow_run, approve_step}
use ai_agent_workflow_builde.Routes.Events.{execute_event}
use ai_agent_workflow_builde.Routes.WebhookUrl.{get_webhook_url}
use ai_agent_workflow_builde.Routes.Notifications.{notification_event}
use ai_agent_workflow_builde.Routes.Schedule.{scheduled_dispatch}
use ai_agent_workflow_builde.Tests.Outside.{net}
use ai_agent_workflow_builde.Routes.Guarded.{IsForeign, IsRejected, handlers-IsRejected}
use ai_agent_workflow_builde.Routes.Authorized.{IsTriggered, trigger_for-IsTriggered}

abbrev value_of : {A : Type 0} → A → Result A → A
value_of d (ok a) = a
value_of d _ = d

abbrev paused : World ℕ
paused = world_with RunStatus.paused (gate_row ∷ [])

abbrev idle : World ℕ
idle = world_with RunStatus.completed []

abbrev ids : ℕ → String
ids i = "q"

-- Quota.
abbrev calls : List QuotaCall
calls =
    reserve "acme" 1000 500
    ∷ reserve "acme" 1001 500
    ∷ reserve "acme" 1002 500
    ∷ release "acme" 1003
    ∷ []

quota_never_exceeded_example : IsWithinLimits (perform_all ids 0 calls idle.db)
quota_never_exceeded_example =
    quota_never_exceeded ids 0 calls idle.db (omega arith, (omega arith, tt))

granted_count-eq-min_example : granted_count ids 0 500 "acme" (1000 ∷ 1001 ∷ 1002 ∷ []) idle.db ≡ 2
unfolding is_org
granted_count-eq-min_example =
    granted_count-eq-min ids 0 500 "acme" (1000 ∷ 1001 ∷ 1002 ∷ []) idle.db acme refl refl

-- Runs.
abbrev params : RunParams ℕ
params = record {
  workflow_id = workflow_id;
  org_id = "acme";
  trigger_type = TriggerType.manual;
  triggered_by = some "ann";
  input = object end;
}

abbrev no_run : CreatedRun
no_run = record { run_id = ""; status = ""; org_id = ""; quota = record { used = 0; limit = 0 } }

abbrev created : CreatedRun
created = value_of no_run (create_run_with_quota host params idle).0

create_run-paid_example :
    (d : Db ℕ) × IsGranted "acme" 500 idle.db d created.quota
    × IsInserted host params d (create_run_with_quota host params idle).1.db created.quota created
unfolding create_run_with_quota ai_agent_workflow_builde.Quota.reserve_quota
    ai_agent_workflow_builde.Store.Program.request
create_run-paid_example =
    create_run-paid host params idle (create_run_with_quota host params idle).1 created refl

-- Authorization.
abbrev no_approval : ApprovalAuthzResult
no_approval = record {
  step_run_id = "";
  step_name = "";
  step_position = 0;
  run_id = "";
  workflow_id = "";
  org_id = "";
  role = editor;
}

abbrev approval : Result ApprovalAuthzResult × World ℕ
approval = authorize_approval host gate_id "ann" roles_that_may_approve paused

authorize_approval-IsPermitted_example :
    (c : ApprovalChain ℕ) × IsChain gate_id "ann" paused.db c
    × IsPermitted roles_that_may_approve c (value_of no_approval approval.0)
    × (approval.1.db ≡ paused.db)
unfolding authorize_approval ai_agent_workflow_builde.Store.Program.request
authorize_approval-IsPermitted_example =
    authorize_approval-IsPermitted host gate_id "ann" roles_that_may_approve paused approval.1
      (value_of no_approval approval.0) refl

abbrev no_workflow : WorkflowAuthzResult
no_workflow = record {
  workflow_id = "";
  workflow_name = "";
  org_id = "";
  role = editor;
  step_count = 0;
  used = 0;
  limit = 0;
}

abbrev permission : Result WorkflowAuthzResult × World ℕ
permission = authorize_workflow_execution host workflow_id "ann" roles_that_may_execute idle

authorize_workflow-IsRunnable_example :
    (c : WorkflowChain) × IsWorkflowChain workflow_id "ann" idle.db c
    × IsRunnable roles_that_may_execute c (value_of no_workflow permission.0)
    × (permission.1.db ≡ idle.db)
unfolding authorize_workflow_execution ai_agent_workflow_builde.Store.Program.request
authorize_workflow-IsRunnable_example =
    authorize_workflow-IsRunnable host workflow_id "ann" roles_that_may_execute idle permission.1
      (value_of no_workflow permission.0) refl

rival-IsStranger : IsStranger other_id "ann" idle.db
unfolding role_in is_org
rival-IsStranger = record {
  outside = λ wf e.
      let same : other_workflow ≡ wf = cc in
      subst (λ x. role_in x.org_id "ann" idle.db.members ≡ none) same refl;
  owned = λ wf e.
      let same : other_workflow ≡ wf = cc in
      (rival, subst (λ x. find (is_org x.org_id) idle.db.organizations ≡ some rival) same refl);
}

missing-IsStranger : IsStranger gate_id "ann" idle.db
missing-IsStranger = record { outside = λ wf e. cc; owned = λ wf e. cc }

authorize_workflow-indistinguishable_example :
    authorize_workflow_execution host other_id "ann" roles_that_may_execute idle
    ≡ authorize_workflow_execution host gate_id "ann" roles_that_may_execute idle
unfolding ai_agent_workflow_builde.Authz.Uuid.is_uuid
authorize_workflow-indistinguishable_example =
    authorize_workflow-indistinguishable host "ann" roles_that_may_execute other_id gate_id idle
      refl refl rival-IsStranger missing-IsStranger

-- Approval.
claim_approval_once_example :
    claim_approval_rows gate_id "bob" 20 (claim_approval_rows gate_id "ann" 10 paused.db.engine).1
    ≡ (nothing_claimed, (claim_approval_rows gate_id "ann" 10 paused.db.engine).1)
claim_approval_once_example = claim_approval_once gate_id "ann" "bob" 10 20 paused.db.engine

abbrev approved : World ℕ
approved = record paused {
  db = record (paused.db) { engine = (claim_approval_rows gate_id "ann" 10 paused.db.engine).1 };
}

approve_and_resume-loser_example :
    ((approve_and_resume host executors 4 gate_id "bob" approved).1.db ≡ approved.db)
    × ((a : ApprovalResult) (w' : World ℕ)
        → approve_and_resume host executors 4 gate_id "bob" approved ≢ (ok a, w'))
unfolding claim_approval_rows
approve_and_resume-loser_example =
    approve_and_resume-loser host executors 4 gate_id "bob" approved refl

-- Handlers.
abbrev forged : Request ℕ
forged = record { action_secret = some "guess"; body = some (object end) }

forged-IsForeign : IsForeign host forged
unfolding required env_text
forged-IsForeign secret h =
    inr (let same : "s3cret" ≡ secret = cc in subst (λ s. ("guess" == s) ≡ false) same refl)

handlers-IsRejected_example :
    IsRejected host forged idle (trigger_workflow_run host forged idle)
    × IsRejected host forged idle (approve_step host executors 4 forged idle)
    × IsRejected host forged idle (get_webhook_url host forged idle)
    × IsRejected host forged idle (execute_event host executors 4 forged idle)
    × IsRejected host forged idle (notification_event host net forged idle)
    × IsRejected host forged idle (scheduled_dispatch host net forged idle)
handlers-IsRejected_example = handlers-IsRejected host net executors 4 forged idle forged-IsForeign

abbrev payload : Json ℕ
payload = object (field "input" (object (field "workflow_id" (string workflow_id) end)) end)

abbrev no_response : Response ℕ
no_response = record { status = 0; body = null }

abbrev triggered : Result (Response ℕ) × World ℕ
triggered = trigger_for host (payload, "ann") idle

trigger_for-IsTriggered_example : IsTriggered host payload "ann" idle triggered.1
unfolding trigger_for ai_agent_workflow_builde.Routes.uuid_input authorize_workflow_execution
    ai_agent_workflow_builde.Store.Program.request create_run_with_quota
    ai_agent_workflow_builde.Quota.reserve_quota
trigger_for-IsTriggered_example =
    trigger_for-IsTriggered host payload "ann" idle triggered.1 (value_of no_response triggered.0)
      refl

-- An insertion that the network swallows.
abbrev failing_host : Host ℕ
failing_host = record host { delivery = λ t. if eqb t 1 then refused else answered }

create_run-refunded_example :
    (e : Thrown) × (w' : World ℕ) × (r : Organization) × (create_run_with_quota failing_host params
        idle
      ≡ (err e, w'))
    × (w'.db.engine ≡ idle.db.engine)
    × (find (is_org "acme") w'.db.organizations ≡ some r)
    × (r.quota_used ≡ 1)
unfolding is_org ai_agent_workflow_builde.Quota.in_period
create_run-refunded_example =
    create_run-refunded failing_host params idle acme refl refl refl refl refl
