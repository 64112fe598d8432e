-- ===== src/Authz.antt =====
-- Runtime authorization (packages/engine/src/core/authz.ts): the caller's role is found by walking
-- the tables from a workflow or a step run to the caller's membership.
pub mod Uuid
pub mod Approvals
pub mod Workflows
use ai_agent_workflow_builde.Common.{
  ℕ, String, Bool, true, false, ◌&&◌, Option, none, some, List, [], ◌∷◌, ◌==◌, eqb, if◌then◌else◌,
  find, keep, length, get_or_else,
}
use ai_agent_workflow_builde.Common.Text.{trim}
use ai_agent_workflow_builde.Domain.{
  OrgRole, role_name, has_role, StepType, step_type_name, StepRunStatus, RunStatus,
  step_run_status_name, run_status_name, AuthorizationCode, unauthenticated, not_found, forbidden,
  invalid_state, authorization_error, WorkflowStepRow, WorkflowRunRow, StepRunRow, Time,
}
use ai_agent_workflow_builde.Host.{Host}
use ai_agent_workflow_builde.Store.{Db, OrgMember, Organization, WorkflowRow, WorkflowStatus}
use ai_agent_workflow_builde.Store.Program.{Program, pure, throw, request, ◌>>=◌}
use ai_agent_workflow_builde.Quota.{is_org}
use ai_agent_workflow_builde.Authz.Uuid.{is_uuid}
use Prim.Native.String.{◌++◌}

-- The session variables that are read.
pub record SessionVariables : Type 0 where
  pub user_id : Option String
  pub role : Option String

-- `roles.join(' or ')`
unfoldable pub join_roles : List OrgRole → String
join_roles [] = ""
join_roles (r ∷ []) = role_name r
join_roles (r ∷ s ∷ rs) = role_name r ++ (" or " ++ join_roles (s ∷ rs))

-- The first membership of a user in an organization; a user has at most one.
unfoldable pub role_in : String → String → List OrgMember → Option OrgRole
role_in org_id user_id [] = none
role_in org_id user_id (m ∷ ms) =
    if m.org_id == org_id && m.user_id == user_id then some m.role else role_in org_id user_id ms

abbrev pub is_archived : WorkflowStatus → Bool
is_archived WorkflowStatus.archived = true
is_archived _ = false

abbrev pub is_approval_gate : StepType → Bool
is_approval_gate StepType.approval_gate = true
is_approval_gate _ = false

abbrev pub is_paused_step : StepRunStatus → Bool
is_paused_step StepRunStatus.paused = true
is_paused_step _ = false

abbrev pub is_paused_run : RunStatus → Bool
is_paused_run RunStatus.paused = true
is_paused_run _ = false

abbrev pub is_none : {A : Type 0} → Option A → Bool
is_none none = true
is_none (some _) = false

-- The answer to WorkflowAuthorizationChain.
pub record WorkflowChain : Type 0 where
  pub workflow : WorkflowRow
  pub quota_used : ℕ
  pub quota_limit : ℕ
  pub membership : Option OrgRole
  pub step_count : ℕ

pub record WorkflowAuthzResult : Type 0 where
  pub workflow_id : String
  pub workflow_name : String
  pub org_id : String
  pub role : OrgRole
  pub step_count : ℕ
  pub used : ℕ
  pub limit : ℕ

-- The answer to ApprovalAuthorizationChain.
pub record ApprovalChain (N : Type 0) : Type 0 where
  pub step_run : StepRunRow N
  pub step : WorkflowStepRow N
  pub run : WorkflowRunRow N
  pub membership : Option OrgRole

pub record ApprovalAuthzResult : Type 0 where
  pub step_run_id : String
  pub step_name : String
  pub step_position : ℕ
  pub run_id : String
  pub workflow_id : String
  pub org_id : String
  pub role : OrgRole

module _ {N : Type 0} where
  -- `requireUserId`
  unfoldable pub require_user_id : SessionVariables → Program N String
  unfolding trim
  require_user_id s =
      let user_id = get_or_else s.user_id "" in
      if trim user_id == ""
      then throw (
          authorization_error
            (if get_or_else s.role "" == "admin"
              then "This action requires an authenticated end user; it cannot be called with the admin secret alone."
              else "Not authenticated.")
            unauthenticated)
      else pure user_id

  -- The joins follow foreign keys; the database has no row without them, and refuses.
  unfoldable pub workflow_chain : String → String → Db N → Option (Option WorkflowChain × Db N)
  unfolding is_org role_in
  workflow_chain workflow_id user_id d = elim (find (λ w. w.id == workflow_id) d.engine.workflows) [
    | none ↦ some (none, d)
    | some wf ↦ elim (find (is_org wf.org_id) d.organizations) [
      | none ↦ none
      | some o ↦
          let chain : WorkflowChain = record {
            workflow = wf;
            quota_used = o.quota_used;
            quota_limit = o.quota_limit;
            membership = role_in wf.org_id user_id d.members;
            step_count = length (keep (λ s. s.workflow_id == wf.id) d.engine.steps);
          } in
          some (some chain, d)
    ]
  ]

  abbrev workflow_missing : Program N WorkflowAuthzResult
  workflow_missing =
      throw (authorization_error "Workflow not found or you do not have access to it." not_found)

  -- The checks of `authorizeWorkflowExecution` for a member.
  unfoldable pub check_workflow :
      List OrgRole → WorkflowChain → OrgRole → Program N WorkflowAuthzResult
  unfolding join_roles
  check_workflow allowed c role =
      if has_role allowed role
      then if is_archived c.workflow.status
        then throw
            (authorization_error "This workflow is archived and cannot be run." invalid_state)
        else if eqb c.step_count 0
        then throw (authorization_error "This workflow has no steps to execute." invalid_state)
        else pure (record {
          workflow_id = c.workflow.id;
          workflow_name = c.workflow.name;
          org_id = c.workflow.org_id;
          role = role;
          step_count = c.step_count;
          used = c.quota_used;
          limit = c.quota_limit;
        })
      else throw (
          authorization_error
            ("Your role in this organization is \""
              ++ (role_name role
                  ++ ("\"; " ++ (join_roles allowed ++ " is required to run a workflow."))))
            forbidden)

  unfoldable pub check_workflow_chain :
      List OrgRole → Option WorkflowChain → Program N WorkflowAuthzResult
  unfolding check_workflow
  check_workflow_chain allowed none = workflow_missing
  check_workflow_chain allowed (some c) = elim c.membership [
    | none ↦ workflow_missing
    | some role ↦ check_workflow allowed c role
  ]

  unfoldable pub approval_chain : String → String → Db N → Option (Option (ApprovalChain N) × Db N)
  unfolding role_in
  approval_chain step_run_id user_id d = elim (find (λ r. r.id == step_run_id) d.engine.step_runs) [
    | none ↦ some (none, d)
    | some sr ↦ elim (find (λ s. s.id == sr.workflow_step_id) d.engine.steps) [
      | none ↦ none
      | some step ↦ elim (find (λ r. r.id == sr.workflow_run_id) d.engine.runs) [
        | none ↦ none
        | some run ↦ elim (find (λ w. w.id == run.workflow_id) d.engine.workflows) [
          | none ↦ none
          | some wf ↦
              let chain : ApprovalChain N = record {
                step_run = sr;
                step = step;
                run = run;
                membership = role_in wf.org_id user_id d.members;
              } in
              some (some chain, d)
        ]
      ]
    ]
  ]

  abbrev approval_missing : Program N ApprovalAuthzResult
  approval_missing =
      throw
        (authorization_error "Approval step not found or you do not have access to it." not_found)

  abbrev approval_invalid : String → Program N ApprovalAuthzResult
  approval_invalid message = throw (authorization_error message invalid_state)

  -- The checks of `authorizeApproval` for a member.
  unfoldable pub check_approval :
      List OrgRole → ApprovalChain N → OrgRole → Program N ApprovalAuthzResult
  unfolding join_roles
  check_approval allowed c role =
      if has_role allowed role
      then if is_approval_gate c.step.type
        then if is_none c.step_run.approved_at && is_none c.step_run.approved_by
          then if is_paused_step c.step_run.status
            then if is_paused_run c.run.status
              then pure (record {
                step_run_id = c.step_run.id;
                step_name = c.step.name;
                step_position = c.step.position;
                run_id = c.run.id;
                workflow_id = c.run.workflow_id;
                org_id = c.run.org_id;
                role = role;
              })
              else approval_invalid
                  ("The run is \"" ++ (run_status_name c.run.status ++ "\", not paused."))
            else approval_invalid (
                "This step is \""
                ++ (step_run_status_name c.step_run.status ++ "\", not awaiting approval."))
          else approval_invalid "This approval has already been processed."
        else approval_invalid (
            "Step \""
            ++ (c.step.name
                ++ ("\" is a " ++ (step_type_name c.step.type ++ ", not an approval_gate."))))
      else throw (
          authorization_error
            ("Your role in this organization is \""
              ++ (role_name role ++ ("\"; " ++ (join_roles allowed ++ " is required to approve."))))
            forbidden)

  unfoldable pub check_approval_chain :
      List OrgRole → Option (ApprovalChain N) → Program N ApprovalAuthzResult
  unfolding check_approval
  check_approval_chain allowed none = approval_missing
  check_approval_chain allowed (some c) = elim c.membership [
    | none ↦ approval_missing
    | some role ↦ check_approval allowed c role
  ]

module _ {N : Type 0} (host : Host N) where
  -- `authorizeWorkflowExecution`
  unfoldable pub authorize_workflow_execution :
      String → String → List OrgRole → Program N WorkflowAuthzResult
  unfolding check_workflow_chain workflow_chain is_uuid
  authorize_workflow_execution workflow_id user_id allowed =
      if is_uuid workflow_id
      then request host (workflow_chain workflow_id user_id) >>= check_workflow_chain allowed
      else throw (authorization_error "workflow_id must be a UUID." not_found)

  -- `authorizeApproval`
  unfoldable pub authorize_approval : String → String → List OrgRole → Program N ApprovalAuthzResult
  unfolding check_approval_chain approval_chain is_uuid
  authorize_approval step_run_id user_id allowed =
      if is_uuid step_run_id
      then request host (approval_chain step_run_id user_id) >>= check_approval_chain allowed
      else throw (authorization_error "step_run_id must be a UUID." not_found)
