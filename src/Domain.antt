-- ===== src/Domain.antt =====
-- The shared domain types (packages/engine/src/types.ts).
use ai_agent_workflow_builde.Common.{
  ℕ, String, Bool, true, false, Option, List, [], ◌∷◌, ◌==◌, if◌then◌else◌,
}
use ai_agent_workflow_builde.Json.{Json}

pub data OrgRole : Type 0 where
  owner editor viewer : OrgRole

pub data StepType : Type 0 where
  llm_call http_request db_write notify conditional_branch approval_gate : StepType

pub data TriggerType : Type 0 where
  manual webhook scheduled database_event : TriggerType

pub data RunStatus : Type 0 where
  pending running paused completed failed cancelled : RunStatus

pub data StepRunStatus : Type 0 where
  pending running paused completed failed skipped : StepRunStatus

-- The values as they stand in a database column or a message.
abbrev pub role_name : OrgRole → String
role_name owner = "owner"
role_name editor = "editor"
role_name viewer = "viewer"

abbrev pub step_type_name : StepType → String
step_type_name llm_call = "llm_call"
step_type_name http_request = "http_request"
step_type_name db_write = "db_write"
step_type_name notify = "notify"
step_type_name conditional_branch = "conditional_branch"
step_type_name approval_gate = "approval_gate"

abbrev pub run_status_name : RunStatus → String
run_status_name RunStatus.pending = "pending"
run_status_name RunStatus.running = "running"
run_status_name RunStatus.paused = "paused"
run_status_name RunStatus.completed = "completed"
run_status_name RunStatus.failed = "failed"
run_status_name RunStatus.cancelled = "cancelled"

abbrev pub step_run_status_name : StepRunStatus → String
step_run_status_name StepRunStatus.pending = "pending"
step_run_status_name StepRunStatus.running = "running"
step_run_status_name StepRunStatus.paused = "paused"
step_run_status_name StepRunStatus.completed = "completed"
step_run_status_name StepRunStatus.failed = "failed"
step_run_status_name StepRunStatus.skipped = "skipped"

-- `roles.includes(role)`
abbrev pub has_role : List OrgRole → OrgRole → Bool
has_role [] r = false
has_role (x ∷ xs) r = if role_name x == role_name r then true else has_role xs r

abbrev pub roles_that_may_execute : List OrgRole
roles_that_may_execute = owner ∷ editor ∷ []

abbrev pub roles_that_may_approve : List OrgRole
roles_that_may_approve = owner ∷ editor ∷ []

-- Times are milliseconds since the epoch.
abbrev pub Time : Type 0
Time = ℕ

pub record WorkflowStepRow (N : Type 0) : Type 0 where
  pub id : String
  pub workflow_id : String
  pub position : ℕ
  pub type : StepType
  pub name : String
  pub config : Json N

pub record WorkflowRunRow (N : Type 0) : Type 0 where
  pub id : String
  pub workflow_id : String
  pub org_id : String
  pub status : RunStatus
  pub trigger_type : TriggerType
  pub triggered_by : Option String
  pub input : Json N
  pub resume_position : Option ℕ
  pub started_at : Option Time
  pub completed_at : Option Time
  pub paused_at : Option Time
  pub error : Option String
  pub created_at : Time

pub record StepRunRow (N : Type 0) : Type 0 where
  pub id : String
  pub workflow_run_id : String
  pub workflow_step_id : String
  pub status : StepRunStatus
  pub input : Json N
  pub output : Json N
  pub error : Option String
  pub attempt_count : ℕ
  pub started_at : Option Time
  pub completed_at : Option Time
  pub approved_by : Option String
  pub approved_at : Option Time

pub data ConditionOperator : Type 0 where
  equals not_equals contains not_contains matches in_list gt gte lt lte : ConditionOperator
  exists not_exists is_true is_false : ConditionOperator

pub record Condition (N : Type 0) : Type 0 where
  pub path : String
  pub operator : ConditionOperator
  pub value : Option (Json N)

-- What a step's executor returns; `branch` is set by conditional_branch alone.
pub record StepExecutionResult (N : Type 0) : Type 0 where
  pub output : Json N
  pub branch : Option (Json N)

pub data AuthorizationCode : Type 0 where
  unauthenticated not_found forbidden invalid_state quota_exhausted : AuthorizationCode

-- The errors that the program throws; `other` is any other `Error`.
pub data Thrown : Type 0 where
  step_error : (message : String) (permanent : Bool) → Thrown
  authorization_error : (message : String) → AuthorizationCode → Thrown
  graphql_error : (message : String) → Thrown
  handler_error : (message : String) (status : ℕ) (code : String) → Thrown
  other : (message : String) → Thrown

-- `err.message`
abbrev pub message_of : Thrown → String
message_of (step_error m _) = m
message_of (authorization_error m _) = m
message_of (graphql_error m) = m
message_of (handler_error m _ _) = m
message_of (other m) = m
