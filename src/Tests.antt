-- ===== src/Tests.antt =====
-- A small installation: one organization with a workflow of two steps and a member, and a second
-- organization that this member does not belong to. The theorems are applied to it.
mod Engine
mod Access
mod Parts
mod Outside
mod Handlers
use ai_agent_workflow_builde.Common.{
  ℕ, ◌+◌, String, true, none, some, List, [], ◌∷◌, ◌==◌, ltb, leb, eqb, if◌then◌else◌,
}
use ai_agent_workflow_builde.Json.{Json, null, string, object, field, end}
use ai_agent_workflow_builde.Domain.{
  editor, WorkflowStepRow, WorkflowRunRow, StepRunRow, StepType, TriggerType, RunStatus,
  StepRunStatus, StepExecutionResult,
}
use ai_agent_workflow_builde.Host.{Host, finite, answered}
use ai_agent_workflow_builde.Store.{
  Db, World, EngineTables, Organization, OrgMember, WorkflowRow, WorkflowStatus,
}
use ai_agent_workflow_builde.Store.Program.{pure}
use ai_agent_workflow_builde.Executors.{Executors, ExecutorsLaws}
use ai_agent_workflow_builde.Steps.{execute_db_write, execute_notify}
use ai_agent_workflow_builde.Steps.Frames.{steps-LeavesEngine}
use ai_agent_workflow_builde.Tables.{RunBundle}

abbrev pub host : Host ℕ
host = record {
  show = λ n. "0";
  num_lt = ltb;
  num_le = leb;
  num_eq = eqb;
  of_ℕ = λ n. n;
  parse_number = λ s. none;
  to_limit = λ v. finite 2;
  to_text = λ v. "";
  to_lower = λ s. s;
  regexp_test = λ p s. none;
  parse_json = λ s. none;
  env_var = λ s. if s == "ACTION_WEBHOOK_SECRET" then some "s3cret" else none;
  time = λ t. 1000 + t;
  month_start = λ t. 500;
  uuid = λ t i. "new";
  jitter = λ t n. 0;
  delivery = λ t. answered;
}

abbrev pub silent : StepExecutionResult ℕ
silent = record { output = null; branch = none }

abbrev pub executors : Executors ℕ
executors = record {
  llm_call = λ c. pure silent;
  http_request = λ c. pure silent;
  db_write = λ c run. execute_db_write host c run;
  notify = λ c run step_run. execute_notify host c run step_run;
}

pub executors_laws : ExecutorsLaws executors
executors_laws = record {
  llm_call_leaves = λ c w i. w.db.engine;
  http_request_leaves = λ c w i. w.db.engine;
  db_write_leaves = λ c run. (steps-LeavesEngine host c run "").0;
  notify_leaves = λ c run step_run. (steps-LeavesEngine host c run step_run).1;
}

abbrev pub workflow_id : String
workflow_id = "11111111-1111-4111-8111-111111111111"

abbrev pub gate_id : String
gate_id = "22222222-2222-4222-8222-222222222222"

abbrev pub other_id : String
other_id = "33333333-3333-4333-8333-333333333333"

abbrev pub workflow : WorkflowRow
workflow = record { id = workflow_id; name = "w"; org_id = "acme"; status = WorkflowStatus.active }

abbrev pub other_workflow : WorkflowRow
other_workflow = record {
  id = other_id;
  name = "o";
  org_id = "rival";
  status = WorkflowStatus.active;
}

abbrev pub acme : Organization
acme = record { id = "acme"; quota_used = 1; quota_limit = 3; quota_period_start = 500 }

abbrev pub rival : Organization
rival = record { id = "rival"; quota_used = 0; quota_limit = 3; quota_period_start = 500 }

abbrev pub notify_step : WorkflowStepRow ℕ
notify_step = record {
  id = "n";
  workflow_id = workflow_id;
  position = 0;
  type = StepType.notify;
  name = "tell";
  config = object (field "message" (string "hi") end);
}

abbrev pub gate_step : WorkflowStepRow ℕ
gate_step = record {
  id = "g";
  workflow_id = workflow_id;
  position = 1;
  type = StepType.approval_gate;
  name = "gate";
  config = object end;
}

abbrev pub run_with : RunStatus → WorkflowRunRow ℕ
run_with status = record {
  id = "r";
  workflow_id = workflow_id;
  org_id = "acme";
  status = status;
  trigger_type = TriggerType.manual;
  triggered_by = some "ann";
  input = object end;
  resume_position = none;
  started_at = none;
  completed_at = none;
  paused_at = none;
  error = none;
  created_at = 900;
}

abbrev pub gate_row : StepRunRow ℕ
gate_row = record {
  id = gate_id;
  workflow_run_id = "r";
  workflow_step_id = "g";
  status = StepRunStatus.paused;
  input = null;
  output = null;
  error = none;
  attempt_count = 0;
  started_at = none;
  completed_at = none;
  approved_by = none;
  approved_at = none;
}

-- The installation, with the given run status and rows of step_runs.
abbrev pub world_with : RunStatus → List (StepRunRow ℕ) → World ℕ
world_with status rows = record {
  db = record {
    engine = record {
      workflows = workflow ∷ other_workflow ∷ [];
      steps = notify_step ∷ gate_step ∷ [];
      runs = run_with status ∷ [];
      step_runs = rows;
    };
    organizations = acme ∷ rival ∷ [];
    reservations = [];
    members = record { org_id = "acme"; user_id = "ann"; role = editor } ∷ [];
    triggers = [];
    outputs = [];
    notifications = [];
  };
  tick = 0;
  sent = [];
}

abbrev pub bundle : RunBundle ℕ
bundle = record {
  run = run_with RunStatus.running;
  workflow = workflow;
  steps = notify_step ∷ gate_step ∷ [];
  step_runs = [];
}
