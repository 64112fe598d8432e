-- ===== src/Store.antt =====
-- The database as the engine's queries see it, and the programs that send requests to it: a
-- request is performed whole or not at all (`adminRequest` of packages/engine/src/lib/hasura.ts).
pub mod Program
pub mod Keeps
pub mod Ensures
pub mod Ends
use ai_agent_workflow_builde.Common.{ℕ, String, Bool, Option, List}
use ai_agent_workflow_builde.Json.{Json}
use ai_agent_workflow_builde.Domain.{
  OrgRole, TriggerType, Time, WorkflowStepRow, WorkflowRunRow, StepRunRow,
}

pub data WorkflowStatus : Type 0 where
  draft active archived : WorkflowStatus

pub record Organization : Type 0 where
  pub id : String
  pub quota_used : ℕ
  pub quota_limit : ℕ
  pub quota_period_start : Time

pub record OrgMember : Type 0 where
  pub org_id : String
  pub user_id : String
  pub role : OrgRole

pub record WorkflowRow : Type 0 where
  pub id : String
  pub name : String
  pub org_id : String
  pub status : WorkflowStatus

pub record TriggerRow (N : Type 0) : Type 0 where
  pub id : String
  pub workflow_id : String
  pub type : TriggerType
  pub config : Json N
  pub enabled : Bool
  pub webhook_secret : Option String

pub record OutputRow (N : Type 0) : Type 0 where
  pub id : String
  pub org_id : String
  pub workflow_run_id : String
  pub key : String
  pub value : Json N
  pub created_at : Time

pub record NotificationRow (N : Type 0) : Type 0 where
  pub id : String
  pub org_id : String
  pub workflow_run_id : String
  pub step_run_id : Option String
  pub channel : String
  pub payload : Json N
  pub status : String
  pub created_at : Time
  pub sent_at : Option Time
  pub error : Option String

-- The log of quota decisions.
pub record ReservationRow : Type 0 where
  pub id : String
  pub org_id : String
  pub allowed : Bool
  pub reason : Option String
  pub quota_used : ℕ
  pub quota_limit : ℕ
  pub created_at : Time

-- The tables that the engine's own state lives in.
pub record EngineTables (N : Type 0) : Type 0 where
  pub workflows : List WorkflowRow
  pub steps : List (WorkflowStepRow N)
  pub runs : List (WorkflowRunRow N)
  pub step_runs : List (StepRunRow N)

pub record Db (N : Type 0) : Type 0 where
  pub engine : EngineTables N
  pub organizations : List Organization
  pub reservations : List ReservationRow
  pub members : List OrgMember
  pub triggers : List (TriggerRow N)
  pub outputs : List (OutputRow N)
  pub notifications : List (NotificationRow N)

-- `tick` counts the interactions with the outside; `sent` lists the addresses that `fetch` was called
-- with, the latest first.
pub record World (N : Type 0) : Type 0 where
  pub db : Db N
  pub tick : ℕ
  pub sent : List String
