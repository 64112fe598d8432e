-- ===== src/Executors.antt =====
-- The interface between the engine and the steps that act on the outside (`runStepBody`'s calls of
-- packages/engine/src/steps): one program for each, and what the engine relies on.
use ai_agent_workflow_builde.Common.{String, ◌≡◌}
use ai_agent_workflow_builde.Json.{Json}
use ai_agent_workflow_builde.Domain.{StepExecutionResult}
use ai_agent_workflow_builde.Store.{World}
use ai_agent_workflow_builde.Store.Ends.{Halts}
use ai_agent_workflow_builde.Store.Program.{Program}

-- The configuration comes first, then the ids of the run and of its step run.
pub record Executors (N : Type 0) : Type 0 where
  pub llm_call : Json N → Program N (StepExecutionResult N)
  pub http_request : Json N → Program N (StepExecutionResult N)
  pub db_write : Json N → String → Program N (StepExecutionResult N)
  pub notify : Json N → String → String → Program N (StepExecutionResult N)

-- A program that leaves the engine's tables alone, however it ends.
abbrev pub LeavesEngine : {N A : Type 0} → Program N A → Type 0
LeavesEngine {N} p = (w : World N) → (p w).1.db.engine ≡ w.db.engine

pub record ExecutorsLaws {N : Type 0} (ex : Executors N) : Type 0 where
  pub llm_call_leaves : (config : Json N) → LeavesEngine (ex.llm_call config)
  pub http_request_leaves : (config : Json N) → LeavesEngine (ex.http_request config)
  pub db_write_leaves :
      (config : Json N) (run_id : String) → LeavesEngine (ex.db_write config run_id)
  pub notify_leaves :
      (config : Json N) (run_id step_run_id : String)
      → LeavesEngine (ex.notify config run_id step_run_id)

-- Every execution of a step comes to an end.
pub record ExecutorsHalt {N : Type 0} (ex : Executors N) : Type 0 where
  pub llm_call_halts : (config : Json N) → Halts (ex.llm_call config)
  pub http_request_halts : (config : Json N) → Halts (ex.http_request config)
  pub db_write_halts : (config : Json N) (run_id : String) → Halts (ex.db_write config run_id)
  pub notify_halts :
      (config : Json N) (run_id step_run_id : String) → Halts (ex.notify config run_id step_run_id)
