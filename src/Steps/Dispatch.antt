-- ===== src/Steps/Dispatch.antt =====
-- The steps that the engine runs (packages/engine/src/core/engine.ts, `runStepBody`), as one
-- implementation of the interface that the engine's theorems take.
use ai_agent_workflow_builde.Host.{Host}
use ai_agent_workflow_builde.Network.{Network}
use ai_agent_workflow_builde.Executors.{Executors, ExecutorsLaws, ExecutorsHalt}
use ai_agent_workflow_builde.Steps.{execute_db_write, execute_notify}
use ai_agent_workflow_builde.Steps.Frames.{steps-LeavesEngine}
use ai_agent_workflow_builde.Steps.Halting.{execute_db_write-Halts, execute_notify-Halts}
use ai_agent_workflow_builde.Steps.Http.{execute_http_request}
use ai_agent_workflow_builde.Steps.Http.Guarding.{
  execute_http_request-LeavesEngine, execute_http_request-Halts,
}
use ai_agent_workflow_builde.Steps.Llm.{execute_llm_call}
use ai_agent_workflow_builde.Steps.Llm.Calls.{execute_llm_call-LeavesEngine, execute_llm_call-Halts}

module _ {N : Type 0} (host : Host N) (net : Network N) where
  abbrev pub step_executors : Executors N
  step_executors = record {
    llm_call = execute_llm_call host net;
    http_request = execute_http_request host net;
    db_write = execute_db_write host;
    notify = execute_notify host;
  }

  pub step_executors-ExecutorsLaws : ExecutorsLaws step_executors
  step_executors-ExecutorsLaws = record {
    llm_call_leaves = execute_llm_call-LeavesEngine host net;
    http_request_leaves = execute_http_request-LeavesEngine host net;
    db_write_leaves = λ cfg run_id. (steps-LeavesEngine host cfg run_id "").0;
    notify_leaves = λ cfg run_id step_run_id. (steps-LeavesEngine host cfg run_id step_run_id).1;
  }

  pub step_executors-ExecutorsHalt : ExecutorsHalt step_executors
  step_executors-ExecutorsHalt = record {
    llm_call_halts = execute_llm_call-Halts host net;
    http_request_halts = execute_http_request-Halts host net;
    db_write_halts = λ cfg run_id. execute_db_write-Halts host run_id cfg;
    notify_halts = λ cfg run_id step_run_id. execute_notify-Halts host run_id cfg step_run_id;
  }
