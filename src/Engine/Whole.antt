-- ===== src/Engine/Whole.antt =====
-- The engine with the steps that the program has.
use ai_agent_workflow_builde.Common.{ℕ, ◌+◌, ◌≤◌}
use ai_agent_workflow_builde.Host.{Host}
use ai_agent_workflow_builde.Network.{Network}
use ai_agent_workflow_builde.Store.Ends.{Halts}
use ai_agent_workflow_builde.Tables.{RunBundle}
use ai_agent_workflow_builde.Steps.Dispatch.{step_executors, step_executors-ExecutorsHalt}
use ai_agent_workflow_builde.Engine.{ExecutionMode, defaults, execute_bundle}
use ai_agent_workflow_builde.Engine.Ending.{HasBoundedRetries}
use ai_agent_workflow_builde.Engine.Total.{execute_bundle-Halts}

-- If no step of a run configures more than `most` attempts, with a fuel for the retries of at least
-- most + 2, then executing the run with the program's own steps comes to an end, with an outcome or
-- an error, in both modes, whatever the database, the servers and the providers answer.
pub execute_bundle_steps-Halts :
    {N : Type 0} (host : Host N) (net : Network N) (fuel most : ℕ) (bundle : RunBundle N)
    (mode : ExecutionMode)
    → most + 2 ≤ fuel
    → HasBoundedRetries host (defaults host (step_executors host net) fuel) most bundle.steps
    → Halts (execute_bundle host (step_executors host net) fuel mode bundle)
execute_bundle_steps-Halts host net fuel most bundle mode enough bounded =
    execute_bundle-Halts host (step_executors host net) (step_executors-ExecutorsHalt host net) fuel
      most bundle mode enough bounded
