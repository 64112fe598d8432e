-- ===== src/Tests/Parts.antt =====
-- The theorems on the engine's parts at concrete arguments.
use ai_agent_workflow_builde.Common.{ltb, ⊤, ℕ, ◌≡◌, refl, [], none, arith, true}
use ai_agent_workflow_builde.Json.{null, string, object, field, end, prop}
use ai_agent_workflow_builde.Domain.{RunStatus, step_error}
use ai_agent_workflow_builde.Host.{finite}
use ai_agent_workflow_builde.Store.{World}
use ai_agent_workflow_builde.Store.Program.{Program, pure, throw}
use ai_agent_workflow_builde.Executors.{LeavesEngine}
use ai_agent_workflow_builde.Tests.{host, world_with, bundle}
use ai_agent_workflow_builde.Retry.{AttemptInfo, with_retry}
use ai_agent_workflow_builde.Store.Ends.{Halts}
use ai_agent_workflow_builde.Retry.Attempts.{with_retry-Halts}
use ai_agent_workflow_builde.Retry.Trials.{Ended, with_retry-Ended}
use ai_agent_workflow_builde.Branching.{index, resolve_branch_target}
use ai_agent_workflow_builde.Branching.Laws.{IsReachable, resolve_branch_target-IsReachable}
use ai_agent_workflow_builde.Steps.{execute_db_write, execute_notify}
use ai_agent_workflow_builde.Steps.Frames.{steps-LeavesEngine}
use ai_agent_workflow_builde.Context.{
  RunContext, RunIds, empty_context, resolve_path, resolve_templates,
}
use ai_agent_workflow_builde.Context.Safety.{resolve_path-dangerous, resolve_templates-safe}

abbrev idle : World ℕ
idle = world_with RunStatus.completed []

abbrev failing : ℕ → Program ℕ ℕ
failing n = throw (step_error "no" true)

abbrev silent_report : AttemptInfo → Program ℕ ⊤
silent_report i = pure tt

with_retry-Halts_example : Halts (
    with_retry host failing silent_report 5
      (record { max_attempts = finite 3; base_delay_ms = finite 10 }))
with_retry-Halts_example =
    with_retry-Halts host failing silent_report 3 5 (finite 10) (omega arith) (λ n w e. cc)
      (λ i w e. cc)

-- The first attempt fails for a while, the second for good.
abbrev failing_twice : ℕ → Program ℕ ℕ
failing_twice n = throw (step_error "no" (ltb 1 n))

with_retry-Ended_example : Ended host failing_twice silent_report 3 (finite 10) idle (
    with_retry host failing_twice silent_report 5
      (record { max_attempts = finite 3; base_delay_ms = finite 10 })
      idle)
with_retry-Ended_example =
    with_retry-Ended host failing_twice silent_report 3 5 (finite 10) idle (omega arith)
      (λ n w e. cc) (λ i v. (v, refl))

resolve_branch_target-IsReachable_example : IsReachable host bundle.steps 0 (index 1)
unfolding resolve_branch_target
resolve_branch_target-IsReachable_example =
    resolve_branch_target-IsReachable host (object (field "goto_step_id" (string "g") end))
      bundle.steps 0 (index 1) refl

steps-LeavesEngine_example :
    LeavesEngine
      (execute_db_write host (object (field "key" (string "k") (field "value" null end))) "r")
    × LeavesEngine
        (execute_notify host (object (field "key" (string "k") (field "value" null end))) "r" "s")
steps-LeavesEngine_example =
    steps-LeavesEngine host (object (field "key" (string "k") (field "value" null end))) "r" "s"

abbrev context : RunContext ℕ
context =
    empty_context (record { id = "r"; workflow_id = "w"; org_id = "acme" })
      (object (field "constructor" (string "x") end))

resolve_path-dangerous_example : resolve_path context "trigger.constructor" ≡ none
unfolding ai_agent_workflow_builde.Context.path_parts
resolve_path-dangerous_example = resolve_path-dangerous context "trigger.constructor" refl

resolve_templates-safe_example :
    prop "__proto__" (
      resolve_templates host context
        (object (field "a" (string "{{ trigger }}") (field "__proto__" (object end) end))))
    ≡ none
resolve_templates-safe_example =
    resolve_templates-safe host context
      (field "a" (string "{{ trigger }}") (field "__proto__" (object end) end)) "__proto__" refl
