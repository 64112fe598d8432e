-- ===== src/Routes/Events.antt =====
-- The event that executes a run (apps/web/app/api/events/workflow-run/route.ts).
use ai_agent_workflow_builde.Common.{
  ℕ, Bool, String, Option, none, some, true, false, ◌==◌, if◌then◌else◌,
}
use ai_agent_workflow_builde.Json.{Json, bool, number, string, object, field, end, Fields, prop_of}
use ai_agent_workflow_builde.Host.{Host}
use ai_agent_workflow_builde.Executors.{Executors}
use ai_agent_workflow_builde.Branching.{is_truthy}
use ai_agent_workflow_builde.Engine.{start, execute_run}
use ai_agent_workflow_builde.Engine.Rounds.{ExecutionOutcome, OutcomeStatus}
use ai_agent_workflow_builde.Store.Program.{Program, pure, ◌>>=◌, ◌>>◌}
use ai_agent_workflow_builde.Routes.{
  Request, Response, guarded, assert_called_by_hasura, parse_event_payload,
}
use Prim.Native.String.{◌++◌}

abbrev pub outcome_name : OutcomeStatus → String
outcome_name OutcomeStatus.completed = "completed"
outcome_name OutcomeStatus.failed = "failed"
outcome_name OutcomeStatus.paused = "paused"
outcome_name OutcomeStatus.skipped_already_running = "skipped_already_running"
outcome_name OutcomeStatus.noop = "noop"

module _ {N : Type 0} (host : Host N) (ex : Executors N) (fuel : ℕ) where
  abbrev skipped : String → Response N
  skipped reason = record {
    status = 200;
    body = object (field "ok" (bool true) (field "skipped" (string reason) end));
  }

  error_field : Option String → Fields N
  error_field none = end
  error_field (some e) = if e == "" then end else field "error" (string e) end

  executed : ExecutionOutcome → Response N
  unfolding error_field
  executed o = record {
    status = 200;
    body = object (
        field "ok" (bool true) (
          field "run_id" (string o.run_id) (
            field "status" (string (outcome_name o.status)) (
              field "executed_steps" (number (host.of_ℕ o.executed_steps))
                (error_field o.error)))));
  }

  abbrev is_pending_text : Option (Json N) → Bool
  is_pending_text (some (string s)) = s == "pending"
  is_pending_text _ = false

  -- From `event.data.new` on.
  unfoldable pub execute_row : Option (Json N) → Program N (Response N)
  unfolding is_truthy executed
  execute_row row =
      if is_truthy host (prop_of "id" row)
      then if is_pending_text (prop_of "status" row)
        then (do
          o ← execute_run host ex fuel (host.to_text (prop_of "id" row)) start
          pure (executed o))
        else pure (skipped ("status was " ++ host.to_text (prop_of "status" row)))
      else pure (skipped "no row in event payload")

  unfoldable pub execute_event : Request N → Program N (Response N)
  unfolding execute_row guarded
  execute_event request = guarded (do
    assert_called_by_hasura host request
    change ← parse_event_payload host request.body
    execute_row (prop_of "new" change))
