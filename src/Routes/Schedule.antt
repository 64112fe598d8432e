-- ===== src/Routes/Schedule.antt =====
-- The sweep over scheduled triggers (apps/web/app/api/events/scheduled-dispatch/route.ts). The table
-- of triggers is in order of creation.
use ai_agent_workflow_builde.Common.{
  ℕ, String, Bool, true, false, ◌&&◌, Option, none, some, List, [], ◌∷◌, ◌==◌, eqb, ltb,
  if◌then◌else◌, find, keep, length, take, get_or_else,
}
use ai_agent_workflow_builde.Json.{
  bool, number, string, array, object, Items, nil, cons, field, end, prop, non_null,
}
use ai_agent_workflow_builde.Domain.{
  Thrown, step_error, authorization_error, graphql_error, handler_error, other, TriggerType, Time,
  WorkflowRunRow,
}
use ai_agent_workflow_builde.Host.{Host}
use ai_agent_workflow_builde.Network.{Network}
use ai_agent_workflow_builde.Store.{Db, TriggerRow, WorkflowRow}
use ai_agent_workflow_builde.Store.Program.{Program, pure, handle, now, ask, ◌>>=◌}
use ai_agent_workflow_builde.Authz.{is_archived}
use ai_agent_workflow_builde.Runs.{RunParams, create_run_with_quota}
use ai_agent_workflow_builde.Routes.{Request, Response, guarded, assert_called_by_hasura}
use Prim.Native.String.{◌++◌}

abbrev pub min_interval_minutes : ℕ
min_interval_minutes = 15

abbrev pub is_scheduled : TriggerType → Bool
is_scheduled TriggerType.scheduled = true
is_scheduled _ = false

-- One row of the answer to DueScheduledTriggers: `last` is when the workflow's latest scheduled run
-- was created.
pub record DueTrigger (N : Type 0) : Type 0 where
  pub trigger : TriggerRow N
  pub workflow : WorkflowRow
  pub step_count : ℕ
  pub last : Option Time

-- `String(err)`
abbrev pub error_text : Thrown → String
error_text (step_error m _) = "StepError: " ++ m
error_text (authorization_error m _) = "AuthorizationError: " ++ m
error_text (graphql_error m) = "GraphQLRequestError: " ++ m
error_text (handler_error m _ _) = "HandlerError: " ++ m
error_text (other m) = "Error: " ++ m

-- `err instanceof AuthorizationError ? err.message : …`
abbrev pub reason_of : Thrown → String
reason_of (authorization_error m _) = m
reason_of e = "dispatch failed: " ++ error_text e

pub data Verdict : Type 0 where
  dispatched : (run_id : String) → Verdict
  skipped : (reason : String) → Verdict

pub record Sweep : Type 0 where
  pub dispatched_ids : List String
  pub skipped_triggers : List (String × String)

abbrev pub record_verdict : String → Verdict → Sweep → Sweep
record_verdict trigger_id (dispatched run_id) s = record s {
  dispatched_ids = run_id ∷ s.dispatched_ids;
}
record_verdict trigger_id (skipped reason) s = record s {
  skipped_triggers = (trigger_id, reason) ∷ s.skipped_triggers;
}

module _ {N : Type 0} where
  -- The latest of the scheduled runs of a workflow.
  unfoldable pub latest_scheduled : String → List (WorkflowRunRow N) → Option Time
  latest_scheduled workflow_id [] = none
  latest_scheduled workflow_id (r ∷ rs) =
      let rest = latest_scheduled workflow_id rs in
      if r.workflow_id == workflow_id && is_scheduled r.trigger_type
      then elim rest [
        | none ↦ some r.created_at
        | some t ↦ if ltb r.created_at t then some t else some r.created_at
      ]
      else rest

  -- The foreign key gives every trigger its workflow.
  unfoldable pub join_triggers : Db N → List (TriggerRow N) → List (DueTrigger N)
  unfolding latest_scheduled
  join_triggers d [] = []
  join_triggers d (t ∷ ts) = elim (find (λ w. w.id == t.workflow_id) d.engine.workflows) [
    | none ↦ join_triggers d ts
    | some wf ↦
        record {
          trigger = t;
          workflow = wf;
          step_count = length (keep (λ s. s.workflow_id == wf.id) d.engine.steps);
          last = latest_scheduled wf.id d.engine.runs;
        }
        ∷ join_triggers d ts
  ]

  unfoldable pub due_triggers : Db N → List (DueTrigger N)
  unfolding join_triggers
  due_triggers d =
      join_triggers d (take 100 (keep (λ t. is_scheduled t.type && t.enabled) d.triggers))

module _ {N : Type 0} (host : Host N) (net : Network N) where
  -- `Math.max(15, Number(trigger.config?.every_minutes ?? 60))`
  unfoldable pub interval_of : DueTrigger N → N
  interval_of t = net.num_max (host.of_ℕ min_interval_minutes) (
      net.to_number
        (get_or_else (non_null (prop "every_minutes" t.trigger.config)) (number (host.of_ℕ 60))))

  abbrev pub is_early : Time → DueTrigger N → Time → Bool
  is_early time t last = host.num_lt (net.minutes_between time last) (interval_of t)

  unfoldable pub early_message : Time → DueTrigger N → Time → String
  early_message time t last =
      "not due ("
      ++ (host.show (net.num_round (net.minutes_between time last))
          ++ ("m of " ++ (host.show (interval_of t) ++ "m elapsed)")))

  abbrev pub scheduled_run : DueTrigger N → RunParams N
  scheduled_run t = record {
    workflow_id = t.workflow.id;
    org_id = t.workflow.org_id;
    trigger_type = TriggerType.scheduled;
    triggered_by = none;
    input =
        object (field "source" (string "scheduled") (field "trigger_id" (string t.trigger.id) end));
  }

  unfoldable pub dispatch : DueTrigger N → Program N Verdict
  dispatch t =
      handle (create_run_with_quota host (scheduled_run t)) (λ e. pure (skipped (reason_of e)))
        (λ created. pure (dispatched created.run_id))

  unfoldable pub dispatch_due : Time → DueTrigger N → Option Time → Program N Verdict
  unfolding dispatch early_message
  dispatch_due time t none = dispatch t
  dispatch_due time t (some last) =
      if is_early time t last then pure (skipped (early_message time t last)) else dispatch t

  -- The body of the loop.
  unfoldable pub consider : Time → DueTrigger N → Program N Verdict
  unfolding dispatch_due
  consider time t =
      if is_archived t.workflow.status
      then pure (skipped "workflow archived")
      else if eqb t.step_count 0
      then pure (skipped "workflow has no steps")
      else dispatch_due time t t.last

  -- The loop over the triggers.
  unfoldable pub sweep : Time → List (DueTrigger N) → Program N Sweep
  unfolding consider
  sweep time [] = pure (record { dispatched_ids = []; skipped_triggers = [] })
  sweep time (t ∷ ts) = consider time t >>= λ verdict.
      sweep time ts >>= λ rest. pure (record_verdict t.trigger.id verdict rest)

  abbrev pub strings : List String → Items N
  strings [] = nil
  strings (s ∷ ss) = cons (string s) (strings ss)

  abbrev pub skipped_items : List (String × String) → Items N
  skipped_items [] = nil
  skipped_items ((id, reason) ∷ rest) =
      cons (object (field "trigger_id" (string id) (field "reason" (string reason) end)))
        (skipped_items rest)

  sweep_response : ℕ → Sweep → Response N
  sweep_response considered s = record {
    status = 200;
    body = object (
        field "ok" (bool true) (
          field "considered" (number (host.of_ℕ considered)) (
            field "dispatched" (array (strings s.dispatched_ids))
              (field "skipped" (array (skipped_items s.skipped_triggers)) end))));
  }

  unfoldable pub sweep_all : List (DueTrigger N) → Program N (Response N)
  unfolding sweep sweep_response
  sweep_all triggers = do
    time ← now host
    swept ← sweep time triggers
    pure (sweep_response (length triggers) swept)

  unfoldable pub scheduled_dispatch : Request N → Program N (Response N)
  unfolding sweep_all due_triggers guarded
  scheduled_dispatch request =
      guarded
        (assert_called_by_hasura host request >>= λ u. ask host (λ d. due_triggers d) >>= sweep_all)
