-- ===== src/Tests/Handlers.antt =====
-- The theorems on the webhook, the notifications and the schedule, on the small installation.
use ai_agent_workflow_builde.Common.{ℕ, String, true, ◌≡◌, ◌⊎◌, refl, none, some, [], ◌∷◌, arith}
use ai_agent_workflow_builde.Json.{Json, null, object, field, end}
use ai_agent_workflow_builde.Domain.{owner, RunStatus, TriggerType}
use ai_agent_workflow_builde.Store.{World, TriggerRow, NotificationRow}
use ai_agent_workflow_builde.Host.{answered}
use ai_agent_workflow_builde.Store.Program.{Result, ok, err, out_of_fuel}
use ai_agent_workflow_builde.Routes.{Response}
use ai_agent_workflow_builde.Routes.Webhook.{WebhookRequest, webhook, find_trigger}
use ai_agent_workflow_builde.Routes.Opaque.{refusal, webhook-opaque}
use ai_agent_workflow_builde.Routes.Received.{IsReceived, webhook-IsReceived}
use ai_agent_workflow_builde.Routes.Notifications.{settle_notification}
use ai_agent_workflow_builde.Routes.Settled.{IsSent, IsFailed, settle_notification-IsSettled}
use ai_agent_workflow_builde.Routes.WebhookUrl.{reveal_by_id}
use ai_agent_workflow_builde.Routes.Revealed.{IsRevealed, reveal-IsRevealed}
use ai_agent_workflow_builde.Routes.Schedule.{
  DueTrigger, Verdict, dispatched, skipped, Sweep, consider, sweep, due_triggers,
}
use ai_agent_workflow_builde.Routes.Due.{NumberLaws}
use ai_agent_workflow_builde.Routes.Swept.{
  IsSwept, IsDispatched, sweep_complete, consider-IsDispatched,
}
use ai_agent_workflow_builde.Tests.{host, world_with, workflow_id, workflow, run_with}
use ai_agent_workflow_builde.Tests.Outside.{net}

abbrev hook_id : String
hook_id = "44444444-4444-4444-8444-444444444444"

abbrev hook : TriggerRow ℕ
hook = record {
  id = hook_id;
  workflow_id = workflow_id;
  type = TriggerType.webhook;
  config = object end;
  enabled = true;
  webhook_secret = some "open";
}

abbrev notification : NotificationRow ℕ
notification = record {
  id = "";
  org_id = "acme";
  workflow_run_id = "r";
  step_run_id = none;
  channel = "log";
  payload = object end;
  status = "pending";
  created_at = 900;
  sent_at = none;
  error = none;
}

-- With a webhook, a pending notification, and an owner.
abbrev installed : World ℕ
installed =
    let w = world_with RunStatus.completed [] in
    record w {
      db = record w.db {
        triggers = hook ∷ [];
        notifications = notification ∷ [];
        members = record { org_id = "acme"; user_id = "olga"; role = owner } ∷ [];
      };
    }

abbrev call_with : String → WebhookRequest
call_with secret = record {
  trigger_id = hook_id;
  query_secret = some secret;
  header_secret = none;
  content_length = none;
  text = some "";
}

abbrev response_of : Result (Response ℕ) → Response ℕ
response_of (ok r) = r
response_of _ = record { status = 0; body = null }

-- The webhook.
webhook-opaque_example :
    ((webhook host (call_with "guess") installed).0
      ≡ ok (refusal host (call_with "guess") answered))
    × ((webhook host (call_with "guess") installed).1.db ≡ installed.db)
unfolding find_trigger
webhook-opaque_example = webhook-opaque host (call_with "guess") installed refl

abbrev reply : Result (Response ℕ) × World ℕ
reply = webhook host (call_with "open") installed

webhook-IsReceived_example : IsReceived host (call_with "open") installed reply.1
unfolding webhook ai_agent_workflow_builde.Authz.Uuid.is_uuid
    ai_agent_workflow_builde.Store.Program.request
    ai_agent_workflow_builde.Runs.create_run_with_quota ai_agent_workflow_builde.Quota.reserve_quota
webhook-IsReceived_example =
    webhook-IsReceived host (call_with "open") installed reply.1 (response_of reply.0) refl refl

abbrev revealed : Result (Response ℕ) × World ℕ
revealed = reveal_by_id host hook_id "olga" installed

reveal-IsRevealed_example :
    IsRevealed host hook_id "olga" installed revealed.1 (response_of revealed.0)
unfolding reveal_by_id ai_agent_workflow_builde.Store.Program.request
reveal-IsRevealed_example =
    reveal-IsRevealed host hook_id "olga" installed revealed.1 (response_of revealed.0) refl

-- Notifications.
abbrev notification_row : Json ℕ
notification_row = object (field "payload" (object end) end)

abbrev settled : Result (Response ℕ) × World ℕ
settled = settle_notification host net notification_row installed

settle_notification-IsSettled_example :
    (((response_of settled.0).status ≡ 200)
      × IsSent host net notification_row installed.db settled.1.db)
    ⊎ (((response_of settled.0).status ≡ 502)
        × IsFailed host net notification_row installed.db settled.1.db)
unfolding settle_notification ai_agent_workflow_builde.Env.optional
    ai_agent_workflow_builde.Store.Program.request
settle_notification-IsSettled_example =
    settle_notification-IsSettled host net notification_row installed settled.1
      (response_of settled.0) refl

-- The schedule: a trigger whose workflow last ran 100 minutes ago.
abbrev timer : TriggerRow ℕ
timer = record hook { id = "timer"; type = TriggerType.scheduled }

abbrev timed : World ℕ
timed = record installed {
  db = record installed.db {
    triggers = hook ∷ timer ∷ [];
    engine = record installed.db.engine {
      runs = record (run_with RunStatus.completed) { trigger_type = TriggerType.scheduled } ∷ [];
    };
  };
}

number_laws : NumberLaws host net
number_laws = record {
  lt-max = λ a b c. ground arith;
  whole_numbers = λ n. ground arith;
  converts_numbers = λ n. refl;
}

abbrev due : DueTrigger ℕ
due = record { trigger = timer; workflow = workflow; step_count = 2; last = some 900 }

sweep_complete_example :
    (s : Sweep) × (w' : World ℕ) × (sweep host net 1000 (due ∷ due ∷ []) timed ≡ (ok s, w'))
    × IsSwept host net 1000 (due ∷ due ∷ []) timed s w'
sweep_complete_example = sweep_complete host net number_laws 1000 (due ∷ due ∷ []) timed

abbrev considered : Result Verdict × World ℕ
considered = consider host net 1000 due timed

consider-IsDispatched_example : IsDispatched host net timed.db 1000 due "new" timed considered.1
unfolding consider due_triggers ai_agent_workflow_builde.Routes.Schedule.join_triggers
    ai_agent_workflow_builde.Routes.Schedule.latest_scheduled
    ai_agent_workflow_builde.Routes.Schedule.interval_of
    ai_agent_workflow_builde.Runs.create_run_with_quota ai_agent_workflow_builde.Quota.reserve_quota
    ai_agent_workflow_builde.Store.Program.request
consider-IsDispatched_example =
    consider-IsDispatched host net number_laws timed.db 0 1000 due "new" timed considered.1 refl
      refl
