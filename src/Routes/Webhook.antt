-- ===== src/Routes/Webhook.antt =====
-- The public webhook (apps/web/app/api/webhook/[triggerId]/route.ts). A request is what the handler
-- reads of it; its text has been received whole or not at all.
use ai_agent_workflow_builde.Common.{
  ℕ, String, Bool, true, false, not, ◌&&◌, Option, none, some, ◌==◌, eqb, ltb, if◌then◌else◌, find,
  keep, length, get_or_else,
}
use ai_agent_workflow_builde.Common.Text.{trim, size}
use ai_agent_workflow_builde.Json.{Json, bool, number, string, object, field, end}
use ai_agent_workflow_builde.Domain.{
  Thrown, authorization_error, other, quota_exhausted, TriggerType,
}
use ai_agent_workflow_builde.Host.{Host}
use ai_agent_workflow_builde.Store.{Db, TriggerRow, WorkflowRow}
use ai_agent_workflow_builde.Store.Program.{Program, pure, throw, handle, ask, ◌>>=◌}
use ai_agent_workflow_builde.Authz.{is_archived}
use ai_agent_workflow_builde.Authz.Uuid.{is_uuid}
use ai_agent_workflow_builde.Runs.{RunParams, CreatedRun, create_run_with_quota}
use ai_agent_workflow_builde.Routes.{Response}

pub record WebhookRequest : Type 0 where
  pub trigger_id : String
  -- The parameter `secret` of the URL, and the header x-webhook-secret.
  pub query_secret : Option String
  pub header_secret : Option String
  pub content_length : Option String
  -- `await request.text()`; `none` if it throws.
  pub text : Option String

abbrev pub max_body_bytes : ℕ
max_body_bytes = 65_536

-- `url.searchParams.get('secret') ?? request.headers.get('x-webhook-secret') ?? ''`
abbrev pub provided_secret : WebhookRequest → String
provided_secret r = get_or_else r.query_secret (get_or_else r.header_secret "")

-- The answer to LoadWebhookTrigger.
pub record LoadedTrigger (N : Type 0) : Type 0 where
  pub trigger : TriggerRow N
  pub workflow : WorkflowRow
  pub step_count : ℕ

abbrev pub is_webhook : TriggerType → Bool
is_webhook TriggerType.webhook = true
is_webhook _ = false

module _ {N : Type 0} where
  -- The foreign key gives every trigger its workflow.
  unfoldable pub find_trigger : String → Db N → Option (LoadedTrigger N)
  find_trigger id d = elim (find (λ t. t.id == id) d.triggers) [
    | none ↦ none
    | some t ↦ elim (find (λ w. w.id == t.workflow_id) d.engine.workflows) [
      | none ↦ none
      | some wf ↦ some (record {
        trigger = t;
        workflow = wf;
        step_count = length (keep (λ s. s.workflow_id == wf.id) d.engine.steps);
      })
    ]
  ]

  unfoldable pub webhook_error : ℕ → String → Response N
  webhook_error status message = record {
    status = status;
    body = object (field "error" (string message) end);
  }

  abbrev pub deny : Response N
  deny = webhook_error 401 "Invalid webhook trigger or secret."

  -- The trigger has a secret, which is the one that was provided; comparing takes the same time
  -- whatever the secret.
  abbrev pub is_authentic : String → LoadedTrigger N → Bool
  is_authentic provided t =
      let secret = get_or_else t.trigger.webhook_secret "" in
      is_webhook t.trigger.type && (not (secret == "") && provided == secret)

  -- `catch (err)`
  unfoldable pub webhook_failure : Thrown → Response N
  unfolding webhook_error
  webhook_failure (authorization_error message quota_exhausted) = webhook_error 429 message
  webhook_failure _ = webhook_error 500 "Internal error."

module _ {N : Type 0} (host : Host N) where
  -- The length that the caller declares.
  abbrev pub is_declared_too_long : WebhookRequest → Bool
  is_declared_too_long r = elim (host.parse_number (get_or_else r.content_length "0")) [
    | none ↦ false
    | some n ↦ host.num_lt (host.of_ℕ max_body_bytes) n
  ]

  -- The body as JSON; `none` if it is none.
  unfoldable pub webhook_json : String → Option (Json N)
  unfolding trim
  webhook_json raw = if trim raw == "" then some (object end) else host.parse_json raw

  abbrev pub webhook_run : LoadedTrigger N → Json N → RunParams N
  webhook_run t body = record {
    workflow_id = t.workflow.id;
    org_id = t.workflow.org_id;
    trigger_type = TriggerType.webhook;
    triggered_by = none;
    input = object (
        field "source" (string "webhook")
          (field "trigger_id" (string t.trigger.id) (field "body" body end)));
  }

  unfoldable pub accepted : LoadedTrigger N → CreatedRun → Response N
  accepted t created = record {
    status = 202;
    body = object (
        field "ok" (bool true) (
          field "run_id" (string created.run_id) (
            field "workflow_id" (string t.workflow.id) (
              field "quota_used" (number (host.of_ℕ created.quota.used))
                (field "quota_limit" (number (host.of_ℕ created.quota.limit)) end)))));
  }

  unfoldable pub run_webhook : LoadedTrigger N → Option (Json N) → Program N (Response N)
  unfolding accepted
  run_webhook t none = pure (webhook_error 400 "Body must be JSON.")
  run_webhook t (some body) =
      create_run_with_quota host (webhook_run t body) >>= λ created. pure (accepted t created)

  unfoldable pub receive : LoadedTrigger N → Option String → Program N (Response N)
  unfolding run_webhook webhook_json
  receive t none = throw (other "the body could not be read")
  receive t (some raw) =
      if ltb max_body_bytes (size raw)
      then pure (webhook_error 413 "Payload too large.")
      else run_webhook t (webhook_json raw)

  -- Past the check of the secret.
  unfoldable pub authenticated : LoadedTrigger N → WebhookRequest → Program N (Response N)
  unfolding receive
  authenticated t r =
      if not t.trigger.enabled
      then pure (webhook_error 409 "This webhook trigger is disabled.")
      else if is_archived t.workflow.status
      then pure (webhook_error 409 "This workflow is archived.")
      else if eqb t.step_count 0
      then pure (webhook_error 409 "This workflow has no steps.")
      else receive t r.text

  unfoldable pub check_secret : WebhookRequest → Option (LoadedTrigger N) → Program N (Response N)
  unfolding authenticated
  check_secret r none = pure deny
  check_secret r (some t) =
      if is_authentic (provided_secret r) t then authenticated t r else pure deny

  unfoldable pub webhook_body : WebhookRequest → Program N (Response N)
  unfolding check_secret find_trigger
  webhook_body r =
      if not (is_uuid r.trigger_id)
      then pure deny
      else if provided_secret r == ""
      then pure deny
      else if is_declared_too_long r
      then pure (webhook_error 413 "Payload too large.")
      else (ask host (find_trigger r.trigger_id) >>= check_secret r)

  unfoldable pub webhook : WebhookRequest → Program N (Response N)
  unfolding webhook_body webhook_failure
  webhook r = handle (webhook_body r) (λ e. pure (webhook_failure e)) pure
