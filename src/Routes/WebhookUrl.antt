-- ===== src/Routes/WebhookUrl.antt =====
-- The action getWebhookUrl (apps/web/app/api/actions/get-webhook-url/route.ts).
use ai_agent_workflow_builde.Common.{
  String, Bool, true, false, not, ◌&&◌, ◌||◌, Option, none, some, ◌==◌, eqb, if◌then◌else◌,
  get_or_else,
}
use ai_agent_workflow_builde.Json.{Json, bool, string, object, field, end}
use ai_agent_workflow_builde.Domain.{
  OrgRole, owner, role_name, TriggerType, authorization_error, not_found, forbidden, invalid_state,
}
use ai_agent_workflow_builde.Env.{app_base_url}
use ai_agent_workflow_builde.Host.{Host}
use ai_agent_workflow_builde.Store.{Db, TriggerRow}
use ai_agent_workflow_builde.Store.Program.{Program, pure, throw, ask, ◌>>=◌}
use ai_agent_workflow_builde.Authz.{role_in}
use ai_agent_workflow_builde.Routes.{Request, Response, guarded, uuid_input}
use ai_agent_workflow_builde.Routes.Actions.{action_caller}
use ai_agent_workflow_builde.Routes.Webhook.{find_trigger, is_webhook}
use Prim.Native.Char.{code}
use Prim.Native.String.{◌++◌}

abbrev pub trigger_type_name : TriggerType → String
trigger_type_name TriggerType.manual = "manual"
trigger_type_name TriggerType.webhook = "webhook"
trigger_type_name TriggerType.scheduled = "scheduled"
trigger_type_name TriggerType.database_event = "database_event"

-- `s.replace(/\/+$/, '')`
unfoldable pub without_slashes : String → String
without_slashes String.[] = ""
without_slashes (String.◌∷◌ c s) =
    let rest = without_slashes s in
    if eqb (code c) b'/' && rest == "" then "" else String.◌∷◌ c rest

abbrev pub is_owner : OrgRole → Bool
is_owner owner = true
is_owner _ = false

-- The answer to WebhookTriggerAuthz.
pub record TriggerChain (N : Type 0) : Type 0 where
  pub trigger : TriggerRow N
  pub membership : Option OrgRole

module _ {N : Type 0} where
  unfoldable pub trigger_chain : String → String → Db N → Option (TriggerChain N)
  unfolding find_trigger role_in
  trigger_chain trigger_id user_id d = elim (find_trigger trigger_id d) [
    | none ↦ none
    | some t ↦
        some
          (record { trigger = t.trigger; membership = role_in t.workflow.org_id user_id d.members })
  ]

module _ {N : Type 0} (host : Host N) where
  abbrev trigger_missing : Program N (Response N)
  trigger_missing =
      throw (authorization_error "Trigger not found or you do not have access to it." not_found)

  abbrev pub webhook_url : String → String → String
  webhook_url id secret =
      without_slashes (app_base_url host) ++ ("/api/webhook/" ++ (id ++ ("?secret=" ++ secret)))

  unfoldable pub url_response : TriggerRow N → String → Response N
  url_response t secret = record {
    status = 200;
    body = object (
        field "trigger_id" (string t.id)
          (field "url" (string (webhook_url t.id secret)) (field "enabled" (bool t.enabled) end)));
  }

  -- For an owner.
  unfoldable pub reveal : String → TriggerRow N → Program N (Response N)
  unfolding url_response
  reveal trigger_id t =
      let secret = get_or_else t.webhook_secret "" in
      if not (is_webhook t.type) || secret == ""
      then throw (
          authorization_error
            ("Trigger "
              ++ (trigger_id
                  ++ (" is a \""
                      ++ (trigger_type_name t.type ++ "\" trigger and has no webhook URL."))))
            invalid_state)
      else pure (url_response t secret)

  unfoldable pub reveal_to : String → TriggerRow N → OrgRole → Program N (Response N)
  unfolding reveal
  reveal_to trigger_id t role =
      if is_owner role
      then reveal trigger_id t
      else throw (
          authorization_error
            ("Only an organization owner may reveal a webhook URL (your role: "
              ++ (role_name role ++ ")."))
            forbidden)

  unfoldable pub reveal_chain : String → Option (TriggerChain N) → Program N (Response N)
  unfolding reveal_to
  reveal_chain trigger_id none = trigger_missing
  reveal_chain trigger_id (some c) = elim c.membership [
    | none ↦ trigger_missing
    | some role ↦ reveal_to trigger_id c.trigger role
  ]

  unfoldable pub reveal_by_id : String → String → Program N (Response N)
  unfolding trigger_chain reveal_chain
  reveal_by_id trigger_id user_id =
      ask host (trigger_chain trigger_id user_id) >>= reveal_chain trigger_id

  unfoldable pub reveal_for : Json N × String → Program N (Response N)
  unfolding reveal_by_id
  reveal_for (payload, user_id) =
      uuid_input host "trigger_id" payload >>= λ trigger_id. reveal_by_id trigger_id user_id

  unfoldable pub get_webhook_url : Request N → Program N (Response N)
  unfolding action_caller reveal_for guarded
  get_webhook_url request = guarded (action_caller host request >>= reveal_for)
