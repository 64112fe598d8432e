-- ===== src/Routes.antt =====
-- The plumbing of the HTTP handlers that Hasura calls (apps/web/lib/action-guard.ts). A request is
-- its secret header and its body, if that was JSON; a response is a status and a body.
pub mod Actions
pub mod Events
pub mod Guarded
pub mod Authorized
pub mod Webhook
pub mod Opaque
pub mod Received
pub mod Notifications
pub mod Settled
pub mod WebhookUrl
pub mod Revealed
pub mod Schedule
pub mod Due
pub mod Swept
use ai_agent_workflow_builde.Common.{
  ⊤, ℕ, String, Bool, true, false, not, ◌||◌, Option, none, some, ◌==◌, if◌then◌else◌, get_or_else,
}
use ai_agent_workflow_builde.Json.{Json, string, object, field, end, prop, prop_of}
use ai_agent_workflow_builde.Domain.{
  Thrown, step_error, authorization_error, graphql_error, handler_error, other, AuthorizationCode,
  unauthenticated, not_found, forbidden, invalid_state, quota_exhausted,
}
use ai_agent_workflow_builde.Host.{Host}
use ai_agent_workflow_builde.Env.{action_secret}
use ai_agent_workflow_builde.Branching.{is_truthy}
use ai_agent_workflow_builde.Authz.{SessionVariables}
use ai_agent_workflow_builde.Authz.Uuid.{is_uuid}
use ai_agent_workflow_builde.Store.Program.{Result, ok, err, Program, pure, throw, handle}
use Prim.Native.String.{◌++◌}

pub record Request (N : Type 0) : Type 0 where
  -- The header x-action-secret.
  pub action_secret : Option String
  -- `await request.json()`; `none` if it throws.
  pub body : Option (Json N)

pub record Response (N : Type 0) : Type 0 where
  pub status : ℕ
  pub body : Json N

abbrev pub code_name : AuthorizationCode → String
code_name unauthenticated = "unauthenticated"
code_name not_found = "not_found"
code_name forbidden = "forbidden"
code_name invalid_state = "invalid_state"
code_name quota_exhausted = "quota_exhausted"

abbrev pub status_by_code : AuthorizationCode → ℕ
status_by_code unauthenticated = 401
status_by_code forbidden = 403
status_by_code not_found = 404
status_by_code invalid_state = 409
status_by_code quota_exhausted = 429

module _ {N : Type 0} where
  error_body : String → String → Json N
  error_body message code = object (
      field "message" (string message)
        (field "extensions" (object (field "code" (string code) end)) end))

  -- `errorResponse`
  unfoldable pub error_response : Thrown → Response N
  unfolding error_body
  error_response (handler_error message status code) = record {
    status = status;
    body = error_body message code;
  }
  error_response (authorization_error message code) = record {
    status = status_by_code code;
    body = error_body message (code_name code);
  }
  error_response _ = record {
    status = 500;
    body = error_body "Internal error executing this operation." "internal";
  }

  -- `try { return body } catch (err) { return errorResponse(err) }`
  unfoldable pub guarded : Program N (Response N) → Program N (Response N)
  unfolding error_response
  guarded body = handle body (λ e. pure (error_response e)) pure

module _ {N : Type 0} (host : Host N) where
  -- `assertCalledByHasura`, from the header or the empty text.
  unfoldable pub assert_secret : String → Result String → Program N ⊤
  assert_secret provided (ok expected) =
      if provided == "" || not (provided == expected)
      then throw (handler_error "Forbidden." 403 "forbidden")
      else pure tt
  assert_secret provided _ = throw (
      handler_error "Server is misconfigured: ACTION_WEBHOOK_SECRET is not set." 500
        "server_misconfigured")

  unfoldable pub assert_called_by_hasura : Request N → Program N ⊤
  unfolding assert_secret
  assert_called_by_hasura request =
      assert_secret (get_or_else request.action_secret "") (action_secret host)

  abbrev bad_request : {A : Type 0} → String → Program N A
  bad_request message = throw (handler_error message 400 "bad_request")

  -- `parseActionPayload`: what is no object has no `input`.
  unfoldable pub parse_action_payload : Option (Json N) → Program N (Json N)
  unfolding is_truthy
  parse_action_payload none = bad_request "Request body was not valid JSON."
  parse_action_payload (some payload) =
      if is_truthy host (prop "input" payload)
      then pure payload
      else bad_request "Malformed Hasura action payload."

  -- `parseEventPayload`, down to `event.data`.
  unfoldable pub parse_event_payload : Option (Json N) → Program N (Option (Json N))
  unfolding is_truthy
  parse_event_payload none = bad_request "Request body was not valid JSON."
  parse_event_payload (some payload) =
      let change = prop_of "data" (prop "event" payload) in
      if is_truthy host change then pure change else bad_request "Malformed Hasura event payload."

  abbrev text_of : Option (Json N) → Option String
  text_of (some (string s)) = some s
  text_of _ = none

  -- The session variables that are read; `trim` of a value that is no text throws.
  unfoldable pub session_of : Option (Json N) → Program N SessionVariables
  unfolding is_truthy
  session_of session =
      let user_id = prop_of "x-hasura-user-id" session in
      let role = text_of (prop_of "x-hasura-role" session) in
      elim (text_of user_id) [
        | some s ↦ pure (record { user_id = some s; role = role })
        | none ↦
            if is_truthy host user_id
            then throw (other "userId.trim is not a function")
            else pure (record { user_id = none; role = role })
      ]

  uuid_text : String → Option String → Program N String
  unfolding is_uuid
  uuid_text name none = bad_request (name ++ " must be a UUID.")
  uuid_text name (some s) = if is_uuid s then pure s else bad_request (name ++ " must be a UUID.")

  -- `payload.input?.<name>`, which has to be a UUID.
  unfoldable pub uuid_input : String → Json N → Program N String
  unfolding uuid_text
  uuid_input name payload = uuid_text name (text_of (prop_of name (prop "input" payload)))
