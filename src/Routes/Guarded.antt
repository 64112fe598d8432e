-- ===== src/Routes/Guarded.antt =====
-- The guard of the handlers: nothing happens for a caller that is not Hasura.
use ai_agent_workflow_builde.Common.{
  ⊤, ℕ, String, false, ◌≡◌, refl, ◌==◌, get_or_else, inl, inr, ◌⊎◌, Bool-cases,
}
use ai_agent_workflow_builde.Domain.{handler_error}
use ai_agent_workflow_builde.Host.{Host}
use ai_agent_workflow_builde.Env.{action_secret}
use ai_agent_workflow_builde.Network.{Network}
use ai_agent_workflow_builde.Store.{World}
use ai_agent_workflow_builde.Store.Program.{Result, ok, err, out_of_fuel, Program, ◌>>=◌}
use ai_agent_workflow_builde.Executors.{Executors}
use ai_agent_workflow_builde.Routes.{
  Request, Response, guarded, error_response, assert_secret, assert_called_by_hasura,
}
use ai_agent_workflow_builde.Routes.Actions.{
  action_caller, trigger_workflow_run, trigger_workflow_run_body, approve_step, approve_step_body,
}
use ai_agent_workflow_builde.Routes.Events.{execute_event}
use ai_agent_workflow_builde.Routes.WebhookUrl.{get_webhook_url}
use ai_agent_workflow_builde.Routes.Notifications.{notification_event}
use ai_agent_workflow_builde.Routes.Schedule.{scheduled_dispatch}

-- The secret is not configured, or the header is empty or another text.
module _ {N : Type 0} (host : Host N) (request : Request N) where
  abbrev pub IsForeign : Type 0
  IsForeign =
      (secret : String)
      → action_secret host ≡ ok secret
      → (get_or_else request.action_secret "" ≡ "")
        ⊎ ((get_or_else request.action_secret "" == secret) ≡ false)

  -- A handler that ended with 403, or 500 where no secret is configured, and in the same state.
  abbrev pub IsRejected : World N → Result (Response N) × World N → Type 0
  IsRejected w p = (r : Response N) × (p ≡ (ok r, w)) × ((r.status ≡ 403) ⊎ (r.status ≡ 500))

  secret_refused :
      (provided : String) (expected : Result String) (w : World N)
      → ((secret : String)
          → expected ≡ ok secret
          → (provided ≡ "") ⊎ ((provided == secret) ≡ false))
      → (message : String) × (status : ℕ) × (code : String) × (assert_secret host provided expected
            w
          ≡ (err (handler_error message status code), w))
        × ((status ≡ 403) ⊎ (status ≡ 500))
  unfolding assert_secret
  secret_refused provided (ok s) w h = elim (h s refl) [
    | inl empty ↦ ("Forbidden.", 403, "forbidden", (rw empty refl), inl refl)
    | inr other ↦ elim (Bool-cases (provided == "")) [
      | inl e ↦ ("Forbidden.", 403, "forbidden", (rw e refl), inl refl)
      | inr e ↦ ("Forbidden.", 403, "forbidden", (rw e (rw other refl)), inl refl)
    ]
  ]
  secret_refused provided (err e) w h = (
    "Server is misconfigured: ACTION_WEBHOOK_SECRET is not set.",
    500,
    "server_misconfigured",
    refl,
    inr refl,
  )
  secret_refused provided out_of_fuel w h = (
    "Server is misconfigured: ACTION_WEBHOOK_SECRET is not set.",
    500,
    "server_misconfigured",
    refl,
    inr refl,
  )

  -- A handler whose body begins with the guard.
  body-IsRejected :
      {A : Type 0} (rest : A → Program N (Response N)) (after : ⊤ → Program N A) (w : World N)
      → IsForeign
      → IsRejected w (guarded ((assert_called_by_hasura host request >>= after) >>= rest) w)
  unfolding guarded assert_called_by_hasura error_response
  body-IsRejected rest after w h =
      let (message, status, code, thrown, kind) =
        secret_refused (get_or_else request.action_secret "") (action_secret host) w h in
      (
        error_response (handler_error message status code),
        (rw (thrown, guarded, assert_called_by_hasura) refl),
        kind,
      )

  event-IsRejected :
      (after : ⊤ → Program N (Response N)) (w : World N)
      → IsForeign
      → IsRejected w (guarded (assert_called_by_hasura host request >>= after) w)
  unfolding guarded assert_called_by_hasura error_response
  event-IsRejected after w h =
      let (message, status, code, thrown, kind) =
        secret_refused (get_or_else request.action_secret "") (action_secret host) w h in
      (
        error_response (handler_error message status code),
        (rw (thrown, guarded, assert_called_by_hasura) refl),
        kind,
      )

-- A request whose secret header is missing, empty or not the configured secret, or that arrives
-- where no secret is configured: triggerWorkflowRun, approveStep, getWebhookUrl, the run event, the
-- notification event and the scheduled sweep each answer with status 403 or 500, and have changed
-- nothing and sent no request.
pub handlers-IsRejected :
    {N : Type 0} (host : Host N) (net : Network N) (ex : Executors N) (fuel : ℕ)
    (request : Request N) (w : World N)
    → IsForeign host request
    → IsRejected host request w (trigger_workflow_run host request w)
      × IsRejected host request w (approve_step host ex fuel request w)
      × IsRejected host request w (get_webhook_url host request w)
      × IsRejected host request w (execute_event host ex fuel request w)
      × IsRejected host request w (notification_event host net request w)
      × IsRejected host request w (scheduled_dispatch host net request w)
unfolding trigger_workflow_run trigger_workflow_run_body approve_step approve_step_body
    execute_event action_caller get_webhook_url notification_event scheduled_dispatch
handlers-IsRejected host net ex fuel request w h = (
  body-IsRejected host request _ _ w h,
  body-IsRejected host request _ _ w h,
  body-IsRejected host request _ _ w h,
  event-IsRejected host request _ w h,
  event-IsRejected host request _ w h,
  event-IsRejected host request _ w h,
)
