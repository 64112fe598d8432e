-- ===== src/Routes/Opaque.antt =====
-- What a caller of the webhook learns who does not know a trigger's secret.
use ai_agent_workflow_builde.Common.{
  ◌+◌, Bool, true, false, not, ◌≡◌, refl, none, some, inl, inr, ◌==◌, if◌then◌else◌, Bool-cases,
  Option-cases,
}
use ai_agent_workflow_builde.Host.{Host, Delivery, answered, refused, lost}
use ai_agent_workflow_builde.Store.{Db, World}
use ai_agent_workflow_builde.Store.Program.{ok, request}
use ai_agent_workflow_builde.Authz.Uuid.{is_uuid}
use ai_agent_workflow_builde.Routes.{Response}
use ai_agent_workflow_builde.Routes.Webhook.{
  WebhookRequest, provided_secret, find_trigger, webhook_error, deny, is_authentic,
  is_declared_too_long, check_secret, webhook_body, webhook, webhook_failure,
}

module _ {N : Type 0} (host : Host N) where
  -- The request names a webhook trigger and its secret.
  abbrev pub knows_secret : WebhookRequest → Db N → Bool
  knows_secret r d = elim (find_trigger r.trigger_id d) [
    | none ↦ false
    | some t ↦ is_authentic (provided_secret r) t
  ]

  -- The response to a request without the secret; it does not depend on the database.
  abbrev pub refusal : WebhookRequest → Delivery → Response N
  refusal r delivery =
      if not (is_uuid r.trigger_id)
      then deny
      else if provided_secret r == ""
      then deny
      else if is_declared_too_long host r
      then webhook_error 413 "Payload too large."
      else elim delivery [
        | answered ↦ deny
        | refused ↦ webhook_error 500 "Internal error."
        | lost ↦ webhook_error 500 "Internal error."
      ]

  check_secret-deny :
      (r : WebhookRequest) (d : Db N) (w : World N)
      → knows_secret r d ≡ false
      → check_secret host r (find_trigger r.trigger_id d) w ≡ (ok deny, w)
  unfolding check_secret
  check_secret-deny r d w h = elim (Option-cases (find_trigger r.trigger_id d)) [
    | inl missing ↦ rw (missing, check_secret) refl
    | inr (t, found) ↦
        let foreign = (rw (found, knows_secret) at h) in
        rw (found, check_secret) (rw (foreign) refl)
  ]

  asked-refusal :
      (r : WebhookRequest) (w : World N) (delivery : Delivery)
      → host.delivery w.tick ≡ delivery
      → knows_secret r w.db ≡ false
      → is_uuid r.trigger_id ≡ true
      → (provided_secret r == "") ≡ false
      → is_declared_too_long host r ≡ false
      → ((webhook host r w).0 ≡ ok (refusal r delivery)) × ((webhook host r w).1.db ≡ w.db)
  unfolding webhook webhook_body webhook_failure request
  asked-refusal r w answered e foreign uuid given short =
      let v : World N = record w { tick = w.tick + 1 } in
      rw (uuid, given, short, e, check_secret-deny r w.db v foreign, webhook, webhook_body, request)
        (refl, refl)
  asked-refusal r w refused e foreign uuid given short =
      rw (uuid, given, short, e, webhook, webhook_body, request) (refl, refl)
  asked-refusal r w lost e foreign uuid given short =
      rw (uuid, given, short, e, webhook, webhook_body, request) (refl, refl)

  -- A webhook request that does not name a webhook trigger together with its secret changes nothing
  -- in the database, and its response follows from the request alone and from whether the database
  -- answered: it is the same whether the trigger is missing, of another type, without a secret,
  -- disabled or has another secret.
  pub webhook-opaque :
      (r : WebhookRequest) (w : World N)
      → knows_secret r w.db ≡ false
      → ((webhook host r w).0 ≡ ok (refusal r (host.delivery w.tick)))
        × ((webhook host r w).1.db ≡ w.db)
  unfolding webhook webhook_body
  webhook-opaque r w foreign = elim (Bool-cases (is_uuid r.trigger_id)) [
    | inr malformed ↦ rw (malformed, webhook, webhook_body) (refl, refl)
    | inl uuid ↦ elim (Bool-cases (provided_secret r == "")) [
      | inl missing ↦ rw (uuid, missing, webhook, webhook_body) (refl, refl)
      | inr given ↦ elim (Bool-cases (is_declared_too_long host r)) [
        | inl long ↦ rw (uuid, given, long, webhook, webhook_body) (refl, refl)
        | inr short ↦ asked-refusal r w (host.delivery w.tick) refl foreign uuid given short
      ]
    ]
  ]
