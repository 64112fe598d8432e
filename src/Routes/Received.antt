-- ===== src/Routes/Received.antt =====
-- What a webhook request that was accepted has done.
use ai_agent_workflow_builde.Common.{
  ℕ, String, true, false, ◌≡◌, ◌≢◌, refl, sym, ap, ◌∙◌, subst, Option, none, some, inl, inr, ◌==◌,
  eqb, ltb, Bool-cases, arith,
}
use ai_agent_workflow_builde.Common.Text.{size}
use ai_agent_workflow_builde.Json.{Json}
use ai_agent_workflow_builde.Domain.{
  Thrown, step_error, authorization_error, graphql_error, handler_error, other, unauthenticated,
  not_found, forbidden, invalid_state, quota_exhausted,
}
use ai_agent_workflow_builde.Host.{Host}
use ai_agent_workflow_builde.Store.{Db, World}
use ai_agent_workflow_builde.Store.Keeps.{request-eq-ok}
use ai_agent_workflow_builde.Store.Program.{Result, ok, and_then, ask, and_then-eq-ok, settle-eq-ok}
use ai_agent_workflow_builde.Authz.{is_archived}
use ai_agent_workflow_builde.Authz.Uuid.{is_uuid}
use ai_agent_workflow_builde.Runs.{CreatedRun, create_run_with_quota}
use ai_agent_workflow_builde.Runs.Paid.{IsGranted, IsInserted, create_run-paid}
use ai_agent_workflow_builde.Routes.{Response}
use ai_agent_workflow_builde.Routes.Webhook.{
  WebhookRequest, LoadedTrigger, provided_secret, find_trigger, webhook_error, is_authentic,
  is_declared_too_long, webhook_json, webhook_run, run_webhook, receive, authenticated,
  check_secret, webhook_body, webhook, webhook_failure, max_body_bytes,
}

module _ {N : Type 0} (host : Host N) (r : WebhookRequest) where
  -- The caller knew the secret of an enabled webhook trigger, of a workflow that can run; its
  -- organization has paid for exactly one run, which is nobody's.
  pub record IsReceived (w w' : World N) : Type 0 where
    pub loaded : LoadedTrigger N
    pub body : Json N
    pub raw : String
    pub asked : World N
    pub found : find_trigger r.trigger_id w.db ≡ some loaded
    pub authentic : is_authentic (provided_secret r) loaded ≡ true
    pub enabled : loaded.trigger.enabled ≡ true
    pub runnable : is_archived loaded.workflow.status ≡ false
    pub has_steps : eqb loaded.step_count 0 ≡ false
    pub sent : r.text ≡ some raw
    pub short : ltb max_body_bytes (size raw) ≡ false
    pub parsed : webhook_json host raw ≡ some body
    pub untouched : asked.db ≡ w.db
    pub reserved : Db N
    pub created : CreatedRun
    pub granted :
        IsGranted loaded.workflow.org_id
          (host.month_start (host.time asked.tick))
          w.db
          reserved
          created.quota
    pub inserted :
        IsInserted host (webhook_run host loaded body) reserved w'.db created.quota created

  webhook_failure-status : (e : Thrown) → (webhook_failure {N = N} e).status ≢ 202
  unfolding webhook_failure webhook_error
  webhook_failure-status (step_error m p) = λ h. omega arith
  webhook_failure-status (graphql_error m) = λ h. omega arith
  webhook_failure-status (handler_error m s c) = λ h. omega arith
  webhook_failure-status (other m) = λ h. omega arith
  webhook_failure-status (authorization_error m unauthenticated) = λ h. omega arith
  webhook_failure-status (authorization_error m not_found) = λ h. omega arith
  webhook_failure-status (authorization_error m forbidden) = λ h. omega arith
  webhook_failure-status (authorization_error m invalid_state) = λ h. omega arith
  webhook_failure-status (authorization_error m quota_exhausted) = λ h. omega arith

  abbrev Answered : Response N → World N → Result (Response N) × World N → Type 0
  Answered resp w' p = Path (Result (Response N) × World N) p (ok resp, w')

  -- A response that was given early is not that of an accepted request.
  not_accepted :
      {A : Type 0} (early : Response N) (w w' : World N) (resp : Response N)
      → Answered resp w' (ok early, w)
      → early.status ≢ 202
      → resp.status ≡ 202
      → A
  not_accepted early w w' resp e bad good =
      let same : early ≡ resp = cc in absurd (bad (ap (λ (x : Response N). x.status) same ∙ good))

  error_status :
      (status : ℕ) (message : String)
      → status ≢ 202
      → (webhook_error {N = N} status message).status ≢ 202
  unfolding webhook_error
  error_status status message h = h

  module _ (t : LoadedTrigger N) (w w' : World N) (resp : Response N)
      (good : resp.status ≡ 202) where
    run_webhook-created :
        (o : Option (Json N))
        → Answered resp w' (run_webhook host t o w)
        → (body : Json N) × (created : CreatedRun) × (o ≡ some body)
          × (create_run_with_quota host (webhook_run host t body) w ≡ (ok created, w'))
    unfolding run_webhook
    run_webhook-created none h =
        not_accepted _ w w' resp h (error_status 400 "Body must be JSON." (λ e. omega arith)) good
    run_webhook-created (some body) h =
        let (created, v, made, responded) = and_then-eq-ok _ _ h in
        let same : v ≡ w' = cc in
        (
          body,
          created,
          refl,
          subst (λ x. create_run_with_quota host (webhook_run host t body) w ≡ (ok created, x)) same
              made,
        )

    receive-created :
        (text : Option String)
        → Answered resp w' (receive host t text w)
        → (raw : String) × (body : Json N) × (created : CreatedRun) × (text ≡ some raw)
          × (ltb max_body_bytes (size raw) ≡ false)
          × (webhook_json host raw ≡ some body)
          × (create_run_with_quota host (webhook_run host t body) w ≡ (ok created, w'))
    unfolding receive
    receive-created none h = cc
    receive-created (some raw) h = elim (Bool-cases (ltb max_body_bytes (size raw))) [
      | inl long ↦
          not_accepted _ w w' resp (rw (long, receive) at h)
            (error_status 413 "Payload too large." (λ e. omega arith)) good
      | inr short ↦
          let (body, created, parsed, made) =
            run_webhook-created (webhook_json host raw) (rw (short, receive) at h) in
          (raw, body, created, refl, short, parsed, made)
    ]

    authenticated-created :
        Answered resp w' (authenticated host t r w)
        → (t.trigger.enabled ≡ true)
          × (is_archived t.workflow.status ≡ false)
          × (eqb t.step_count 0 ≡ false)
          × Answered resp w' (receive host t r.text w)
    unfolding authenticated
    authenticated-created h = elim (Bool-cases t.trigger.enabled) [
      | inr disabled ↦
          not_accepted _ w w' resp (rw (disabled, authenticated) at h)
            (error_status 409 "This webhook trigger is disabled." (λ e. omega arith)) good
      | inl enabled ↦ elim (Bool-cases (is_archived t.workflow.status)) [
        | inl archived ↦
            not_accepted _ w w' resp (rw (enabled, archived, authenticated) at h)
              (error_status 409 "This workflow is archived." (λ e. omega arith)) good
        | inr live ↦ elim (Bool-cases (eqb t.step_count 0)) [
          | inl empty ↦
              not_accepted _ w w' resp (rw (enabled, live, empty, authenticated) at h)
                (error_status 409 "This workflow has no steps." (λ e. omega arith)) good
          | inr steps ↦ (enabled, live, steps, (rw (enabled, live, steps, authenticated) at h))
        ]
      ]
    ]

    check_secret-authentic :
        Answered resp w' (check_secret host r (some t) w)
        → (is_authentic (provided_secret r) t ≡ true) × Answered resp w' (authenticated host t r w)
    unfolding check_secret
    check_secret-authentic h = elim (Bool-cases (is_authentic (provided_secret r) t)) [
      | inl authentic ↦ (authentic, (rw (authentic, check_secret) at h))
      | inr foreign ↦
          not_accepted _ w w' resp (rw (foreign, check_secret) at h)
            (error_status 401 "Invalid webhook trigger or secret." (λ e. omega arith)) good
    ]

  module _ (w w' : World N) (resp : Response N) (good : resp.status ≡ 202) where
    webhook_body-asked :
        Answered resp w' (webhook_body host r w)
        → (asked : World N) × (found_db : w.db ≡ asked.db) × Answered resp w'
            (check_secret host r (find_trigger r.trigger_id w.db) asked)
    unfolding webhook_body
    webhook_body-asked h = elim (Bool-cases (is_uuid r.trigger_id)) [
      | inr malformed ↦
          not_accepted _ w w' resp (rw (malformed, webhook_body) at h)
            (error_status 401 "Invalid webhook trigger or secret." (λ e. omega arith)) good
      | inl uuid ↦ elim (Bool-cases (provided_secret r == "")) [
        | inl missing ↦
            not_accepted _ w w' resp (rw (uuid, missing, webhook_body) at h)
              (error_status 401 "Invalid webhook trigger or secret." (λ e. omega arith)) good
        | inr given ↦ elim (Bool-cases (is_declared_too_long host r)) [
          | inl long ↦
              not_accepted _ w w' resp (rw (uuid, given, long, webhook_body) at h)
                (error_status 413 "Payload too large." (λ e. omega arith)) good
          | inr short ↦ asked_of (rw (uuid, given, short, webhook_body) at h)
        ]
      ]
    ]
      where
        asked_of :
            Answered resp w'
              (and_then (ask host (find_trigger r.trigger_id) w) (check_secret host r))
            → (asked : World N) × (found_db : w.db ≡ asked.db) × Answered resp w'
                (check_secret host r (find_trigger r.trigger_id w.db) asked)
        asked_of h =
            let (loaded, asked, answer, rest) = and_then-eq-ok _ _ h in
            let e = request-eq-ok host _ w answer in
            let first : find_trigger r.trigger_id w.db ≡ loaded = cc in
            let second : w.db ≡ asked.db = cc in
            (
              asked,
              second,
              subst (λ o. Answered resp w' (check_secret host r o asked)) (sym first) rest,
            )

    check_secret-found :
        (asked : World N) (o : Option (LoadedTrigger N))
        → Answered resp w' (check_secret host r o asked)
        → (t : LoadedTrigger N) × (o ≡ some t)
          × Answered resp w' (check_secret host r (some t) asked)
    unfolding check_secret
    check_secret-found asked none h =
        not_accepted _ asked w' resp h
          (error_status 401 "Invalid webhook trigger or secret." (λ e. omega arith)) good
    check_secret-found asked (some t) h = (t, refl, h)

    webhook_body-IsReceived : Answered resp w' (webhook_body host r w) → IsReceived w w'
    webhook_body-IsReceived h =
        let (asked, same, checked) = webhook_body-asked h in
        let (t, found, loaded) =
          check_secret-found asked (find_trigger r.trigger_id w.db) checked in
        let (authentic, passed) = check_secret-authentic t asked w' resp good loaded in
        let (enabled, live, steps, received) = authenticated-created t asked w' resp good passed in
        let (raw, body, created, sent, short, parsed, made) =
          receive-created t asked w' resp good r.text received in
        let (reserved, granted, inserted) =
          create_run-paid host (webhook_run host t body) asked w' created made in
        record {
          loaded = t;
          body = body;
          raw = raw;
          asked = asked;
          found = found;
          authentic = authentic;
          enabled = enabled;
          runnable = live;
          has_steps = steps;
          sent = sent;
          short = short;
          parsed = parsed;
          untouched = sym same;
          reserved = reserved;
          created = created;
          granted =
              subst
                (λ d.
                  IsGranted t.workflow.org_id (host.month_start (host.time asked.tick)) d reserved
                    created.quota)
                (sym same) granted;
          inserted = inserted;
        }

  -- A webhook request that is answered with status 202 names an enabled webhook trigger and its
  -- secret; its text is within the limit and is JSON or blank; the trigger's workflow is not archived
  -- and has steps; the organization that owns it had quota left and one more unit of it is used; and
  -- exactly one run has been added, pending, of that workflow, triggered by nobody, whose input has
  -- the text's value as its body.
  pub webhook-IsReceived :
      (w w' : World N) (resp : Response N)
      → webhook host r w ≡ (ok resp, w')
      → resp.status ≡ 202
      → IsReceived w w'
  unfolding webhook
  webhook-IsReceived w w' resp h good = elim (settle-eq-ok (webhook_body host r w) _ _ h) [
    | inl (early, v, ended, same) ↦ webhook_body-IsReceived w w' resp good (ended ∙ same)
    | inr (e, v, thrown, answered) ↦
        not_accepted (webhook_failure e) v w' resp answered (webhook_failure-status e) good
  ]
