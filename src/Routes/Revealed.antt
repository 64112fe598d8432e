-- ===== src/Routes/Revealed.antt =====
-- To whom a webhook's secret is revealed, and that it is the one the webhook takes.
use ai_agent_workflow_builde.Common.{
  String, true, false, ◌≡◌, refl, sym, ap, ◌∙◌, subst, Option, none, some, inl, inr, ◌==◌,
  Bool-cases, Option-cases, get_or_else, eq_refl,
}
use ai_agent_workflow_builde.Json.{string, prop}
use ai_agent_workflow_builde.Domain.{OrgRole, owner, editor, viewer}
use ai_agent_workflow_builde.Host.{Host}
use ai_agent_workflow_builde.Store.{Db, World, TriggerRow}
use ai_agent_workflow_builde.Store.Keeps.{request-eq-ok}
use ai_agent_workflow_builde.Store.Program.{Result, ok, and_then-eq-ok, ask}
use ai_agent_workflow_builde.Authz.{role_in}
use ai_agent_workflow_builde.Routes.{Response}
use ai_agent_workflow_builde.Routes.Webhook.{
  WebhookRequest, LoadedTrigger, provided_secret, find_trigger, is_webhook,
}
use ai_agent_workflow_builde.Routes.Opaque.{knows_secret}
use ai_agent_workflow_builde.Routes.WebhookUrl.{
  TriggerChain, trigger_chain, webhook_url, url_response, reveal, reveal_to, reveal_chain,
  reveal_by_id, is_owner,
}

module _ {N : Type 0} (host : Host N) (trigger_id user_id : String) where
  -- The caller owns the organization of the trigger, and the URL has the secret of the trigger.
  pub record IsRevealed (w w' : World N) (resp : Response N) : Type 0 where
    pub loaded : LoadedTrigger N
    pub secret : String
    pub found : find_trigger trigger_id w.db ≡ some loaded
    pub owned : role_in loaded.workflow.org_id user_id w.db.members ≡ some owner
    pub untouched : w'.db ≡ w.db
    pub url : prop "url" resp.body ≡ some (string (webhook_url host loaded.trigger.id secret))
    pub opens :
        (r : WebhookRequest)
        → r.trigger_id ≡ trigger_id
        → provided_secret r ≡ secret
        → knows_secret host r w'.db ≡ true

  abbrev Answered : Response N → World N → Result (Response N) × World N → Type 0
  Answered resp w' p = Path (Result (Response N) × World N) p (ok resp, w')

  is_owner-eq : (role : OrgRole) → is_owner role ≡ true → role ≡ owner
  is_owner-eq owner h = refl
  is_owner-eq editor h = cc
  is_owner-eq viewer h = cc

  module _ (w w' : World N) (resp : Response N) where
    reveal-webhook :
        (t : TriggerRow N)
        → Answered resp w' (reveal host trigger_id t w)
        → (is_webhook t.type ≡ true)
          × ((get_or_else t.webhook_secret "" == "") ≡ false)
          × (resp ≡ url_response host t (get_or_else t.webhook_secret ""))
          × (w' ≡ w)
    unfolding reveal
    reveal-webhook t h = elim (Bool-cases (is_webhook t.type)) [
      | inr other ↦ let e = (rw (other, reveal) at h) in cc
      | inl webhook ↦ elim (Bool-cases (get_or_else t.webhook_secret "" == "")) [
        | inl missing ↦ let e = (rw (webhook, missing, reveal) at h) in cc
        | inr given ↦ let e = (rw (webhook, given, reveal) at h) in (webhook, given, cc, cc)
      ]
    ]

    reveal_to-owner :
        (t : TriggerRow N) (role : OrgRole)
        → Answered resp w' (reveal_to host trigger_id t role w)
        → (role ≡ owner) × Answered resp w' (reveal host trigger_id t w)
    unfolding reveal_to
    reveal_to-owner t role h = elim (Bool-cases (is_owner role)) [
      | inl same ↦ (is_owner-eq role same, (rw (same, reveal_to) at h))
      | inr other ↦ let e = (rw (other, reveal_to) at h) in cc
    ]

    reveal_chain-owner :
        (o : Option (TriggerChain N))
        → Answered resp w' (reveal_chain host trigger_id o w)
        → (c : TriggerChain N) × (o ≡ some c)
          × (c.membership ≡ some owner)
          × Answered resp w' (reveal host trigger_id c.trigger w)
    unfolding reveal_chain
    reveal_chain-owner none h = cc
    reveal_chain-owner (some c) h = elim (Option-cases c.membership) [
      | inl stranger ↦ let e = (rw (stranger, reveal_chain) at h) in cc
      | inr (role, member) ↦
          let (same, revealed) = reveal_to-owner c.trigger role (rw (member, reveal_chain) at h) in
          (c, refl, member ∙ ap (λ r. some r) same, revealed)
    ]

  trigger_chain-eq-some :
      (d : Db N) (c : TriggerChain N)
      → trigger_chain trigger_id user_id d ≡ some c
      → (t : LoadedTrigger N) × (find_trigger trigger_id d ≡ some t)
        × (c.trigger ≡ t.trigger)
        × (c.membership ≡ role_in t.workflow.org_id user_id d.members)
  unfolding trigger_chain
  trigger_chain-eq-some d c h = elim (Option-cases (find_trigger trigger_id d)) [
    | inl missing ↦ let e = (rw (missing, trigger_chain) at h) in cc
    | inr (t, found) ↦
        let e = (rw (found, trigger_chain) at h) in
        let same : Path (TriggerChain N)
            (record {
              trigger = t.trigger;
              membership = role_in t.workflow.org_id user_id d.members;
            })
            c =
          cc in
        (
          t,
          found,
          sym (ap (λ (x : TriggerChain N). x.trigger) same),
          sym (ap (λ (x : TriggerChain N). x.membership) same),
        )
  ]

  -- A request with the trigger's secret is let in.
  knows_secret-own :
      (d : Db N) (t : LoadedTrigger N) (r : WebhookRequest)
      → find_trigger trigger_id d ≡ some t
      → is_webhook t.trigger.type ≡ true
      → (get_or_else t.trigger.webhook_secret "" == "") ≡ false
      → r.trigger_id ≡ trigger_id
      → provided_secret r ≡ get_or_else t.trigger.webhook_secret ""
      → knows_secret host r d ≡ true
  knows_secret-own d t r found webhook given named same =
      let there : find_trigger r.trigger_id d ≡ some t =
        ap (λ id. find_trigger id d) named ∙ found in
      rw (there, knows_secret)
        (rw (webhook, given, same) (eq_refl (get_or_else t.trigger.webhook_secret "")))

  -- If getWebhookUrl responds to a user with a URL, that user is an owner of the organization that
  -- owns the trigger's workflow, nothing in the database has changed, and the URL names the trigger
  -- and its secret: a webhook request with this trigger and this secret is let in.
  pub reveal-IsRevealed :
      (w w' : World N) (resp : Response N)
      → reveal_by_id host trigger_id user_id w ≡ (ok resp, w')
      → IsRevealed w w' resp
  unfolding reveal_by_id url_response
  reveal-IsRevealed w w' resp h =
      let (o, asked, answer, rest) =
        and_then-eq-ok (ask host (trigger_chain trigger_id user_id) w)
          (reveal_chain host trigger_id) h in
      let e = request-eq-ok host _ w answer in
      let first : trigger_chain trigger_id user_id w.db ≡ o = cc in
      let second : w.db ≡ asked.db = cc in
      let (c, there, member, revealed) = reveal_chain-owner asked w' resp o rest in
      let (t, found, trigger, membership) = trigger_chain-eq-some w.db c (first ∙ there) in
      let (webhook, given, answered, same) = reveal-webhook asked w' resp c.trigger revealed in
      let kept : w'.db ≡ w.db = ap (λ (x : World N). x.db) same ∙ sym second in
      record {
        loaded = t;
        secret = get_or_else t.trigger.webhook_secret "";
        found = found;
        owned = sym membership ∙ member;
        untouched = kept;
        url =
            ap (λ (x : Response N). prop "url" x.body)
              (answered ∙ ap (λ x. url_response host x (get_or_else x.webhook_secret "")) trigger);
        opens = λ r named provided.
            knows_secret-own w'.db t r (ap (λ d. find_trigger trigger_id d) kept ∙ found)
              (subst (λ x. is_webhook x.type ≡ true) trigger webhook)
              (subst (λ x. (get_or_else x.webhook_secret "" == "") ≡ false) trigger given) named
              provided;
      }
