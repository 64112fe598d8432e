-- ===== src/Routes/Authorized.antt =====
-- A run is triggered for members of the organization that pays for it.
use ai_agent_workflow_builde.Common.{String, ◌≡◌, ap, ◌∙◌, subst, arith}
use ai_agent_workflow_builde.Json.{Json}
use ai_agent_workflow_builde.Domain.{roles_that_may_execute}
use ai_agent_workflow_builde.Host.{Host}
use ai_agent_workflow_builde.Store.{Db, World}
use ai_agent_workflow_builde.Store.Program.{ok, pure, and_then-eq-ok}
use ai_agent_workflow_builde.Authz.{WorkflowChain, WorkflowAuthzResult}
use ai_agent_workflow_builde.Authz.Workflows.{
  IsRunnable, IsWorkflowChain, authorize_workflow-IsRunnable,
}
use ai_agent_workflow_builde.Runs.{CreatedRun}
use ai_agent_workflow_builde.Runs.Paid.{IsGranted, IsInserted, create_run-paid}
use ai_agent_workflow_builde.Routes.{Response, uuid_input}
use ai_agent_workflow_builde.Routes.Actions.{trigger_for, manual_run}

module _ {N : Type 0} (host : Host N) (payload : Json N) (user_id : String) where
  -- The caller may run the workflow, its organization has paid, and the run is the caller's.
  pub record IsTriggered (w w' : World N) : Type 0 where
    pub workflow_id : String
    pub authorized : World N
    pub authz : WorkflowAuthzResult
    pub chain : WorkflowChain
    pub named : uuid_input host "workflow_id" payload w ≡ (ok workflow_id, w)
    pub found : IsWorkflowChain workflow_id user_id w.db chain
    pub runnable : IsRunnable roles_that_may_execute chain authz
    pub untouched : authorized.db ≡ w.db
    pub reserved : Db N
    pub created : CreatedRun
    pub granted :
        IsGranted authz.org_id
          (host.month_start (host.time authorized.tick))
          w.db
          reserved
          created.quota
    pub inserted :
        IsInserted host (manual_run host authz user_id payload) reserved w'.db created.quota created

uuid_input-world :
    {N : Type 0} (host : Host N) (name : String) (payload : Json N) (w w' : World N) (s : String)
    → uuid_input host name payload w ≡ (ok s, w')
    → w' ≡ w
unfolding uuid_input
uuid_input-world host name payload w w' s h = grind arith

pure-world : {N A : Type 0} (a b : A) (w w' : World N) → pure a w ≡ (ok b, w') → w ≡ w'
pure-world a b w w' h = cc

-- If triggerWorkflowRun, past its guard, responds to a user without an error, that user is a member,
-- with a role that may execute, of the organization that owns the workflow named in the input; the
-- workflow is not archived and has steps; that organization had quota left and one more unit of it
-- is used; and exactly one run has been added, pending, of that workflow, triggered by that user.
pub trigger_for-IsTriggered :
    {N : Type 0} (host : Host N) (payload : Json N) (user_id : String) (w w' : World N)
    (r : Response N)
    → trigger_for host (payload, user_id) w ≡ (ok r, w')
    → IsTriggered host payload user_id w w'
unfolding trigger_for
trigger_for-IsTriggered {N} host payload user_id w w' r h =
    let (workflow_id, w1, named, rest) = and_then-eq-ok _ _ h in
    let (authz, w2, permitted, rest') = and_then-eq-ok _ _ rest in
    let (created, w3, made, responded) = and_then-eq-ok _ _ rest' in
    let same = uuid_input-world host "workflow_id" payload w w1 workflow_id named in
    let (chain, found, runnable, kept) =
      authorize_workflow-IsRunnable host workflow_id user_id roles_that_may_execute w1 w2 authz
        permitted in
    let (reserved, granted, inserted) =
      create_run-paid host (manual_run host authz user_id payload) w2 w3 created made in
    let ended : w3 ≡ w' = pure-world _ r w3 w' responded in
    let unchanged : w2.db ≡ w.db = kept ∙ ap (λ x. x.db) same in
    record {
      workflow_id = workflow_id;
      authorized = w2;
      authz = authz;
      chain = chain;
      named = subst (λ x. uuid_input host "workflow_id" payload w ≡ (ok workflow_id, x)) same named;
      found = subst (λ (x : World N). IsWorkflowChain workflow_id user_id x.db chain) same found;
      runnable = runnable;
      untouched = unchanged;
      reserved = reserved;
      created = created;
      granted =
          subst
            (λ d.
              IsGranted authz.org_id (host.month_start (host.time w2.tick)) d reserved
                created.quota)
            unchanged granted;
      inserted =
          subst
            (λ (x : World N).
              IsInserted host (manual_run host authz user_id payload) reserved x.db created.quota
                created)
            ended inserted;
    }
