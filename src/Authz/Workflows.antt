-- ===== src/Authz/Workflows.antt =====
-- Who may run a workflow: what `authorizeWorkflowExecution` has established when it returns, and
-- what it tells a stranger.
use ai_agent_workflow_builde.Common.{
  subst, String, true, false, ◌≡◌, refl, sym, ◌∙◌, ◌==◌, eqb, Option, none, some, List, find, keep,
  length, arith, inl, inr, Bool-cases, Option-cases,
}
use ai_agent_workflow_builde.Domain.{OrgRole, has_role}
use ai_agent_workflow_builde.Host.{Host, Delivery, answered, refused, lost}
use ai_agent_workflow_builde.Store.{Db, World, WorkflowRow, Organization}
use ai_agent_workflow_builde.Store.Program.{ok, Program, request, and_then, deliver}
use ai_agent_workflow_builde.Store.Keeps.{request-eq-ok}
use ai_agent_workflow_builde.Store.Ensures.{Ensures, Ensures-and_then}
use ai_agent_workflow_builde.Quota.{is_org}
use ai_agent_workflow_builde.Authz.{
  role_in, WorkflowChain, WorkflowAuthzResult, workflow_chain, check_workflow, check_workflow_chain,
  authorize_workflow_execution, is_archived, workflow_missing,
}
use ai_agent_workflow_builde.Authz.Uuid.{is_uuid}

-- What the checks of a member's request have established.
pub record IsRunnable (allowed : List OrgRole) (c : WorkflowChain) (r : WorkflowAuthzResult)
    : Type 0 where
  pub is_member : c.membership ≡ some r.role
  pub may_execute : has_role allowed r.role ≡ true
  pub not_archived : is_archived c.workflow.status ≡ false
  pub has_steps : eqb r.step_count 0 ≡ false
  pub counted : r.step_count ≡ c.step_count
  pub same_workflow : r.workflow_id ≡ c.workflow.id
  pub same_org : r.org_id ≡ c.workflow.org_id

module _ {N : Type 0} where
  -- The workflow, and the caller's role in the organization that owns it.
  pub record IsWorkflowChain (workflow_id user_id : String) (d : Db N) (c : WorkflowChain)
      : Type 0 where
    pub has_workflow : find (λ w. w.id == workflow_id) d.engine.workflows ≡ some c.workflow
    pub has_membership : c.membership ≡ role_in c.workflow.org_id user_id d.members
    pub has_step_count :
        c.step_count ≡ length (keep (λ s. s.workflow_id == c.workflow.id) d.engine.steps)

  abbrev chain_at : WorkflowRow → Organization → String → Db N → WorkflowChain
  chain_at wf o user_id d = record {
    workflow = wf;
    quota_used = o.quota_used;
    quota_limit = o.quota_limit;
    membership = role_in wf.org_id user_id d.members;
    step_count = length (keep (λ s. s.workflow_id == wf.id) d.engine.steps);
  }

  chain_of :
      (x c : WorkflowChain) (d d' : Db N)
      → Path (Option (Option WorkflowChain × Db N)) (some (some x, d)) (some (some c, d'))
      → x ≡ c
  chain_of x c d d' h = cc

  workflow_chain-IsWorkflowChain :
      (workflow_id user_id : String) (d : Db N) (c : WorkflowChain) (d' : Db N)
      → workflow_chain workflow_id user_id d ≡ some (some c, d')
      → IsWorkflowChain workflow_id user_id d c
  unfolding workflow_chain
  workflow_chain-IsWorkflowChain workflow_id user_id d c d' h =
      elim (Option-cases (find (λ w. w.id == workflow_id) d.engine.workflows)) [
        | inl missing ↦ let e = (rw (missing, workflow_chain) at h) in cc
        | inr (wf, e1) ↦
            let h1 = (rw (e1, workflow_chain) at h) in
            elim (Option-cases (find (is_org wf.org_id) d.organizations)) [
              | inl missing ↦ let e = (rw missing at h1) in cc
              | inr (o, e2) ↦
                  subst (λ x. IsWorkflowChain workflow_id user_id d x)
                    (chain_of (chain_at wf o user_id d) c d d' (rw e2 at h1))
                    (record { has_workflow = e1; has_membership = refl; has_step_count = refl })
            ]
      ]

  workflow_chain-db :
      (workflow_id user_id : String) (d : Db N) (c : Option WorkflowChain) (d' : Db N)
      → workflow_chain workflow_id user_id d ≡ some (c, d')
      → d' ≡ d
  unfolding workflow_chain
  workflow_chain-db workflow_id user_id d c d' h = grind arith

  check_workflow-eq-ok :
      (allowed : List OrgRole) (c : WorkflowChain) (role : OrgRole) (w w' : World N)
      (r : WorkflowAuthzResult)
      → check_workflow allowed c role w ≡ (ok r, w')
      → (has_role allowed role ≡ true)
        × (is_archived c.workflow.status ≡ false)
        × (eqb c.step_count 0 ≡ false)
        × (r.role ≡ role)
        × (r.step_count ≡ c.step_count)
        × (r.workflow_id ≡ c.workflow.id)
        × (r.org_id ≡ c.workflow.org_id)
        × (w' ≡ w)
  unfolding check_workflow
  check_workflow-eq-ok allowed c role w w' r h = ground arith

  check_workflow_chain-eq-ok :
      (allowed : List OrgRole) (c : Option WorkflowChain) (w w' : World N) (r : WorkflowAuthzResult)
      → check_workflow_chain allowed c w ≡ (ok r, w')
      → (a : WorkflowChain) × (c ≡ some a) × IsRunnable allowed a r × (w' ≡ w)
  unfolding check_workflow_chain
  check_workflow_chain-eq-ok allowed none w w' r h = cc
  check_workflow_chain-eq-ok allowed (some c) w w' r h = elim (Option-cases c.membership) [
    | inl missing ↦ let e = (rw missing at h) in cc
    | inr (role, e) ↦
        let (may, live, steps, same_role, same_count, same_workflow, same_org, kept) =
          check_workflow-eq-ok allowed c role w w' r (rw e at h) in
        (
          c,
          refl,
          record {
            is_member = cc;
            may_execute = cc;
            not_archived = live;
            has_steps = cc;
            counted = same_count;
            same_workflow = same_workflow;
            same_org = same_org;
          },
          kept,
        )
  ]

module _ {N : Type 0} (host : Host N) (workflow_id user_id : String) (w : World N) where
  asked :
      Ensures
        (λ c w1.
          ((a : WorkflowChain) → c ≡ some a → IsWorkflowChain workflow_id user_id w.db a)
          × (w1.db ≡ w.db))
        (request host (workflow_chain workflow_id user_id) w)
  asked = record {
    holds = λ c w1 e.
        let q = request-eq-ok host (workflow_chain workflow_id user_id) w e in
        (
          λ a f. workflow_chain-IsWorkflowChain workflow_id user_id w.db a w1.db (cc (q, f)),
          workflow_chain-db workflow_id user_id w.db c w1.db q,
        );
  }

-- If `authorizeWorkflowExecution` returns, the workflow exists, is not archived and has a step, the
-- caller is a member of the organization that owns it with one of the allowed roles, the result
-- names that workflow and that organization, and the tables are untouched.
pub authorize_workflow-IsRunnable :
    {N : Type 0} (host : Host N) (workflow_id user_id : String) (allowed : List OrgRole)
    (w w' : World N) (r : WorkflowAuthzResult)
    → authorize_workflow_execution host workflow_id user_id allowed w ≡ (ok r, w')
    → (c : WorkflowChain) × IsWorkflowChain workflow_id user_id w.db c
      × IsRunnable allowed c r
      × (w'.db ≡ w.db)
unfolding authorize_workflow_execution
authorize_workflow-IsRunnable {N} host workflow_id user_id allowed w w' r h =
    elim (Bool-cases (is_uuid workflow_id)) [
      | inl valid ↦
          (Ensures-and_then {A = Option WorkflowChain}
              {P = λ c w1.
                ((a : WorkflowChain) → c ≡ some a → IsWorkflowChain workflow_id user_id w.db a)
                × (w1.db ≡ w.db)}
              {Q = λ r w'.
                (c : WorkflowChain) × IsWorkflowChain workflow_id user_id w.db c
                × IsRunnable allowed c r
                × (w'.db ≡ w.db)}
              _ _ (asked host workflow_id user_id w)
              λ c w1 (chained, same). record {
                holds = λ r w' e.
                    let (a, found, runnable, kept) =
                      check_workflow_chain-eq-ok allowed c w1 w' r e in
                    (a, chained a found, runnable, cc (same, kept));
              }).holds
            r w' (rw (valid, authorize_workflow_execution) at h)
      | inr invalid ↦ let e = (rw (invalid, authorize_workflow_execution) at h) in cc
    ]

module _ {N : Type 0} where
  -- There is no such workflow, or it belongs to an organization that the user is no member of.
  pub record IsStranger (workflow_id user_id : String) (d : Db N) : Type 0 where
    pub outside :
        (wf : WorkflowRow)
        → find (λ w. w.id == workflow_id) d.engine.workflows ≡ some wf
        → role_in wf.org_id user_id d.members ≡ none
    -- The foreign key to the organization.
    pub owned :
        (wf : WorkflowRow)
        → find (λ w. w.id == workflow_id) d.engine.workflows ≡ some wf
        → (o : Organization) × (find (is_org wf.org_id) d.organizations ≡ some o)

module _ {N : Type 0} (host : Host N) (user_id : String) (allowed : List OrgRole) where
  abbrev workflow_missing_for : Option WorkflowChain → Program N WorkflowAuthzResult
  workflow_missing_for c = workflow_missing

  -- What the query finds for a stranger, and what becomes of it.
  stranger_chain :
      (workflow_id : String) (w : World N)
      → IsStranger workflow_id user_id w.db
      → (c : Option WorkflowChain) × (workflow_chain workflow_id user_id w.db ≡ some (c, w.db))
        × ((w1 : World N) → check_workflow_chain allowed c w1 ≡ workflow_missing w1)
  unfolding workflow_chain check_workflow_chain
  stranger_chain workflow_id w s =
      elim (Option-cases (find (λ w. w.id == workflow_id) w.db.engine.workflows)) [
        | inl missing ↦ (none, (rw (missing, workflow_chain) refl), λ w1. refl)
        | inr (wf, found) ↦
            let (o, owner) = s.owned wf found in
            (
              some (chain_at wf o user_id w.db),
              (rw (found, workflow_chain) (rw owner refl)),
              λ w1. rw (s.outside wf found) refl,
            )
      ]

  -- The answer does not depend on what was found, if that comes to the same as nothing.
  answer-eq :
      (delivery : Delivery) (c : Option WorkflowChain) (w : World N)
      → ((w1 : World N) → check_workflow_chain allowed c w1 ≡ workflow_missing w1)
      → and_then (deliver host delivery (some (c, w.db)) w) (check_workflow_chain allowed)
        ≡ and_then (deliver host delivery (some (none, w.db)) w) workflow_missing_for
  answer-eq answered c w h = h _
  answer-eq refused c w h = refl
  answer-eq lost c w h = refl

  stranger_answer :
      (workflow_id : String) (w : World N)
      → is_uuid workflow_id ≡ true
      → IsStranger workflow_id user_id w.db
      → authorize_workflow_execution host workflow_id user_id allowed w
        ≡ and_then (deliver host (host.delivery w.tick) (some (none, w.db)) w) workflow_missing_for
  unfolding authorize_workflow_execution request
  stranger_answer workflow_id w valid s =
      let (c, found, same) = stranger_chain workflow_id w s in
      rw (valid, authorize_workflow_execution)
        (rw (found, request) (answer-eq (host.delivery w.tick) c w same))

-- A caller cannot tell apart two workflows that are closed to them, be it that there is none with
-- that id or that it belongs to another organization: for well-formed ids,
-- `authorizeWorkflowExecution` ends in the same way, and in the same state.
pub authorize_workflow-indistinguishable :
    {N : Type 0} (host : Host N) (user_id : String) (allowed : List OrgRole) (id1 id2 : String)
    (w : World N)
    → is_uuid id1 ≡ true
    → is_uuid id2 ≡ true
    → IsStranger id1 user_id w.db
    → IsStranger id2 user_id w.db
    → authorize_workflow_execution host id1 user_id allowed w
      ≡ authorize_workflow_execution host id2 user_id allowed w
authorize_workflow-indistinguishable host user_id allowed id1 id2 w v1 v2 s1 s2 =
    stranger_answer host user_id allowed id1 w v1 s1
    ∙ sym (stranger_answer host user_id allowed id2 w v2 s2)
