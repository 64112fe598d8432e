-- ===== src/Authz/Approvals.antt =====
-- Who may approve: what `authorizeApproval` has established when it returns, and what it tells a
-- stranger.
use ai_agent_workflow_builde.Common.{
  String, true, ◌≡◌, refl, ◌==◌, Option, none, some, List, find, arith, inl, inr, Bool-cases,
  Option-cases, subst,
}
use ai_agent_workflow_builde.Domain.{
  OrgRole, has_role, StepType, StepRunStatus, RunStatus, StepRunRow, WorkflowStepRow,
  WorkflowRunRow,
}
use ai_agent_workflow_builde.Host.{Host}
use ai_agent_workflow_builde.Store.{Db, World, WorkflowRow}
use ai_agent_workflow_builde.Store.Program.{ok, request}
use ai_agent_workflow_builde.Store.Keeps.{request-eq-ok}
use ai_agent_workflow_builde.Store.Ensures.{Ensures, Ensures-and_then}
use ai_agent_workflow_builde.Authz.{
  role_in, ApprovalChain, ApprovalAuthzResult, approval_chain, check_approval, check_approval_chain,
  authorize_approval, is_approval_gate, is_paused_step, is_paused_run, is_none,
}
use ai_agent_workflow_builde.Authz.Uuid.{is_uuid}

gate-eq : (t : StepType) → is_approval_gate t ≡ true → t ≡ StepType.approval_gate
gate-eq StepType.approval_gate h = refl
gate-eq StepType.llm_call h = cc
gate-eq StepType.http_request h = cc
gate-eq StepType.db_write h = cc
gate-eq StepType.notify h = cc
gate-eq StepType.conditional_branch h = cc

step-eq : (s : StepRunStatus) → is_paused_step s ≡ true → s ≡ StepRunStatus.paused
step-eq StepRunStatus.paused h = refl
step-eq StepRunStatus.pending h = cc
step-eq StepRunStatus.running h = cc
step-eq StepRunStatus.completed h = cc
step-eq StepRunStatus.failed h = cc
step-eq StepRunStatus.skipped h = cc

run-eq : (s : RunStatus) → is_paused_run s ≡ true → s ≡ RunStatus.paused
run-eq RunStatus.paused h = refl
run-eq RunStatus.pending h = cc
run-eq RunStatus.running h = cc
run-eq RunStatus.completed h = cc
run-eq RunStatus.failed h = cc
run-eq RunStatus.cancelled h = cc

none-eq : {A : Type 0} (o : Option A) → is_none o ≡ true → o ≡ none
none-eq none h = refl
none-eq (some a) h = cc

module _ {N : Type 0} where
  -- The rows that the chain from a step run leads to.
  pub record IsChain (step_run_id user_id : String) (d : Db N) (c : ApprovalChain N) : Type 0 where
    pub workflow : WorkflowRow
    pub has_step_run : find (λ r. r.id == step_run_id) d.engine.step_runs ≡ some c.step_run
    pub has_step : find (λ s. s.id == c.step_run.workflow_step_id) d.engine.steps ≡ some c.step
    pub has_run : find (λ r. r.id == c.step_run.workflow_run_id) d.engine.runs ≡ some c.run
    pub has_workflow : find (λ w. w.id == c.run.workflow_id) d.engine.workflows ≡ some workflow
    pub has_membership : c.membership ≡ role_in workflow.org_id user_id d.members

  -- A gate that is open: nobody has approved it, and its run waits for it.
  pub record IsOpenGate (c : ApprovalChain N) : Type 0 where
    pub is_gate : c.step.type ≡ StepType.approval_gate
    pub unapproved : c.step_run.approved_by ≡ none
    pub undated : c.step_run.approved_at ≡ none
    pub step_waits : c.step_run.status ≡ StepRunStatus.paused
    pub run_waits : c.run.status ≡ RunStatus.paused

  -- What the checks of a member's request have established.
  pub record IsPermitted (allowed : List OrgRole) (c : ApprovalChain N) (r : ApprovalAuthzResult)
      : Type 0 where
    pub may_approve : has_role allowed r.role ≡ true
    pub is_member : c.membership ≡ some r.role
    pub gate : IsOpenGate c
    pub same_step_run : r.step_run_id ≡ c.step_run.id
    pub same_run : r.run_id ≡ c.run.id

  abbrev chain :
      StepRunRow N → WorkflowStepRow N → WorkflowRunRow N → Option OrgRole → ApprovalChain N
  chain sr step run membership = record {
    step_run = sr;
    step = step;
    run = run;
    membership = membership;
  }

  chain_of :
      (sr : StepRunRow N) (step : WorkflowStepRow N) (run : WorkflowRunRow N) (m : Option OrgRole)
      (c : ApprovalChain N) (d d' : Db N)
      → Path
          (Option (Option (ApprovalChain N) × Db N))
          (some (some (chain sr step run m), d))
          (some (some c, d'))
      → chain sr step run m ≡ c
  chain_of sr step run m c d d' h = cc

  approval_chain-IsChain :
      (step_run_id user_id : String) (d : Db N) (c : ApprovalChain N) (d' : Db N)
      → approval_chain step_run_id user_id d ≡ some (some c, d')
      → IsChain step_run_id user_id d c × (d' ≡ d)
  unfolding approval_chain
  approval_chain-IsChain step_run_id user_id d c d' h =
      elim (Option-cases (find (λ r. r.id == step_run_id) d.engine.step_runs)) [
        | inl missing ↦ let e = (rw (missing, approval_chain) at h) in cc
        | inr (sr, e1) ↦
            let h1 = (rw (e1, approval_chain) at h) in
            elim (Option-cases (find (λ s. s.id == sr.workflow_step_id) d.engine.steps)) [
              | inl missing ↦ let e = (rw missing at h1) in cc
              | inr (step, e2) ↦
                  let h2 = (rw e2 at h1) in
                  elim (Option-cases (find (λ r. r.id == sr.workflow_run_id) d.engine.runs)) [
                    | inl missing ↦ let e = (rw missing at h2) in cc
                    | inr (run, e3) ↦
                        let h3 = (rw e3 at h2) in
                        elim (Option-cases
                          (find (λ w. w.id == run.workflow_id) d.engine.workflows)) [
                            | inl missing ↦ let e = (rw missing at h3) in cc
                            | inr (wf, e4) ↦
                                let h4 = (rw e4 at h3) in
                                (
                                  subst (λ x. IsChain step_run_id user_id d x)
                                      (chain_of sr step run (role_in wf.org_id user_id d.members) c
                                        d d' h4)
                                      (record {
                                        workflow = wf;
                                        has_step_run = e1;
                                        has_step = e2;
                                        has_run = e3;
                                        has_workflow = e4;
                                        has_membership = refl;
                                      }),
                                  cc h4,
                                )
                          ]
                  ]
            ]
      ]

  check_approval-eq-ok :
      (allowed : List OrgRole) (c : ApprovalChain N) (role : OrgRole) (w w' : World N)
      (r : ApprovalAuthzResult)
      → check_approval allowed c role w ≡ (ok r, w')
      → (has_role allowed role ≡ true)
        × (is_approval_gate c.step.type ≡ true)
        × (is_none c.step_run.approved_at ≡ true)
        × (is_none c.step_run.approved_by ≡ true)
        × (is_paused_step c.step_run.status ≡ true)
        × (is_paused_run c.run.status ≡ true)
        × (r.role ≡ role)
        × (r.step_run_id ≡ c.step_run.id)
        × (r.run_id ≡ c.run.id)
        × (w' ≡ w)
  unfolding check_approval
  check_approval-eq-ok allowed c role w w' r h = ground arith

  check_approval_chain-eq-ok :
      (allowed : List OrgRole) (c : Option (ApprovalChain N)) (w w' : World N)
      (r : ApprovalAuthzResult)
      → check_approval_chain allowed c w ≡ (ok r, w')
      → (a : ApprovalChain N) × (c ≡ some a) × IsPermitted allowed a r × (w' ≡ w)
  unfolding check_approval_chain
  check_approval_chain-eq-ok allowed none w w' r h = cc
  check_approval_chain-eq-ok allowed (some c) w w' r h = elim (Option-cases c.membership) [
    | inl missing ↦ let e = (rw missing at h) in cc
    | inr (role, e) ↦
        let (
          may, gate, undated, unapproved, step_waits, run_waits, same_role, same_sr, same_run, kept,
        ) =
          check_approval-eq-ok allowed c role w w' r (rw e at h) in
        (
          c,
          refl,
          record {
            may_approve = cc;
            is_member = cc;
            gate = record {
              is_gate = gate-eq c.step.type gate;
              unapproved = none-eq c.step_run.approved_by unapproved;
              undated = none-eq c.step_run.approved_at undated;
              step_waits = step-eq c.step_run.status step_waits;
              run_waits = run-eq c.run.status run_waits;
            };
            same_step_run = same_sr;
            same_run = same_run;
          },
          kept,
        )
  ]

module _ {N : Type 0} (host : Host N) (step_run_id user_id : String) (w : World N) where
  chain-db :
      (c : Option (ApprovalChain N)) (d' : Db N)
      → approval_chain step_run_id user_id w.db ≡ some (c, d')
      → d' ≡ w.db
  unfolding approval_chain
  chain-db c d' h = grind arith

  asked :
      Ensures
        (λ c w1.
          ((a : ApprovalChain N) → c ≡ some a → IsChain step_run_id user_id w.db a)
          × (w1.db ≡ w.db))
        (request host (approval_chain step_run_id user_id) w)
  asked = record {
    holds = λ c w1 e.
        let q = request-eq-ok host (approval_chain step_run_id user_id) w e in
        (
          λ a f. (approval_chain-IsChain step_run_id user_id w.db a w1.db (cc (q, f))).0,
          chain-db c w1.db q,
        );
  }

-- If `authorizeApproval` returns, the step run exists, its step is an approval gate that nobody has
-- approved, the step run and its run are paused, the caller is a member, by the chain from the step
-- run to the workflow's organization, with one of the allowed roles, and the tables are untouched.
pub authorize_approval-IsPermitted :
    {N : Type 0} (host : Host N) (step_run_id user_id : String) (allowed : List OrgRole)
    (w w' : World N) (r : ApprovalAuthzResult)
    → authorize_approval host step_run_id user_id allowed w ≡ (ok r, w')
    → (c : ApprovalChain N) × IsChain step_run_id user_id w.db c
      × IsPermitted allowed c r
      × (w'.db ≡ w.db)
unfolding authorize_approval
authorize_approval-IsPermitted {N} host step_run_id user_id allowed w w' r h =
    elim (Bool-cases (is_uuid step_run_id)) [
      | inl valid ↦
          (Ensures-and_then {A = Option (ApprovalChain N)}
              {P = λ c w1.
                ((a : ApprovalChain N) → c ≡ some a → IsChain step_run_id user_id w.db a)
                × (w1.db ≡ w.db)}
              {Q = λ r w'.
                (c : ApprovalChain N) × IsChain step_run_id user_id w.db c
                × IsPermitted allowed c r
                × (w'.db ≡ w.db)}
              _ _ (asked host step_run_id user_id w)
              λ c w1 (chained, same). record {
                holds = λ r w' e.
                    let (a, found, permitted, kept) =
                      check_approval_chain-eq-ok allowed c w1 w' r e in
                    (a, chained a found, permitted, cc (same, kept));
              }).holds
            r w' (rw (valid, authorize_approval) at h)
      | inr invalid ↦ let e = (rw (invalid, authorize_approval) at h) in cc
    ]
