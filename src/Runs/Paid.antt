-- ===== src/Runs/Paid.antt =====
-- What a call of `createRunWithQuota` has done to the tables, however it ended.
use ai_agent_workflow_builde.Common.{
  ⊤, ◌≢◌, ◌+◌, String, true, false, ◌≡◌, refl, ap, sym, subst, ◌∙◌, ◌==◌, Option, none, some, List,
  ◌∷◌, find, arith, inl, inr, Bool-cases, Option-cases, get_elem?, update_where, leb,
}
use ai_agent_workflow_builde.Domain.{WorkflowRunRow, Thrown, Time}
use ai_agent_workflow_builde.Host.{Host}
use ai_agent_workflow_builde.Store.{WorkflowRow, Db, World, Organization, ReservationRow}
use ai_agent_workflow_builde.Store.Program.{
  Result, ok, err, out_of_fuel, throw, and_then, settle, pure, and_then-eq-ok, ◌>>◌,
}
use ai_agent_workflow_builde.Store.Keeps.{request-eq-ok}
use ai_agent_workflow_builde.Quota.{
  QuotaReservation, is_org, in_period, reserved, reserve_org_quota, reserve_locked, reservation_of,
  reserve_quota, release_quota,
}
use ai_agent_workflow_builde.Runs.{
  RunParams, CreatedRun, new_run, insert_run, created_of, insert_created, create_run_with_quota,
}

in_period-limit :
    (month : Time) (o : Organization) → (in_period month o).quota_limit ≡ o.quota_limit
unfolding in_period
in_period-limit month o = ground arith

module _ {N : Type 0} where
  -- A reservation that was granted: the organization had quota left, and its row has been updated.
  pub record IsGranted (org_id : String) (month : Time) (d d' : Db N) (q : QuotaReservation)
      : Type 0 where
    pub organization : Organization
    pub found : find (is_org org_id) d.organizations ≡ some organization
    pub had_quota :
        leb (in_period month organization).quota_limit (in_period month organization).quota_used
        ≡ false
    pub used : q.used ≡ (in_period month organization).quota_used + 1
    pub limit : q.limit ≡ organization.quota_limit
    pub updated : d'.organizations ≡ update_where (is_org org_id) (reserved month) d.organizations
    pub same_engine : d'.engine ≡ d.engine

  allowed_row :
      (host : Host N) (row : Option ReservationRow) (w w' : World N) (q : QuotaReservation)
      → reservation_of host row w ≡ (ok q, w')
      → (r : ReservationRow) × (row ≡ some r)
        × (r.allowed ≡ true)
        × (q.used ≡ r.quota_used)
        × (q.limit ≡ r.quota_limit)
        × (w' ≡ w)
  unfolding reservation_of
  allowed_row host none w w' q h = cc
  allowed_row host (some row) w w' q h = elim (Bool-cases row.allowed) [
    | inl allowed ↦ let e = (rw allowed at h) in (row, refl, allowed, cc, cc, cc)
    | inr denied ↦ let e = (rw denied at h) in ground arith
  ]

  reserve-IsGranted :
      (uuid org_id : String) (month time : Time) (d : Db N) (r : ReservationRow)
      (q : QuotaReservation)
      → get_elem? (reserve_org_quota uuid month time org_id d).0 0 ≡ some r
      → r.allowed ≡ true
      → q.used ≡ r.quota_used
      → q.limit ≡ r.quota_limit
      → IsGranted org_id month d (reserve_org_quota uuid month time org_id d).1 q
  unfolding reserve_org_quota reserve_locked
  reserve-IsGranted uuid org_id month time d r q h allowed used limit =
      elim (Option-cases (find (is_org org_id) d.organizations)) [
        | inl missing ↦ let e = (rw (missing, reserve_org_quota) at h) in cc
        | inr (o, found) ↦
            let h1 = (rw (found, reserve_org_quota) at h) in
            elim (Bool-cases (leb (in_period month o).quota_limit (in_period month o).quota_used)) [
              | inl full ↦ let e = (rw full at h1) in cc
              | inr left ↦
                  let e = (rw left at h1) in
                  rw (found, reserve_org_quota)
                    (record {
                      organization = o;
                      found = found;
                      had_quota = left;
                      used = cc;
                      limit = cc (in_period-limit month o);
                      updated = refl;
                      same_engine = refl;
                    })
            ]
      ]

module _ {N : Type 0} (host : Host N) (p : RunParams N) where
  answer-parts :
      (answer : List ReservationRow × Db N) (rows : List ReservationRow) (r : ReservationRow)
      (w1 w' : World N)
      → Path (Option (List ReservationRow × Db N)) (some answer) (some (rows, w1.db))
      → get_elem? rows 0 ≡ some r
      → w' ≡ w1
      → (answer.1 ≡ w'.db) × (get_elem? answer.0 0 ≡ some r)
  answer-parts answer rows r w1 w' e h same =
      let a : answer ≡ (rows, w1.db) = cc in
      (
        ap (λ x. x.1) a ∙ sym (ap (λ x. x.db) same),
        ap (λ (x : List ReservationRow × Db N). get_elem? x.0 0) a ∙ h,
      )

  reserve_quota-IsGranted :
      (w w' : World N) (q : QuotaReservation)
      → reserve_quota host p.org_id w ≡ (ok q, w')
      → IsGranted p.org_id (host.month_start (host.time w.tick)) w.db w'.db q
  unfolding reserve_quota
  reserve_quota-IsGranted w w' q h =
      let (rows, w1, asked, judged) = and_then-eq-ok _ _ h in
      let (r, first_row, allowed, used, limit, same) =
        allowed_row host (get_elem? rows 0) w1 w' q judged in
      let e = request-eq-ok host _ w asked in
      let month = host.month_start (host.time w.tick) in
      let answer = reserve_org_quota (host.uuid w.tick 0) month (host.time w.tick) p.org_id w.db in
      let (same_db, its_row) = answer-parts answer rows r w1 w' e first_row same in
      subst (λ d. IsGranted p.org_id month w.db d q) same_db
        (reserve-IsGranted (host.uuid w.tick 0) p.org_id month (host.time w.tick) w.db r q its_row
          allowed used limit)

  -- The row that the insertion adds.
  pub record IsInserted (d d' : Db N) (q : QuotaReservation) (c : CreatedRun) : Type 0 where
    pub workflow : WorkflowRow
    pub uuid : String
    pub time : Time
    pub has_workflow : find (λ w. w.id == p.workflow_id) d.engine.workflows ≡ some workflow
    pub has_run : d'.engine.runs ≡ new_run uuid time workflow p ∷ d.engine.runs
    pub same_step_runs : d'.engine.step_runs ≡ d.engine.step_runs
    pub same_organizations : d'.organizations ≡ d.organizations
    pub names_run : c.run_id ≡ uuid
    pub names_org : c.org_id ≡ workflow.org_id
    pub same_quota : c.quota ≡ q

  insert_run-IsInserted :
      (uuid : String) (time : Time) (d d' : Db N) (row : WorkflowRunRow N) (q : QuotaReservation)
      (c : CreatedRun)
      → insert_run uuid time p d ≡ some (some row, d')
      → c.run_id ≡ row.id
      → c.org_id ≡ row.org_id
      → c.quota ≡ q
      → IsInserted d d' q c
  unfolding insert_run new_run
  insert_run-IsInserted uuid time d d' row q c h id org quota =
      elim (Option-cases (find (λ w. w.id == p.workflow_id) d.engine.workflows)) [
        | inl missing ↦ let e = (rw (missing, insert_run) at h) in cc
        | inr (wf, found) ↦
            let e = (rw (found, insert_run) at h) in
            record {
              workflow = wf;
              uuid = uuid;
              time = time;
              has_workflow = found;
              has_run = cc;
              same_step_runs = cc;
              same_organizations = cc;
              names_run = cc;
              names_org = cc;
              same_quota = quota;
            }
      ]

  created_of-eq-ok :
      (q : QuotaReservation) (row : Option (WorkflowRunRow N)) (w w' : World N) (c : CreatedRun)
      → created_of host q row w ≡ (ok c, w')
      → (r : WorkflowRunRow N) × (row ≡ some r)
        × (c.run_id ≡ r.id)
        × (c.org_id ≡ r.org_id)
        × (c.quota ≡ q)
        × (w' ≡ w)
  unfolding created_of
  created_of-eq-ok q none w w' c h = cc
  created_of-eq-ok q (some r) w w' c h = (r, refl, cc, cc, cc, cc)

  row-parts :
      (answer : Option (Option (WorkflowRunRow N) × Db N)) (row : Option (WorkflowRunRow N))
      (r : WorkflowRunRow N) (w1 w' : World N)
      → answer ≡ some (row, w1.db)
      → row ≡ some r
      → w' ≡ w1
      → answer ≡ some (some r, w'.db)
  row-parts answer row r w1 w' e some_row same = e ∙ (λ i. some (some_row i, (sym same i).db))

  insert_created-IsInserted :
      (q : QuotaReservation) (w w' : World N) (c : CreatedRun)
      → insert_created host p q w ≡ (ok c, w')
      → IsInserted w.db w'.db q c
  unfolding insert_created
  insert_created-IsInserted q w w' c h =
      let (row, w1, asked, judged) = and_then-eq-ok _ _ h in
      let (r, some_row, id, org, quota, same) = created_of-eq-ok q row w1 w' c judged in
      let e = request-eq-ok host _ w asked in
      insert_run-IsInserted (host.uuid w.tick 0) (host.time w.tick) w.db w'.db r q c
        (row-parts (insert_run (host.uuid w.tick 0) (host.time w.tick) p w.db) row r w1 w' e
          some_row same)
        id org quota

  throws :
      (x : Result ⊤ × World N) (t : Thrown) (c : CreatedRun) (w' : World N)
      → and_then x (λ _. throw t) ≢ (ok c, w')
  throws (ok a, w) t c w' h = cc
  throws (err e, w) t c w' h = cc
  throws (out_of_fuel, w) t c w' h = cc

  -- After the refund `createRunWithQuota` throws on.
  rethrown :
      (x : Result CreatedRun × World N) (w' : World N) (c : CreatedRun)
      → settle x (λ e. release_quota host p.org_id >> throw e) pure ≡ (ok c, w')
      → x ≡ (ok c, w')
  rethrown (ok a, w) w' c h = h
  rethrown (err e, w) w' c h = absurd (throws (release_quota host p.org_id w) e c w' h)
  rethrown (out_of_fuel, w) w' c h = cc

-- If `createRunWithQuota` returns, a reservation was granted (the organization had quota left in its
-- month, and one more unit of it is now used), exactly one run has been added, with the state
-- pending, the workflow and the input asked for, and the organization that owns that workflow, and
-- the result names that run, that organization and that reservation.
pub create_run-paid :
    {N : Type 0} (host : Host N) (p : RunParams N) (w w' : World N) (c : CreatedRun)
    → create_run_with_quota host p w ≡ (ok c, w')
    → (d : Db N) × IsGranted p.org_id (host.month_start (host.time w.tick)) w.db d c.quota
      × IsInserted host p d w'.db c.quota c
unfolding create_run_with_quota
create_run-paid host p w w' c h =
    let (q, w1, reserved_q, rest) = and_then-eq-ok _ _ h in
    let inserted =
      insert_created-IsInserted host p q w1 w' c
        (rethrown host p (insert_created host p q w1) w' c rest) in
    let granted = reserve_quota-IsGranted host p w w1 q reserved_q in
    let same = inserted.same_quota in
    (
      w1.db,
      subst (λ x. IsGranted p.org_id (host.month_start (host.time w.tick)) w.db w1.db x) (sym same)
          granted,
      subst (λ x. IsInserted host p w1.db w'.db x c) (sym same) inserted,
    )
