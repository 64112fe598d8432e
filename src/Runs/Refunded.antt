-- ===== src/Runs/Refunded.antt =====
-- A run that could not be created costs nothing.
use ai_agent_workflow_builde.Common.{◌+◌, String, false, ◌≡◌, refl, ◌∙◌, some, find, arith, leb}
use ai_agent_workflow_builde.Domain.{Thrown, graphql_error, Time}
use ai_agent_workflow_builde.Host.{Host, answered, refused}
use ai_agent_workflow_builde.Store.{Db, World, Organization}
use ai_agent_workflow_builde.Store.Program.{ok, err, request}
use ai_agent_workflow_builde.Quota.{
  QuotaReservation, is_org, in_period, reserved, released, reserve_org_quota, reserve_locked,
  reservation_of, reserve_quota, release_org_quota, release_quota,
}
use ai_agent_workflow_builde.Quota.Bounds.{find-update_where, reserve-row}
use ai_agent_workflow_builde.Runs.{RunParams, insert_created, create_run_with_quota}

module _ {N : Type 0} (host : Host N) (p : RunParams N) where
  abbrev after_request : World N → Db N → World N
  after_request w d = record w { db = d; tick = w.tick + 1 }

  abbrev reserve_at : World N → Db N
  reserve_at w =
      (reserve_org_quota (host.uuid w.tick 0) (host.month_start (host.time w.tick))
        (host.time w.tick) p.org_id w.db).1

  abbrev release_at : World N → Db N
  release_at w = (release_org_quota (host.uuid w.tick 0) (host.time w.tick) p.org_id w.db).1

  abbrev quota_of : Time → Organization → QuotaReservation
  quota_of month o = record {
    used = (in_period month o).quota_used + 1;
    limit = (in_period month o).quota_limit;
  }

  reserve-granted :
      (w : World N) (o : Organization)
      → host.delivery w.tick ≡ answered
      → find (is_org p.org_id) w.db.organizations ≡ some o
      → leb
          (in_period (host.month_start (host.time w.tick)) o).quota_limit
          (in_period (host.month_start (host.time w.tick)) o).quota_used
        ≡ false
      → reserve_quota host p.org_id w
        ≡ (ok (quota_of (host.month_start (host.time w.tick)) o), after_request w (reserve_at w))
  unfolding reserve_quota request reserve_org_quota reserve_locked reservation_of
  reserve-granted w o sent found left =
      rw (sent, reserve_quota, request, reserve_at)
        (rw (found, reserve_org_quota, reserve_at) (rw left refl))

  insert-refused :
      (w : World N) (q : QuotaReservation)
      → host.delivery w.tick ≡ refused
      → insert_created host p q w
        ≡ (err (graphql_error "GraphQL request to Hasura failed"), after_request w w.db)
  unfolding insert_created request
  insert-refused w q failed = rw (failed, insert_created, request) refl

  release-answered :
      (w : World N)
      → host.delivery w.tick ≡ answered
      → release_quota host p.org_id w ≡ (ok tt, after_request w (release_at w))
  unfolding release_quota request
  release-answered w sent = rw (sent, release_quota, request) refl

  -- The world after the refund.
  abbrev after_refund : World N → World N
  after_refund w =
      let tried = after_request (after_request w (reserve_at w)) (reserve_at w) in
      after_request tried (release_at tried)

  create-refused :
      (w : World N) (o : Organization)
      → host.delivery w.tick ≡ answered
      → host.delivery (w.tick + 1) ≡ refused
      → host.delivery (w.tick + 1 + 1) ≡ answered
      → find (is_org p.org_id) w.db.organizations ≡ some o
      → leb
          (in_period (host.month_start (host.time w.tick)) o).quota_limit
          (in_period (host.month_start (host.time w.tick)) o).quota_used
        ≡ false
      → create_run_with_quota host p w
        ≡ (err (graphql_error "GraphQL request to Hasura failed"), after_refund w)
  unfolding create_run_with_quota
  create-refused w o sent failed sent_again found left =
      let w1 = after_request w (reserve_at w) in
      let w2 = after_request w1 w1.db in
      rw (reserve-granted w o sent found left, create_run_with_quota)
        (rw (insert-refused w1 (quota_of (host.month_start (host.time w.tick)) o) failed)
          (rw (release-answered w2 sent_again) refl))

module _ {N : Type 0} (uuid : String) (time : Time) (org_id : String) (d : Db N) where
  release-row :
      (o : Organization)
      → find (is_org org_id) d.organizations ≡ some o
      → (find (is_org org_id) (release_org_quota uuid time org_id d).1.organizations
          ≡ some (released o))
        × ((release_org_quota uuid time org_id d).1.engine ≡ d.engine)
  unfolding release_org_quota released
  release-row o found =
      rw (found, release_org_quota)
        (find-update_where org_id released d.organizations (λ r. refl) found, refl)

  reserve-engine :
      (month : Time) (o : Organization)
      → find (is_org org_id) d.organizations ≡ some o
      → (reserve_org_quota uuid month time org_id d).1.engine ≡ d.engine
  unfolding reserve_org_quota reserve_locked
  reserve-engine month o found = rw (found, reserve_org_quota) refl

released-reserved :
    (month : Time) (o : Organization)
    → leb (in_period month o).quota_limit (in_period month o).quota_used ≡ false
    → (released (reserved month o)).quota_used ≡ (in_period month o).quota_used
unfolding released reserved
released-reserved month o left = rw left (omega arith)

-- Let the organization have quota left, let the insertion of the run be refused, and let the
-- requests before and after it be answered. Then `createRunWithQuota` throws, no run, step run,
-- workflow or step has changed, and the organization has used as much of its month's quota as before.
pub create_run-refunded :
    {N : Type 0} (host : Host N) (p : RunParams N) (w : World N) (o : Organization)
    → host.delivery w.tick ≡ answered
    → host.delivery (w.tick + 1) ≡ refused
    → host.delivery (w.tick + 1 + 1) ≡ answered
    → find (is_org p.org_id) w.db.organizations ≡ some o
    → leb
        (in_period (host.month_start (host.time w.tick)) o).quota_limit
        (in_period (host.month_start (host.time w.tick)) o).quota_used
      ≡ false
    → (e : Thrown) × (w' : World N) × (r : Organization) × (create_run_with_quota host p w
        ≡ (err e, w'))
      × (w'.db.engine ≡ w.db.engine)
      × (find (is_org p.org_id) w'.db.organizations ≡ some r)
      × (r.quota_used ≡ (in_period (host.month_start (host.time w.tick)) o).quota_used)
create_run-refunded host p w o sent failed sent_again found left =
    let month = host.month_start (host.time w.tick) in
    let kept = reserve-row (host.uuid w.tick 0) month (host.time w.tick) p.org_id w.db o found in
    let same = reserve-engine (host.uuid w.tick 0) (host.time w.tick) p.org_id w.db month o found in
    let t = w.tick + 1 + 1 in
    let (row, engine) =
      release-row (host.uuid t 0) (host.time t) p.org_id (reserve_at host p w) (reserved month o)
        kept in
    (
      graphql_error "GraphQL request to Hasura failed",
      after_refund host p w,
      released (reserved month o),
      create-refused host p w o sent failed sent_again found left,
      engine ∙ same,
      row,
      released-reserved month o left,
    )
