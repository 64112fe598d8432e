-- ===== src/Runs/Halting.antt =====
-- Creating a run comes to an end.
use ai_agent_workflow_builde.Common.{
  String, ◌==◌, Option, none, some, inl, inr, Bool-cases, get_or_else, get_elem?,
}
use ai_agent_workflow_builde.Domain.{WorkflowRunRow}
use ai_agent_workflow_builde.Host.{Host}
use ai_agent_workflow_builde.Store.{ReservationRow}
use ai_agent_workflow_builde.Store.Ends.{Halts, and_then-Halts, settle-Halts, request-Halts}
use ai_agent_workflow_builde.Quota.{QuotaReservation, reservation_of, reserve_quota, release_quota}
use ai_agent_workflow_builde.Runs.{RunParams, created_of, insert_created, create_run_with_quota}

module _ {N : Type 0} (host : Host N) where
  reservation_of-Halts : (row : Option ReservationRow) → Halts (reservation_of host row)
  unfolding reservation_of
  reservation_of-Halts none w = λ e. cc
  reservation_of-Halts (some row) w = elim (Bool-cases row.allowed) [
    | inl allowed ↦ rw (allowed, reservation_of) (λ e. cc)
    | inr denied ↦ elim (Bool-cases (get_or_else row.reason "" == "organization_not_found")) [
      | inl missing ↦ rw (denied, missing, reservation_of) (λ e. cc)
      | inr full ↦ rw (denied, full, reservation_of) (λ e. cc)
    ]
  ]

  reserve_quota-Halts : (org_id : String) → Halts (reserve_quota host org_id)
  unfolding reserve_quota
  reserve_quota-Halts org_id w =
      and_then-Halts _ _ (request-Halts host _ w) (λ rows. reservation_of-Halts (get_elem? rows 0))

  release_quota-Halts : (org_id : String) → Halts (release_quota host org_id)
  unfolding release_quota
  release_quota-Halts org_id w =
      settle-Halts _ _ _ (request-Halts host _ w) (λ e v. λ x. cc) (λ rows v. λ x. cc)

  created_of-Halts :
      (quota : QuotaReservation) (row : Option (WorkflowRunRow N))
      → Halts (created_of host quota row)
  unfolding created_of
  created_of-Halts quota none w = λ e. cc
  created_of-Halts quota (some row) w = λ e. cc

  insert_created-Halts :
      (p : RunParams N) (quota : QuotaReservation) → Halts (insert_created host p quota)
  unfolding insert_created
  insert_created-Halts p quota w =
      and_then-Halts _ _ (request-Halts host _ w) (created_of-Halts quota)

  pub create_run_with_quota-Halts : (p : RunParams N) → Halts (create_run_with_quota host p)
  unfolding create_run_with_quota
  create_run_with_quota-Halts p w = and_then-Halts _ _ (reserve_quota-Halts p.org_id w) (λ quota v.
      settle-Halts _ _ _ (insert_created-Halts p quota v)
        (λ e u. and_then-Halts _ _ (release_quota-Halts p.org_id u) (λ t x. λ y. cc))
        (λ created u. λ x. cc))
