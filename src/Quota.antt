-- ===== src/Quota.antt =====
-- Quota reservation (packages/engine/src/core/quota.ts), with the two database functions that it
-- calls (hasura/migrations/default/1786000000000_init_workflow_schema/up.sql). A call of a function
-- is one request; the row lock makes it one step.
pub mod Bounds
use ai_agent_workflow_builde.Common.{
  ⊤, ℕ, ◌+◌, ◌-◌, String, Bool, true, false, Option, none, some, List, [], ◌∷◌, ◌==◌, leb, ltb,
  if◌then◌else◌, find, update_where, get_elem?, get_or_else,
}
use ai_agent_workflow_builde.Domain.{
  Time, authorization_error, invalid_state, not_found, quota_exhausted,
}
use ai_agent_workflow_builde.Host.{Host}
use ai_agent_workflow_builde.Store.{Db, Organization, ReservationRow}
use ai_agent_workflow_builde.Store.Program.{
  Program, pure, throw, handle, now, fresh_ids, request, ◌>>=◌,
}
use Prim.Native.String.{◌++◌}

pub record QuotaReservation : Type 0 where
  pub used : ℕ
  pub limit : ℕ

unfoldable pub is_org : String → Organization → Bool
is_org org_id o = o.id == org_id

-- The monthly window: a row of an earlier month starts afresh.
unfoldable pub in_period : Time → Organization → Organization
in_period month o =
    if ltb o.quota_period_start month
    then record o { quota_used = 0; quota_period_start = month }
    else o

unfoldable pub reserved : Time → Organization → Organization
unfolding in_period
reserved month o =
    let p = in_period month o in
    if leb p.quota_limit p.quota_used then p else record p { quota_used = p.quota_used + 1 }

unfoldable pub released : Organization → Organization
released o = record o { quota_used = o.quota_used - 1 }

abbrev pub decision :
    String → Time → String → Bool → Option String → (used limit : ℕ) → ReservationRow
decision uuid time org_id allowed reason used limit = record {
  id = uuid;
  org_id = org_id;
  allowed = allowed;
  reason = reason;
  quota_used = used;
  quota_limit = limit;
  created_at = time;
}

module _ {N : Type 0} where
  abbrev set_organizations : (List Organization → List Organization) → Db N → Db N
  set_organizations f d = record d { organizations = f d.organizations }

  abbrev log_decision : ReservationRow → Db N → Db N
  log_decision r d = record d { reservations = r ∷ d.reservations }

  -- `reserve_org_quota`, from the row that it has locked: the row after the update is logged.
  unfoldable pub reserve_locked :
      String → Time → Time → String → Organization → Db N → ReservationRow × Db N
  unfolding reserved in_period is_org
  reserve_locked uuid month time org_id o d =
      let p = in_period month o in
      let d1 = set_organizations (update_where (is_org org_id) (reserved month)) d in
      let row =
        if leb p.quota_limit p.quota_used
        then decision uuid time org_id false (some "quota_exhausted") p.quota_used p.quota_limit
        else decision uuid time org_id true none (p.quota_used + 1) p.quota_limit in
      (row, log_decision row d1)

  -- `reserve_org_quota`
  unfoldable pub reserve_org_quota :
      String → Time → Time → String → Db N → List ReservationRow × Db N
  unfolding reserve_locked is_org
  reserve_org_quota uuid month time org_id d = elim (find (is_org org_id) d.organizations) [
    | none ↦ (decision uuid time org_id false (some "organization_not_found") 0 0 ∷ [], d)
    | some o ↦ let (row, d1) = reserve_locked uuid month time org_id o d in (row ∷ [], d1)
  ]

  -- `release_org_quota`
  unfoldable pub release_org_quota : String → Time → String → Db N → List ReservationRow × Db N
  unfolding released is_org
  release_org_quota uuid time org_id d = elim (find (is_org org_id) d.organizations) [
    | none ↦ ([], d)
    | some o ↦
        let p = released o in
        let row = decision uuid time org_id false (some "refund") p.quota_used p.quota_limit in
        (row ∷ [], log_decision row (set_organizations (update_where (is_org org_id) released) d))
  ]

module _ {N : Type 0} (host : Host N) where
  exhausted_message : (used limit : ℕ) → String
  exhausted_message used limit =
      "Execution quota exhausted for this organization ("
      ++ (host.show (host.of_ℕ used)
          ++ ("/" ++ (host.show (host.of_ℕ limit) ++ " used this period).")))

  -- What `reserveQuota` makes of the first row of the answer.
  unfoldable pub reservation_of : Option ReservationRow → Program N QuotaReservation
  unfolding exhausted_message
  reservation_of none =
      throw (authorization_error "Quota reservation returned no result." invalid_state)
  reservation_of (some row) =
      if row.allowed
      then pure (record { used = row.quota_used; limit = row.quota_limit })
      else if get_or_else row.reason "" == "organization_not_found"
      then throw (authorization_error "Organization not found." not_found)
      else throw
          (authorization_error (exhausted_message row.quota_used row.quota_limit) quota_exhausted)

  -- `reserveQuota`
  unfoldable pub reserve_quota : String → Program N QuotaReservation
  unfolding reservation_of reserve_org_quota
  reserve_quota org_id = do
    time ← now host
    uuid ← fresh_ids host
    rows ← request host λ d. some (reserve_org_quota (uuid 0) (host.month_start time) time org_id d)
    reservation_of (get_elem? rows 0)

  -- `releaseQuota`: a failed refund is only logged.
  unfoldable pub release_quota : String → Program N ⊤
  unfolding release_org_quota
  release_quota org_id =
      handle
        (do
          time ← now host
          uuid ← fresh_ids host
          request host λ d. some (release_org_quota (uuid 0) time org_id d))
        (λ e. pure tt) λ rows. pure tt
