-- ===== src/Quota/Bounds.antt =====
-- What the two database functions promise: an organization never exceeds its limit, and a month's
-- reservations are granted one by one until it is reached.
use mathlib.Core.Option
use ai_agent_workflow_builde.Common.{
  ℕ, suc, ◌+◌, ◌-◌, ◌≤◌, min, String, Bool, true, false, Option, none, some, List, [], ◌∷◌, ◌≡◌, ap,
  ◌==◌, leb, ltb, if◌then◌else◌, find, update_where, get_elem?, length, All, arith, Bool-cases,
  Option-cases, inl, inr,
}
use ai_agent_workflow_builde.Domain.{Time}
use ai_agent_workflow_builde.Store.{Db, Organization, ReservationRow}
use ai_agent_workflow_builde.Quota.{
  is_org, in_period, reserved, released, reserve_locked, reserve_org_quota, release_org_quota,
}

abbrev pub WithinLimit : Organization → Type 0
WithinLimit o = o.quota_used ≤ o.quota_limit

reserved-WithinLimit :
    (month : Time) (o : Organization) → WithinLimit o → WithinLimit (reserved month o)
unfolding reserved in_period
reserved-WithinLimit month o h = ground arith

released-WithinLimit : (o : Organization) → WithinLimit o → WithinLimit (released o)
unfolding released
released-WithinLimit o h = omega arith

update_where-All :
    (p : Organization → Bool) (f : Organization → Organization)
    → ((o : Organization) → WithinLimit o → WithinLimit (f o))
    → (os : List Organization) → All WithinLimit os
    → All WithinLimit (update_where p f os)
update_where-All p f keeps [] h = tt
update_where-All p f keeps (o ∷ os) (h, hs) = elim (Bool-cases (p o)) [
  | inl hit ↦ rw hit (keeps o h, update_where-All p f keeps os hs)
  | inr miss ↦ rw miss (h, update_where-All p f keeps os hs)
]

-- A call of one of the two functions: the organization, the time, and the start of its month.
pub data QuotaCall : Type 0 where
  reserve : (org_id : String) (time month : Time) → QuotaCall
  release : (org_id : String) (time : Time) → QuotaCall

module _ {N : Type 0} where
  abbrev perform : String → QuotaCall → Db N → Db N
  perform uuid (reserve org_id time month) d = (reserve_org_quota uuid month time org_id d).1
  perform uuid (release org_id time) d = (release_org_quota uuid time org_id d).1

  abbrev pub perform_all : (ℕ → String) → ℕ → List QuotaCall → Db N → Db N
  perform_all uuid i [] d = d
  perform_all uuid i (c ∷ cs) d = perform_all uuid (suc i) cs (perform (uuid i) c d)

  abbrev pub IsWithinLimits : Db N → Type 0
  IsWithinLimits d = All WithinLimit d.organizations

  perform-IsWithinLimits :
      (uuid : String) (c : QuotaCall) (d : Db N)
      → IsWithinLimits d
      → IsWithinLimits (perform uuid c d)
  unfolding reserve_org_quota release_org_quota reserve_locked
  perform-IsWithinLimits uuid (reserve org_id time month) d h =
      elim (Option-cases (find (is_org org_id) d.organizations)) [
        | inl missing ↦ rw (missing, perform, reserve_org_quota) h
        | inr (o, found) ↦
            rw (found, perform, reserve_org_quota)
              (update_where-All (is_org org_id) (reserved month) (reserved-WithinLimit month)
                d.organizations h)
      ]
  perform-IsWithinLimits uuid (release org_id time) d h =
      elim (Option-cases (find (is_org org_id) d.organizations)) [
        | inl missing ↦ rw (missing, perform, release_org_quota) h
        | inr (o, found) ↦
            rw (found, perform, release_org_quota)
              (update_where-All (is_org org_id) released released-WithinLimit d.organizations h)
      ]

-- Whatever calls of reserve_org_quota and release_org_quota are made, in whatever order and at
-- whatever times, organizations that are within their limits stay within them.
pub quota_never_exceeded :
    {N : Type 0} (uuid : ℕ → String) (i : ℕ) (calls : List QuotaCall) (d : Db N)
    → IsWithinLimits d
    → IsWithinLimits (perform_all uuid i calls d)
quota_never_exceeded uuid i [] d h = h
quota_never_exceeded uuid i (c ∷ cs) d h =
    quota_never_exceeded uuid (suc i) cs (perform (uuid i) c d)
      (perform-IsWithinLimits (uuid i) c d h)

pub find-update_where :
    (org_id : String) (f : Organization → Organization) (os : List Organization) {o : Organization}
    → ((r : Organization) → (f r).id ≡ r.id)
    → find (is_org org_id) os ≡ some o
    → find (is_org org_id) (update_where (is_org org_id) f os) ≡ some (f o)
unfolding is_org
find-update_where org_id f [] same h = cc
find-update_where org_id f (r ∷ rs) {o} same h = elim (Bool-cases (r.id == org_id)) [
  | inl hit ↦
      let e : ((f r).id == org_id) ≡ true = cc (same r, hit) in
      let found : some r ≡ some o = (rw hit at h) in rw hit (rw e (ap (Option.map f) found))
  | inr miss ↦
      let e : (r.id == org_id) ≡ false = miss in
      rw miss (rw e (find-update_where org_id f rs same (rw miss at h)))
]

pub reserved-id : (month : Time) (o : Organization) → (reserved month o).id ≡ o.id
unfolding reserved in_period
reserved-id month o = ground arith

abbrev granted : Option ReservationRow → ℕ
granted none = 0
granted (some row) = if row.allowed then 1 else 0

-- How many of a sequence of reservations within a month are granted.
abbrev pub granted_count : {N : Type 0} → (ℕ → String) → ℕ → Time → String → List Time → Db N → ℕ
granted_count uuid i month org_id [] d = 0
granted_count uuid i month org_id (t ∷ ts) d =
    let (rows, d1) = reserve_org_quota (uuid i) month t org_id d in
    granted (get_elem? rows 0) + granted_count uuid (suc i) month org_id ts d1

module _ {N : Type 0} (uuid : String) (month time : Time) (org_id : String) (d : Db N) where
  -- One reservation in the organization's current month.
  reserve-granted :
      (o : Organization)
      → find (is_org org_id) d.organizations ≡ some o
      → ltb o.quota_period_start month ≡ false
      → granted (get_elem? (reserve_org_quota uuid month time org_id d).0 0)
        ≡ (if leb o.quota_limit o.quota_used then 0 else 1)
  unfolding reserve_org_quota reserve_locked in_period
  reserve-granted o found current =
      rw (found, reserve_org_quota) (rw (current, in_period) (ground arith))

  pub reserve-row :
      (o : Organization)
      → find (is_org org_id) d.organizations ≡ some o
      → find (is_org org_id) (reserve_org_quota uuid month time org_id d).1.organizations
        ≡ some (reserved month o)
  unfolding reserve_org_quota reserve_locked
  reserve-row o found =
      rw (found, reserve_org_quota)
        (find-update_where org_id (reserved month) d.organizations (reserved-id month) found)

reserved-current :
    (month : Time) (o : Organization)
    → ltb o.quota_period_start month ≡ false
    → (ltb (reserved month o).quota_period_start month ≡ false)
      × ((reserved month o).quota_limit ≡ o.quota_limit)
      × ((reserved month o).quota_used
          ≡ (if leb o.quota_limit o.quota_used then o.quota_used else o.quota_used + 1))
unfolding reserved in_period
reserved-current month o h = rw h (ground arith)

-- Within the organization's current month, n reservations are granted min(n, limit - used) times:
-- each one until the limit is reached, and none after that.
pub granted_count-eq-min :
    {N : Type 0} (uuid : ℕ → String) (i : ℕ) (month : Time) (org_id : String) (times : List Time)
    (d : Db N) (o : Organization)
    → find (is_org org_id) d.organizations ≡ some o
    → ltb o.quota_period_start month ≡ false
    → granted_count uuid i month org_id times d ≡ min (length times) (o.quota_limit - o.quota_used)
granted_count-eq-min uuid i month org_id [] d o found current = omega arith
granted_count-eq-min uuid i month org_id (t ∷ ts) d o found current =
    let now_granted = reserve-granted (uuid i) month t org_id d o found current in
    let next = reserve-row (uuid i) month t org_id d o found in
    let (still, limit, used) = reserved-current month o current in
    let rest =
      granted_count-eq-min uuid (suc i) month org_id ts
        (reserve_org_quota (uuid i) month t org_id d).1 (reserved month o) next still in
    rw now_granted (rw rest (rw limit (rw used (ground arith))))
