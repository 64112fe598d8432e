-- ===== src/Approval/Winner.antt =====
-- Of the approvals of a gate one wins, and only the winner resumes the run.
use ai_agent_workflow_builde.Common.{
  ℕ, String, Bool, true, ◌≡◌, ◌≢◌, refl, ap, some, List, [], ◌∷◌, arith, inl, inr, Bool-cases, keep,
  update_where, count_where,
}
use ai_agent_workflow_builde.Domain.{StepRunRow, Time}
use ai_agent_workflow_builde.Host.{Host, Delivery, answered, refused, lost}
use ai_agent_workflow_builde.Store.{Db, World, EngineTables}
use ai_agent_workflow_builde.Store.Program.{ok, Program, and_then, deliver, request}
use ai_agent_workflow_builde.Executors.{Executors}
use ai_agent_workflow_builde.Approval.{
  ApprovalResult, ClaimedRows, approvable, approve_row, claim_approval_rows, claim_approval,
  won_row, claim_gate, approve_and_resume,
}

module _ {N : Type 0} where
  -- No row that the claim's condition takes.
  abbrev pub IsConsumed : String → EngineTables N → Type 0
  IsConsumed step_run_id e = count_where (approvable step_run_id) e.step_runs ≡ 0

  abbrev pub nothing_claimed : ClaimedRows N
  nothing_claimed = record { affected_rows = 0; returning = [] }

  approved_rows :
      (step_run_id user_id : String) (time : Time) (rows : List (StepRunRow N))
      → count_where
          (approvable step_run_id)
          (update_where (approvable step_run_id) (approve_row user_id time) rows)
        ≡ 0
  unfolding approvable approve_row
  approved_rows step_run_id user_id time [] = refl
  approved_rows step_run_id user_id time (r ∷ rs) =
      ground (arith, approved_rows step_run_id user_id time rs)

  nothing_kept :
      (p : StepRunRow N → Bool) (rows : List (StepRunRow N))
      → count_where p rows ≡ 0
      → keep p rows ≡ []
  nothing_kept p [] h = refl
  nothing_kept p (r ∷ rs) h = elim (Bool-cases (p r)) [
    | inl hit ↦ absurd (let e = (rw hit at h) in omega arith)
    | inr miss ↦ rw miss (nothing_kept p rs (let e = (rw miss at h) in omega arith))
  ]

  nothing_updated :
      (p : StepRunRow N → Bool) (f : StepRunRow N → StepRunRow N) (rows : List (StepRunRow N))
      → count_where p rows ≡ 0
      → update_where p f rows ≡ rows
  nothing_updated p f [] h = refl
  nothing_updated p f (r ∷ rs) h = elim (Bool-cases (p r)) [
    | inl hit ↦ absurd (let e = (rw hit at h) in omega arith)
    | inr miss ↦
        rw miss (ap (λ xs. r ∷ xs) (nothing_updated p f rs (let e = (rw miss at h) in omega arith)))
  ]

  claim_consumed :
      (step_run_id user_id : String) (time : Time) (e : EngineTables N)
      → IsConsumed step_run_id e
      → claim_approval_rows step_run_id user_id time e ≡ (nothing_claimed, e)
  unfolding claim_approval_rows
  claim_consumed step_run_id user_id time e h =
      let kept = nothing_kept (approvable step_run_id) e.step_runs h in
      let same =
        nothing_updated (approvable step_run_id) (approve_row user_id time) e.step_runs h in
      λ i. (
        record {
          affected_rows = h i;
          returning = update_where (λ r. true) (approve_row user_id time) (kept i);
        },
        record e { step_runs = same i },
      )

-- Of any two claims of the same approval, by whomever and whenever, the second finds no row that it
-- may take, returns none, and changes nothing.
pub claim_approval_once :
    {N : Type 0} (step_run_id user1 user2 : String) (t1 t2 : Time) (e : EngineTables N)
    → claim_approval_rows step_run_id user2 t2 (claim_approval_rows step_run_id user1 t1 e).1
      ≡ (nothing_claimed, (claim_approval_rows step_run_id user1 t1 e).1)
unfolding claim_approval_rows
claim_approval_once step_run_id user1 user2 t1 t2 e =
    claim_consumed step_run_id user2 t2 (claim_approval_rows step_run_id user1 t1 e).1
      (approved_rows step_run_id user1 t1 e.step_runs)

module _ {N A : Type 0} (host : Host N) (next : StepRunRow N → Program N A) where
  -- A claim that finds nothing is the end, whatever becomes of its request.
  lost_claim :
      (delivery : Delivery) (w : World N)
      → ((and_then
            (and_then (deliver host delivery (some (nothing_claimed, w.db)) w) won_row)
            next).1.db
          ≡ w.db)
        × ((a : A) (w' : World N)
            → and_then
                (and_then (deliver host delivery (some (nothing_claimed, w.db)) w) won_row)
                next
              ≢ (ok a, w'))
  unfolding won_row
  lost_claim answered w = (refl, λ a w' h. cc)
  lost_claim refused w = (refl, λ a w' h. cc)
  lost_claim lost w = (refl, λ a w' h. cc)

claim_approval_consumed :
    {N : Type 0} (step_run_id user_id : String) (time : Time) (d : Db N)
    → IsConsumed step_run_id d.engine
    → claim_approval step_run_id user_id time d ≡ some (nothing_claimed, d)
unfolding claim_approval
claim_approval_consumed step_run_id user_id time d h =
    let same = claim_consumed step_run_id user_id time d.engine h in
    λ i. some ((same i).0, record d { engine = (same i).1 })

-- Where the approval has been consumed (or the step run does not wait, or does not exist),
-- `approveAndResume` does not return, and whether its request is answered, refused or lost, no
-- table has changed: the run is not resumed a second time.
pub approve_and_resume-loser :
    {N : Type 0} (host : Host N) (ex : Executors N) (fuel : ℕ) (step_run_id user_id : String)
    (w : World N)
    → IsConsumed step_run_id w.db.engine
    → ((approve_and_resume host ex fuel step_run_id user_id w).1.db ≡ w.db)
      × ((a : ApprovalResult) (w' : World N)
          → approve_and_resume host ex fuel step_run_id user_id w ≢ (ok a, w'))
unfolding approve_and_resume claim_gate request
approve_and_resume-loser host ex fuel step_run_id user_id w h =
    rw
      (
        claim_approval_consumed step_run_id user_id (host.time w.tick) w.db h,
        approve_and_resume,
        claim_gate,
        request,
      )
      (lost_claim host _ (host.delivery w.tick) w)
