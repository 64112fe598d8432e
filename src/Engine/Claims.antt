-- ===== src/Engine/Claims.antt =====
-- Event deliveries are at least once; a run is executed once.
use ai_agent_workflow_builde.Common.{
  ℕ, String, ◌≡◌, refl, ap, false, List, [], ◌∷◌, arith, count_where, update_where, some, Option,
  none, inl, inr, Bool-cases, ◌⊎◌, subst, sym, ◌∙◌,
}
use ai_agent_workflow_builde.Domain.{WorkflowRunRow, RunStatus, Time}
use ai_agent_workflow_builde.Host.{Host}
use ai_agent_workflow_builde.Store.{World, Db, EngineTables}
use ai_agent_workflow_builde.Store.Program.{ok}
use ai_agent_workflow_builde.Store.Keeps.{request-eq-ok}
use ai_agent_workflow_builde.Store.Ensures.{Ensures, Ensures-and_then, Ensures-pure}
use ai_agent_workflow_builde.Executors.{Executors}
use ai_agent_workflow_builde.Tables.{claimable, claim_rows, is_run, find_bundle, RunBundle}
use ai_agent_workflow_builde.Repository.{claim_run_for_execution, load_run_bundle, claim_request}
use ai_agent_workflow_builde.Engine.{start, is_terminal, enter, enter_loaded, execute_run}
use ai_agent_workflow_builde.Engine.Rounds.{ExecutionOutcome, OutcomeStatus}

module _ {N : Type 0} where
  -- No pending row of the run.
  abbrev pub IsClaimed : String → EngineTables N → Type 0
  IsClaimed run_id e = count_where (claimable run_id) e.runs ≡ 0

  claimed_rows :
      (run_id : String) (time : Time) (rows : List (WorkflowRunRow N))
      → count_where (claimable run_id) (
          update_where
            (claimable run_id)
            (λ r. record r { status = RunStatus.running; started_at = some time })
            rows)
        ≡ 0
  unfolding claimable is_run
  claimed_rows run_id time [] = refl
  claimed_rows run_id time (r ∷ rs) = ground (arith, claimed_rows run_id time rs)

  no_rows_updated :
      (run_id : String) (f : WorkflowRunRow N → WorkflowRunRow N) (rows : List (WorkflowRunRow N))
      → count_where (claimable run_id) rows ≡ 0
      → update_where (claimable run_id) f rows ≡ rows
  no_rows_updated run_id f [] h = refl
  no_rows_updated run_id f (r ∷ rs) h = elim (Bool-cases (claimable run_id r)) [
    | inl pending ↦ absurd (let e = (rw pending at h) in omega arith)
    | inr other ↦
        rw other
          (ap (λ xs. r ∷ xs) (no_rows_updated run_id f rs (let e = (rw other at h) in omega arith)))
  ]

  claim_rows_again :
      (run_id : String) (time : Time) (e : EngineTables N)
      → IsClaimed run_id e
      → claim_rows run_id time e ≡ (0, e)
  unfolding claim_rows
  claim_rows_again run_id time e h =
      let same = no_rows_updated run_id _ e.runs h in λ i. (h i, record e { runs = same i })

  find_bundle-db :
      (run_id : String) (d : Db N) (b : Option (RunBundle N)) (d' : Db N)
      → find_bundle run_id d ≡ some (b, d')
      → d' ≡ d
  unfolding find_bundle
  find_bundle-db run_id d b d' h = grind arith

-- However often a run is claimed, one claim wins: after a claim no row of the run is pending, and
-- a claim of a run that has no pending row changes no row and reports 0 affected rows.
pub claim_rows_once :
    {N : Type 0} (run_id : String) (t1 t2 : Time) (e : EngineTables N)
    → claim_rows run_id t2 (claim_rows run_id t1 e).1 ≡ (0, (claim_rows run_id t1 e).1)
unfolding claim_rows
claim_rows_once run_id t1 t2 e =
    claim_rows_again run_id t2 (claim_rows run_id t1 e).1 (claimed_rows run_id t1 e.runs)

module _ {N : Type 0} (host : Host N) (ex : Executors N) (fuel : ℕ) (run_id : String) where
  claim_request_again :
      (time : Time) (d : Db N)
      → IsClaimed run_id d.engine
      → claim_request run_id time d ≡ some (0, d)
  unfolding claim_request
  claim_request_again time d h =
      let same = claim_rows_again run_id time d.engine h in
      λ i. some ((same i).0, record d { engine = (same i).1 })

  claim-Ensures :
      (w : World N)
      → IsClaimed run_id w.db.engine
      → Ensures (λ b w'. (b ≡ false) × (w'.db ≡ w.db)) (claim_run_for_execution host run_id w)
  unfolding claim_run_for_execution
  claim-Ensures w h =
      Ensures-and_then {A = ℕ} {P = λ n w1. (n ≡ 0) × (w1.db ≡ w.db)} _ _
        (record {
          holds = λ n w1 e.
              let q = request-eq-ok host (claim_request run_id (host.time w.tick)) w e in
              let same = claim_request_again (host.time w.tick) w.db h in (cc, cc);
        })
        λ n w1 (zero_rows, same). Ensures-pure _ w1 (ground arith, same)

  enter-Ensures :
      (bundle : RunBundle N) (w : World N)
      → IsClaimed run_id w.db.engine
      → Ensures
          (λ o w'.
            (o.status ≡ OutcomeStatus.skipped_already_running)
            × (o.executed_steps ≡ 0)
            × (w'.db ≡ w.db))
          (enter host ex fuel run_id start bundle w)
  unfolding enter
  enter-Ensures bundle w h =
      Ensures-and_then _ _ (claim-Ensures w h)
        λ claimed w1 (lost, same). rw lost (Ensures-pure _ w1 (refl, refl, same))

  load-Ensures : (w : World N) → Ensures (λ b w'. w'.db ≡ w.db) (load_run_bundle host run_id w)
  unfolding load_run_bundle
  load-Ensures w = record {
    holds = λ b w' e. find_bundle-db run_id w.db b w'.db (request-eq-ok host _ w e);
  }

  -- A delivery for a run that is not pending executes nothing and changes nothing.
  abbrev pub IsIgnored : World N → ExecutionOutcome → World N → Type 0
  IsIgnored w o w' =
      ((o.status ≡ OutcomeStatus.noop) ⊎ (o.status ≡ OutcomeStatus.skipped_already_running))
      × (o.executed_steps ≡ 0)
      × (w'.db ≡ w.db)

  enter_loaded-Ensures :
      (loaded : Option (RunBundle N)) (w w1 : World N)
      → IsClaimed run_id w.db.engine
      → w1.db ≡ w.db
      → Ensures (λ o w'. IsIgnored w o w') (enter_loaded host ex fuel run_id start loaded w1)
  unfolding enter_loaded
  enter_loaded-Ensures none w w1 h same = Ensures-pure _ w1 (inl refl, refl, same)
  enter_loaded-Ensures (some bundle) w w1 h same =
      elim (Bool-cases (is_terminal bundle.run.status)) [
        | inl over ↦ rw over (Ensures-pure _ w1 (inl refl, refl, same))
        | inr live ↦ rw live (record {
          holds = λ o w' e.
              let (skipped, none_run, kept) =
                (enter-Ensures bundle w1
                    (subst (λ (d : Db N). IsClaimed run_id d.engine) (sym same) h)).holds
                  o w' e in
              (inr skipped, none_run, kept ∙ same);
        })
      ]

  execute_claimed :
      (w : World N) (o : ExecutionOutcome) (w' : World N)
      → IsClaimed run_id w.db.engine
      → execute_run host ex fuel run_id start w ≡ (ok o, w')
      → IsIgnored w o w'
  unfolding execute_run
  execute_claimed w o w' h e =
      (Ensures-and_then _ _ (load-Ensures w)
          λ loaded w1 same. enter_loaded-Ensures loaded w w1 h same).holds
        o w' e

-- A delivery of the event for a run that has no pending row (one that was claimed before, that is
-- over, or that does not exist): if `executeRun` returns in mode start, its outcome is noop or
-- skipped_already_running, it executed no step, and the database is as it was.
pub execute_run_redelivered :
    {N : Type 0} (host : Host N) (ex : Executors N) (fuel : ℕ) (run_id : String) (w : World N)
    (o : ExecutionOutcome) (w' : World N)
    → IsClaimed run_id w.db.engine
    → execute_run host ex fuel run_id start w ≡ (ok o, w')
    → IsIgnored host ex fuel run_id w o w'
execute_run_redelivered host ex fuel run_id w o w' h e =
    execute_claimed host ex fuel run_id w o w' h e
