-- ===== src/Engine/Accounts.antt =====
-- How each kind of round accounts for the rows of its run.
use ai_agent_workflow_builde.Common.{
  ℕ, ◌<◌, String, ◌≡◌, refl, ◌⊎◌, ◌∙◌, ap, Option, some, List, length, update_where, get_or_else,
}
use ai_agent_workflow_builde.Domain.{
  WorkflowStepRow, WorkflowRunRow, StepRunRow, StepRunStatus, RunStatus,
}
use ai_agent_workflow_builde.Host.{Host}
use ai_agent_workflow_builde.Store.{Db, World}
use ai_agent_workflow_builde.Store.Program.{ok}
use ai_agent_workflow_builde.Tables.{
  StepRunPatch, apply_patch, new_step_run, update_run_row, is_run,
}
use ai_agent_workflow_builde.Tables.Laws.{row_of, row_of-upsert_self}
use ai_agent_workflow_builde.Repository.{
  upsert_step_run, update_run, mark_run_paused, mark_run_failed, mark_run_completed,
}
use ai_agent_workflow_builde.Repository.Laws.{
  OnlyStep, upsert_step_run-Keeps, upsert_step_run-eq-ok, update_run-eq-ok,
}
use ai_agent_workflow_builde.Engine.Rounds.{OutcomeStatus, Round, stop, finish, continue_at}
use ai_agent_workflow_builde.Engine.Progress.{IsDone, IsAbsent, Progress, StoppedAt}
use ai_agent_workflow_builde.Domain.{Time}
use ai_agent_workflow_builde.Store.Ensures.{Ensures}
use ai_agent_workflow_builde.Tables.{skip_rows}
use ai_agent_workflow_builde.Repository.{mark_steps_skipped}
use ai_agent_workflow_builde.Repository.Laws.{mark_steps_skipped-eq-ok}

-- The run's row was written last, and has the status now; its key stays.
pub record RunSet {N : Type 0} (run_id : String) (status : RunStatus) (d d' : Db N) : Type 0 where
  pub set : WorkflowRunRow N → WorkflowRunRow N
  pub written : d'.engine.runs ≡ update_where (is_run run_id) set d.engine.runs
  pub sets_status : (r : WorkflowRunRow N) → (set r).status ≡ status
  pub keeps_id : (r : WorkflowRunRow N) → (set r).id ≡ r.id

-- A step after the one that failed was skipped, or was never recorded.
abbrev pub IsUnreached : {N : Type 0} → Option (StepRunRow N) → Type 0
IsUnreached o = IsAbsent o ⊎ IsDone o

module _ {N : Type 0} (run_id : String) (steps : List (WorkflowStepRow N)) where
  -- The run paused at a step, or failed at one.
  abbrev pub Stopped : OutcomeStatus → Db N → Db N → Type 0
  Stopped OutcomeStatus.paused d d' =
      ((k : ℕ) × StoppedAt run_id steps StepRunStatus.paused IsAbsent k d'.engine.step_runs)
      × RunSet run_id RunStatus.paused d d'
  Stopped OutcomeStatus.failed d d' =
      ((k : ℕ) × StoppedAt run_id steps StepRunStatus.failed IsUnreached k d'.engine.step_runs)
      × RunSet run_id RunStatus.failed d d'
  Stopped _ d d' = ⊥

  -- What a round that began at index `i` on the database `d` has done.
  abbrev pub Accounts : ℕ → Db N → Round N → Db N → Type 0
  Accounts i d (stop o) d' = Stopped o.status d d'
  Accounts i d (finish executed) d' =
      Progress run_id steps (length steps) d'.engine.step_runs × (d'.engine.runs ≡ d.engine.runs)
  Accounts i d (continue_at j executed ctx) d' =
      (i < j) × Progress run_id steps j d'.engine.step_runs × (d'.engine.runs ≡ d.engine.runs)

module _ {N : Type 0} (host : Host N) where
  -- An upsert that was answered: the step's row has the patch, and nothing else has changed.
  pub record Upserted (run_id step_id : String) (p : StepRunPatch N) (d d' : Db N) : Type 0 where
    pub old : StepRunRow N
    pub row_at : row_of run_id step_id d'.engine.step_runs ≡ some (apply_patch p old)
    pub only : OnlyStep run_id step_id d d'

  pub upsert_step_run-Upserted :
      (run_id step_id : String) (p : StepRunPatch N) (w : World N) {r : StepRunRow N} {w' : World N}
      → upsert_step_run host run_id step_id p w ≡ (ok r, w')
      → Upserted run_id step_id p w.db w'.db
  upsert_step_run-Upserted run_id step_id p w {w'} h = record {
    old =
        get_or_else (row_of run_id step_id w.db.engine.step_runs)
          (new_step_run (host.uuid w.tick 0) run_id step_id);
    row_at =
        ap (λ (d : Db N). row_of run_id step_id d.engine.step_runs)
          (upsert_step_run-eq-ok host run_id step_id p w h)
        ∙ row_of-upsert_self (host.uuid w.tick 0) run_id step_id p w.db.engine.step_runs;
    only =
        let e : (upsert_step_run host run_id step_id p w).1 ≡ w' = ap (λ q. q.1) h in
        rw (← e) (upsert_step_run-Keeps host run_id step_id p w);
  }

  -- The requests that set the run's status leave step_runs alone.
  abbrev pub RunOnly : String → RunStatus → Db N → Db N → Type 0
  RunOnly run_id status d d' =
      RunSet run_id status d d' × (d'.engine.step_runs ≡ d.engine.step_runs)

  update_run-RunOnly :
      (run_id : String) (status : RunStatus) (set : WorkflowRunRow N → WorkflowRunRow N)
      (w : World N) {w' : World N}
      → update_run host run_id set w ≡ (ok tt, w')
      → ((r : WorkflowRunRow N) → ((set r).status ≡ status) × ((set r).id ≡ r.id))
      → RunOnly run_id status w.db w'.db
  unfolding update_run_row
  update_run-RunOnly run_id status set w h sets =
      let e = update_run-eq-ok host run_id set w h in
      (
        record {
          set = set;
          written = ap (λ (d : Db N). d.engine.runs) e;
          sets_status = λ r. (sets r).0;
          keeps_id = λ r. (sets r).1;
        },
        ap (λ (d : Db N). d.engine.step_runs) e,
      )

  mark_run_paused-eq-ok :
      (run_id : String) (position : ℕ) (w : World N) {w' : World N}
      → mark_run_paused host run_id position w ≡ (ok tt, w')
      → RunOnly run_id RunStatus.paused w.db w'.db
  unfolding mark_run_paused
  mark_run_paused-eq-ok run_id position w h =
      update_run-RunOnly run_id RunStatus.paused _ w h (λ r. (refl, refl))

  mark_run_failed-eq-ok :
      (run_id message : String) (w : World N) {w' : World N}
      → mark_run_failed host run_id message w ≡ (ok tt, w')
      → RunOnly run_id RunStatus.failed w.db w'.db
  unfolding mark_run_failed
  mark_run_failed-eq-ok run_id message w h =
      update_run-RunOnly run_id RunStatus.failed _ w h (λ r. (refl, refl))

  mark_run_completed-eq-ok :
      (run_id : String) (w : World N) {w' : World N}
      → mark_run_completed host run_id w ≡ (ok tt, w')
      → RunOnly run_id RunStatus.completed w.db w'.db
  unfolding mark_run_completed
  mark_run_completed-eq-ok run_id w h =
      update_run-RunOnly run_id RunStatus.completed _ w h (λ r. (refl, refl))

  -- The same facts, as rules for programs.
  pub upsert_step_run-Ensures :
      (run_id step_id : String) (p : StepRunPatch N) (w : World N)
      → Ensures
          (λ _ w'. Upserted run_id step_id p w.db w'.db)
          (upsert_step_run host run_id step_id p w)
  upsert_step_run-Ensures run_id step_id p w = record {
    holds = λ r w' e. upsert_step_run-Upserted run_id step_id p w e;
  }

  pub mark_run_failed-Ensures :
      (run_id message : String) (w : World N)
      → Ensures
          (λ _ w'. RunOnly run_id RunStatus.failed w.db w'.db)
          (mark_run_failed host run_id message w)
  mark_run_failed-Ensures run_id message w = record {
    holds = λ _ w' e. mark_run_failed-eq-ok run_id message w e;
  }

  pub mark_run_paused-Ensures :
      (run_id : String) (position : ℕ) (w : World N)
      → Ensures
          (λ _ w'. RunOnly run_id RunStatus.paused w.db w'.db)
          (mark_run_paused host run_id position w)
  mark_run_paused-Ensures run_id position w = record {
    holds = λ _ w' e. mark_run_paused-eq-ok run_id position w e;
  }

  pub mark_run_completed-Ensures :
      (run_id : String) (w : World N)
      → Ensures
          (λ _ w'. RunOnly run_id RunStatus.completed w.db w'.db)
          (mark_run_completed host run_id w)
  mark_run_completed-Ensures run_id w = record {
    holds = λ _ w' e. mark_run_completed-eq-ok run_id w e;
  }

  -- `d'` is `d` with the listed steps skipped.
  abbrev pub Skipped : String → List String → Db N → Db N → Type 0
  Skipped run_id ids d d' =
      (uuid : ℕ → String) × (time : Time) × (d'.engine.step_runs
        ≡ skip_rows uuid 0 run_id time ids d.engine.step_runs)
      × (d'.engine.runs ≡ d.engine.runs)

  pub mark_steps_skipped-Ensures :
      (run_id : String) (ids : List String) (w : World N)
      → Ensures (λ _ w'. Skipped run_id ids w.db w'.db) (mark_steps_skipped host run_id ids w)
  mark_steps_skipped-Ensures run_id ids w = record {
    holds = λ n w' h.
        let e = mark_steps_skipped-eq-ok host run_id ids w h in
        (
          host.uuid w.tick,
          host.time w.tick,
          ap (λ (d : Db N). d.engine.step_runs) e,
          ap (λ (d : Db N). d.engine.runs) e,
        );
  }

module _ {N : Type 0} {run_id : String} {status : RunStatus} where
  pub RunSet-from :
      {d0 d d' : Db N}
      → d.engine.runs ≡ d0.engine.runs
      → RunSet run_id status d d'
      → RunSet run_id status d0 d'
  RunSet-from e s = record {
    set = s.set;
    written = s.written ∙ ap (update_where (is_run run_id) s.set) e;
    sets_status = s.sets_status;
    keeps_id = s.keeps_id;
  }

module _ {N : Type 0} {run_id : String} {steps : List (WorkflowStepRow N)} {status : StepRunStatus}
    {i : ℕ} {rows : List (StepRunRow N)} {P Q : Option (StepRunRow N) → Type 0} where
  pub StoppedAt-weaken :
      ((o : Option (StepRunRow N)) → P o → Q o)
      → StoppedAt run_id steps status P i rows
      → StoppedAt run_id steps status Q i rows
  StoppedAt-weaken f s = record {
    step = s.step;
    at = s.at;
    row = s.row;
    row_at = s.row_at;
    row_status = s.row_status;
    before = s.before;
    after = λ k t e lt. f _ (s.after k t e lt);
  }
