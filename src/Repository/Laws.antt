-- ===== src/Repository/Laws.antt =====
-- What each request of repository.ts has done once it was answered, and what it never touches.
use ai_agent_workflow_builde.Common.{ℕ, String, ◌≡◌, refl, ◌≢◌, some, List, [], ◌∷◌, ap}
use ai_agent_workflow_builde.Domain.{WorkflowRunRow, StepRunRow}
use ai_agent_workflow_builde.Host.{Host}
use ai_agent_workflow_builde.Store.{Db, World}
use ai_agent_workflow_builde.Store.Program.{ok}
use ai_agent_workflow_builde.Store.Keeps.{Keeps, IsFrame, request-Keeps, request-eq-ok}
use ai_agent_workflow_builde.Tables.{
  StepRunPatch, upsert_row, upserted, skip_rows, update_run_row, set_step_runs, on_engine,
}
use ai_agent_workflow_builde.Tables.Laws.{row_of, row_of-upsert_ne}
use ai_agent_workflow_builde.Repository.{upsert_step_run, mark_steps_skipped, update_run}

-- Only the row of one step of the run may differ; the runs are the same.
pub record OnlyStep {N : Type 0} (run_id step_id : String) (d d' : Db N) : Type 0 where
  pub others :
      (id : String)
      → id ≢ step_id
      → row_of run_id id d'.engine.step_runs ≡ row_of run_id id d.engine.step_runs
  pub same_runs : d'.engine.runs ≡ d.engine.runs

module _ {N : Type 0} where
  pub OnlyStep-frame : (run_id step_id : String) → IsFrame {N = N} (OnlyStep run_id step_id)
  OnlyStep-frame run_id step_id = record {
    same = λ d. record { others = λ id h. refl; same_runs = refl };
    trans = λ a b c p q. record {
      others = λ id h. cc (p.others id h, q.others id h);
      same_runs = cc (p.same_runs, q.same_runs);
    };
  }

  pub OnlyStep-of_same_engine :
      (run_id step_id : String) {d d' : Db N} → d'.engine ≡ d.engine → OnlyStep run_id step_id d d'
  OnlyStep-of_same_engine run_id step_id e = record {
    others = λ id h. ap (λ t. row_of run_id id t.step_runs) e;
    same_runs = ap (λ t. t.runs) e;
  }

  upsert-OnlyStep :
      (uuid run_id step_id : String) (p : StepRunPatch N) (d : Db N)
      → OnlyStep run_id step_id d (on_engine (set_step_runs (upsert_row uuid run_id step_id p)) d)
  upsert-OnlyStep uuid run_id step_id p d = record {
    others = λ id h. row_of-upsert_ne uuid run_id step_id p id d.engine.step_runs h;
    same_runs = refl;
  }

module _ {N : Type 0} (host : Host N) where
  upserted-db :
      (uuid run_id step_id : String) (p : StepRunPatch N) (d : Db N) {r : StepRunRow N} {d' : Db N}
      → upserted uuid run_id step_id p d ≡ some (r, d')
      → d' ≡ on_engine (set_step_runs (upsert_row uuid run_id step_id p)) d
  unfolding upserted
  upserted-db uuid run_id step_id p d h = cc

  -- However it ends, an upsert touches one row only.
  pub upsert_step_run-Keeps :
      (run_id step_id : String) (p : StepRunPatch N)
      → Keeps (OnlyStep run_id step_id) (upsert_step_run host run_id step_id p)
  unfolding upsert_step_run
  upsert_step_run-Keeps run_id step_id p w =
      request-Keeps (OnlyStep-frame run_id step_id) host _
        (λ d r d' e.
          rw (upserted-db (host.uuid w.tick 0) run_id step_id p d e)
            (upsert-OnlyStep (host.uuid w.tick 0) run_id step_id p d))
        w

  pub upsert_step_run-eq-ok :
      (run_id step_id : String) (p : StepRunPatch N) (w : World N) {r : StepRunRow N} {w' : World N}
      → upsert_step_run host run_id step_id p w ≡ (ok r, w')
      → w'.db ≡ on_engine (set_step_runs (upsert_row (host.uuid w.tick 0) run_id step_id p)) w.db
  unfolding upsert_step_run
  upsert_step_run-eq-ok run_id step_id p w h =
      upserted-db (host.uuid w.tick 0) run_id step_id p w.db (request-eq-ok host _ w h)

  pub mark_steps_skipped-eq-ok :
      (run_id : String) (ids : List String) (w : World N) {n : ℕ} {w' : World N}
      → mark_steps_skipped host run_id ids w ≡ (ok n, w')
      → w'.db
        ≡ on_engine
            (set_step_runs (skip_rows (host.uuid w.tick) 0 run_id (host.time w.tick) ids))
            w.db
  unfolding mark_steps_skipped skip_rows
  mark_steps_skipped-eq-ok run_id [] w h = cc
  mark_steps_skipped-eq-ok run_id (id ∷ ids) w h = cc (request-eq-ok host _ w h)

  pub update_run-eq-ok :
      (run_id : String) (set : WorkflowRunRow N → WorkflowRunRow N) (w : World N) {w' : World N}
      → update_run host run_id set w ≡ (ok tt, w')
      → w'.db ≡ on_engine (update_run_row run_id set) w.db
  unfolding update_run
  update_run-eq-ok run_id set w h = cc (request-eq-ok host _ w h)
