-- ===== src/Engine/Loop.antt =====
-- The loop of `executeRun` accounts for every step of the run, however many rounds it takes.
use ai_agent_workflow_builde.Common.{
  ℕ, zero, suc, ◌≡◌, refl, inl, inr, ◌∙◌, false, some, arith, get_elem?, length, Bool-cases,
  Option-cases, ◌≤◌, ◌⊎◌,
}
use ai_agent_workflow_builde.Domain.{WorkflowStepRow, StepRunStatus, RunStatus}
use ai_agent_workflow_builde.Host.{Host}
use ai_agent_workflow_builde.Context.{RunContext}
use ai_agent_workflow_builde.Executors.{Executors, ExecutorsLaws}
use ai_agent_workflow_builde.Store.{Db, World}
use ai_agent_workflow_builde.Store.Program.{Program}
use ai_agent_workflow_builde.Store.Ensures.{Ensures, Ensures-pure, Ensures-and_then}
use ai_agent_workflow_builde.Tables.{RunBundle, apply_patch}
use ai_agent_workflow_builde.Engine.{complete, after_round, run_loop, defaults}
use ai_agent_workflow_builde.Engine.Rounds.{
  ExecutionOutcome, OutcomeStatus, Round, stop, finish, continue_at, gate_round, step_round,
  is_gate, is_approved,
}
use ai_agent_workflow_builde.Engine.Progress.{
  Progress, HasDistinctIds, Progress-end, StoppedAt-step,
}
use ai_agent_workflow_builde.Engine.Accounts.{
  RunSet, RunSet-from, Stopped, Accounts, upsert_step_run-Ensures, mark_run_paused-Ensures,
  mark_run_completed-Ensures,
}
use ai_agent_workflow_builde.Engine.Executing.{execute_round-Settles}

module _ {N : Type 0} (host : Host N) (ex : Executors N) (laws : ExecutorsLaws ex) (fuel : ℕ)
    (bundle : RunBundle N) (distinct : HasDistinctIds bundle.steps) where
  -- The bundle shows no approval of a step from the given index on.
  abbrev pub IsUnapproved : ℕ → Type 0
  IsUnapproved i0 =
      (k : ℕ) (s : WorkflowStepRow N)
      → get_elem? bundle.steps k ≡ some s
      → i0 ≤ k
      → is_approved host ex fuel (defaults host ex fuel) bundle s ≡ false

  module _ (i0 : ℕ) (unapproved : IsUnapproved i0) where
    gate_round-Settles :
        (i : ℕ) (step : WorkflowStepRow N)
        → get_elem? bundle.steps i ≡ some step
        → i0 ≤ i
        → (executed : ℕ) (ctx : RunContext N) (w : World N)
        → Progress bundle.run.id bundle.steps i w.db.engine.step_runs
        → Ensures
            (λ r w'. Accounts bundle.run.id bundle.steps i w.db r w'.db)
            (gate_round host ex fuel (defaults host ex fuel) bundle i executed ctx step w)
    unfolding gate_round apply_patch
    gate_round-Settles i step at from executed ctx w p = rw (unapproved i step at from) (
        Ensures-and_then _ _ (upsert_step_run-Ensures host bundle.run.id step.id _ w) λ row w1 u.
          Ensures-and_then _ _ (mark_run_paused-Ensures host bundle.run.id _ w1)
            λ _ w2 (run_set, same). Ensures-pure _ w2 (
              (
                i,
                rw same (
                    StoppedAt-step bundle.run.id bundle.steps distinct StepRunStatus.paused i step
                      w.db w1.db _ p at u.only u.row_at refl),
              ),
              RunSet-from u.only.same_runs run_set,
            ))

    step_round-Settles :
        (i : ℕ) (step : WorkflowStepRow N)
        → get_elem? bundle.steps i ≡ some step
        → i0 ≤ i
        → (executed : ℕ) (ctx : RunContext N) (w : World N)
        → Progress bundle.run.id bundle.steps i w.db.engine.step_runs
        → Ensures
            (λ r w'. Accounts bundle.run.id bundle.steps i w.db r w'.db)
            (step_round host ex fuel (defaults host ex fuel) bundle i executed ctx step w)
    unfolding step_round
    step_round-Settles i step at from executed ctx w p =
        elim (Bool-cases (is_gate host ex fuel (defaults host ex fuel) bundle step.type)) [
          | inl gate ↦ rw gate (gate_round-Settles i step at from executed ctx w p)
          | inr other ↦ rw other (
              execute_round-Settles host ex laws fuel (defaults host ex fuel) bundle distinct i step
                at executed ctx w p)
        ]

    -- What an outcome says of the database: `d` is the one that the loop began with.
    abbrev pub Accounted : Db N → ExecutionOutcome → Db N → Type 0
    Accounted d o d' =
        ((o.status ≡ OutcomeStatus.completed)
          × Progress bundle.run.id bundle.steps (length bundle.steps) d'.engine.step_runs
          × RunSet bundle.run.id RunStatus.completed d d')
        ⊎ Stopped bundle.run.id bundle.steps o.status d d'

    complete-Settles :
        (d : Db N) (executed : ℕ) (w : World N)
        → Progress bundle.run.id bundle.steps (length bundle.steps) w.db.engine.step_runs
        → w.db.engine.runs ≡ d.engine.runs
        → Ensures (λ o w'. Accounted d o w'.db) (complete host ex fuel bundle.run.id executed w)
    unfolding complete
    complete-Settles d executed w p e =
        Ensures-and_then _ _ (mark_run_completed-Ensures host bundle.run.id w)
          λ _ w1 (run_set, same). Ensures-pure _ w1 (inl (refl, rw same p, RunSet-from e run_set))

    -- The database of the loop's start, and where a round has led.
    Accounted-from :
        (d d1 d2 : Db N) (o : ExecutionOutcome)
        → d1.engine.runs ≡ d.engine.runs
        → Stopped bundle.run.id bundle.steps o.status d1 d2
        → Accounted d o d2
    Accounted-from d d1 d2 o e s = inr (go o.status s)
      where
        go :
            (status : OutcomeStatus)
            → Stopped bundle.run.id bundle.steps status d1 d2
            → Stopped bundle.run.id bundle.steps status d d2
        go OutcomeStatus.paused (at, run_set) = (at, RunSet-from e run_set)
        go OutcomeStatus.failed (at, run_set) = (at, RunSet-from e run_set)
        go OutcomeStatus.completed h = absurd h
        go OutcomeStatus.skipped_already_running h = absurd h
        go OutcomeStatus.noop h = absurd h

    -- A round's account, and the loop from the next round on.
    after_round-Settles :
        (d : Db N) (i : ℕ) (d1 : Db N)
        → i0 ≤ i
        → d1.engine.runs ≡ d.engine.runs
        → (rest : ℕ → ℕ → RunContext N → Program N ExecutionOutcome)
        → ((j n : ℕ) (c : RunContext N) (w : World N)
            → i0 ≤ j
            → Progress bundle.run.id bundle.steps j w.db.engine.step_runs
            → w.db.engine.runs ≡ d.engine.runs
            → Ensures (λ o w'. Accounted d o w'.db) (rest j n c w))
        → (r : Round N) (w : World N) → Accounts bundle.run.id bundle.steps i d1 r w.db
        → Ensures (λ o w'. Accounted d o w'.db) (after_round host ex fuel bundle.run.id rest r w)
    after_round-Settles d i d1 from e rest ih (stop o) w a =
        Ensures-pure o w (Accounted-from d d1 w.db o e a)
    after_round-Settles d i d1 from e rest ih (finish n) w (p, same) =
        complete-Settles d n w p (same ∙ e)
    after_round-Settles d i d1 from e rest ih (continue_at j n c) w (lt, p, same) =
        ih j n c w (omega arith) p (same ∙ e)

    pub run_loop-Settles :
        (d : Db N) (rounds i executed : ℕ) (ctx : RunContext N) (w : World N)
        → i0 ≤ i
        → Progress bundle.run.id bundle.steps i w.db.engine.step_runs
        → w.db.engine.runs ≡ d.engine.runs
        → Ensures
            (λ o w'. Accounted d o w'.db)
            (run_loop host ex fuel bundle rounds i executed ctx w)
    unfolding run_loop
    run_loop-Settles d zero i executed ctx w from p e = record { holds = λ o w' h. cc }
    run_loop-Settles d (suc rounds) i executed ctx w from p e =
        elim (Option-cases (get_elem? bundle.steps i)) [
          | inl past ↦
              rw (past, run_loop)
                (complete-Settles d executed w
                  (Progress-end bundle.run.id bundle.steps i w.db.engine.step_runs past p) e)
          | inr (step, at) ↦
              rw (at, run_loop)
                (Ensures-and_then _ _ (step_round-Settles i step at from executed ctx w p) (
                  after_round-Settles d i w.db from e (run_loop host ex fuel bundle rounds)
                    λ j n c w1. run_loop-Settles d rounds j n c w1))
        ]
