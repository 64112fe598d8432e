-- ===== src/Engine/Executing.antt =====
-- A round that executes a step accounts for the rows of its run.
use ai_agent_workflow_builde.Common.{
  ℕ, suc, String, ◌≡◌, refl, inl, inr, ◌∙◌, subst, Option, none, some, arith, get_elem?, drop,
  slice, length, Bool-cases, ltb, leb, lt-length_of_get_elem?, ltb→lt, leb→le, ◌<◌, ◌≤◌,
}
use ai_agent_workflow_builde.Json.{Json}
use ai_agent_workflow_builde.Domain.{
  WorkflowStepRow, StepRunStatus, StepExecutionResult, Thrown, message_of,
}
use ai_agent_workflow_builde.Host.{Host}
use ai_agent_workflow_builde.Context.{RunContext}
use ai_agent_workflow_builde.Executors.{Executors, ExecutorsLaws}
use ai_agent_workflow_builde.Retry.{RetryPolicy}
use ai_agent_workflow_builde.Branching.{Target, index, end_run, resolve_branch_target}
use ai_agent_workflow_builde.Store.{Db, World}
use ai_agent_workflow_builde.Store.Program.{Result}
use ai_agent_workflow_builde.Tables.{RunBundle, StepRunPatch, apply_patch}
use ai_agent_workflow_builde.Tables.Laws.{row_of}
use ai_agent_workflow_builde.Repository.Laws.{OnlyStep, OnlyStep-frame}
use ai_agent_workflow_builde.Engine.Rounds.{
  Round, step_failed, branch_failed, skip_between, follow, after_step, step_succeeded,
  execute_round,
}
use ai_agent_workflow_builde.Engine.Frames.{attempt_step-Keeps}
use ai_agent_workflow_builde.Engine.Progress.{
  IsDone, Progress, HasDistinctIds, Progress-step, StoppedAt-step, Progress-skip, StoppedAt-skip,
  drop-IsPart, slice-IsPart,
}
use ai_agent_workflow_builde.Store.Ensures.{Ensures, Ensures-pure, Ensures-and_then, Ensures-settle}
use ai_agent_workflow_builde.Engine.Accounts.{
  upsert_step_run-Ensures, mark_run_failed-Ensures, mark_steps_skipped-Ensures, RunSet-from,
  StoppedAt-weaken, Accounts, Upserted,
}

module _ {N : Type 0} (host : Host N) (ex : Executors N) (laws : ExecutorsLaws ex) (fuel : ℕ)
    (defaults : RetryPolicy) (bundle : RunBundle N) (distinct : HasDistinctIds bundle.steps) (i : ℕ)
    (step : WorkflowStepRow N) (at : get_elem? bundle.steps i ≡ some step) where
  abbrev run_id : String
  run_id = bundle.run.id

  -- Begun at `d0`, the work on this step alone has led to `d`.
  record Working (d0 d : Db N) : Type 0 where
    begun : Progress run_id bundle.steps i d0.engine.step_runs
    only : OnlyStep run_id step.id d0 d

  Working-step : {d0 d d' : Db N} → Working d0 d → OnlyStep run_id step.id d d' → Working d0 d'
  Working-step wk o = record {
    begun = wk.begun;
    only = (OnlyStep-frame run_id step.id).trans _ _ _ wk.only o;
  }

  -- After an upsert of this step's row.
  Working-Upserted :
      {d0 : Db N} (d d' : Db N) {p : StepRunPatch N}
      → Working d0 d
      → Upserted host run_id step.id p d d'
      → Working d0 d'
  Working-Upserted d d' wk u = record {
    begun = wk.begun;
    only = (OnlyStep-frame run_id step.id).trans _ _ _ wk.only u.only;
  }

  abbrev Settles : Db N → Result (Round N) × World N → Type 0
  Settles d0 = Ensures (λ r w'. Accounts run_id bundle.steps i d0 r w'.db)

  -- The catch around the body.
  step_failed-Settles :
      (d0 : Db N) (executed : ℕ) (e : Thrown) (w : World N)
      → Working d0 w.db
      → Settles d0 (step_failed host ex fuel defaults bundle i executed step e w)
  unfolding step_failed apply_patch
  step_failed-Settles d0 executed e w wk =
      Ensures-and_then _ _ (upsert_step_run-Ensures host run_id step.id _ w) λ row w1 u.
        let wk1 = Working-Upserted w.db w1.db wk u in
        let stopped =
          StoppedAt-step run_id bundle.steps distinct StepRunStatus.failed i step d0 w1.db _
            wk.begun at wk1.only u.row_at refl in
        Ensures-and_then _ _ (mark_steps_skipped-Ensures host run_id _ w1)
          λ n w2 (uuid, time, skipped, runs).
            Ensures-and_then _ _ (mark_run_failed-Ensures host run_id _ w2) λ _ w3 (run_set, same).
              Ensures-pure _ w3 (
                (
                  i,
                  rw (same ∙ skipped) (
                      StoppedAt-weaken (λ o d. inr d)
                        (StoppedAt-skip run_id bundle.steps distinct uuid time (suc i)
                          (length bundle.steps) (drop (suc i) bundle.steps)
                          (drop-IsPart run_id bundle.steps (suc i)) w1.db.engine.step_runs
                          StepRunStatus.failed i refl refl stopped)),
                ),
                RunSet-from (runs ∙ wk1.only.same_runs) run_set,
              )

  -- A branch that cannot be taken: this step fails, and no later step has a row.
  branch_failed-Settles :
      (d0 : Db N) (executed : ℕ) (message : String) (w : World N)
      → Working d0 w.db
      → Settles d0 (branch_failed host ex fuel defaults bundle executed step message w)
  unfolding branch_failed apply_patch
  branch_failed-Settles d0 executed message w wk =
      Ensures-and_then _ _ (upsert_step_run-Ensures host run_id step.id _ w) λ row w1 u.
        let wk1 = Working-Upserted w.db w1.db wk u in
        let stopped =
          StoppedAt-step run_id bundle.steps distinct StepRunStatus.failed i step d0 w1.db _
            wk.begun at wk1.only u.row_at refl in
        Ensures-and_then _ _ (mark_run_failed-Ensures host run_id _ w1) λ _ w2 (run_set, same).
          Ensures-pure _ w2 (
            (i, rw same (StoppedAt-weaken (λ o a. inl a) stopped)),
            RunSet-from wk1.only.same_runs run_set,
          )

  -- The step is recorded as completed: how far the run is then.
  record Completed (d0 d : Db N) : Type 0 where
    working : Working d0 d
    now_done : IsDone (row_of run_id step.id d.engine.step_runs)

  Completed-Progress :
      (d0 d : Db N) → Completed d0 d → Progress run_id bundle.steps (suc i) d.engine.step_runs
  Completed-Progress d0 d c =
      Progress-step run_id bundle.steps distinct i step d0 d c.working.begun at c.working.only
        c.now_done

  -- A forward jump skips the steps in between.
  skip_between-Ensures :
      (d0 : Db N) (target : ℕ) (w : World N)
      → Completed d0 w.db
      → Ensures
          (λ _ w'.
            (i < target → Progress run_id bundle.steps target w'.db.engine.step_runs)
            × (target ≤ i → Working d0 w'.db)
            × (w'.db.engine.runs ≡ d0.engine.runs))
          (skip_between host ex fuel defaults bundle i target w)
  unfolding skip_between
  skip_between-Ensures d0 target w c = elim (Bool-cases (ltb (suc i) target)) [
    | inl far ↦
        let lt : suc i < target = ltb→lt (suc i) target far in
        rw far (
          Ensures-and_then _ _ (mark_steps_skipped-Ensures host run_id _ w)
            λ n w1 (uuid, time, skipped, runs). Ensures-pure tt w1 (
              (λ _. rw skipped (
                  Progress-skip run_id bundle.steps distinct uuid time (suc i) target
                    (slice (suc i) target bundle.steps)
                    (slice-IsPart run_id bundle.steps (suc i) target) w.db.engine.step_runs
                    (omega arith) (Completed-Progress d0 w.db c))),
              (λ le. absurd (omega arith)),
              runs ∙ c.working.only.same_runs,
            ))
    | inr near ↦ rw near (
        Ensures-pure tt w (
          (λ lt.
              let e : suc i ≡ target = ground arith in
              subst (λ j. Progress run_id bundle.steps j w.db.engine.step_runs) e
                (Completed-Progress d0 w.db c)),
          (λ _. c.working),
          c.working.only.same_runs,
        ))
  ]

  follow-Settles :
      (d0 : Db N) (executed : ℕ) (ctx : RunContext N) (target : Target) (w : World N)
      → Completed d0 w.db
      → Settles d0 (follow host ex fuel defaults bundle i executed ctx step target w)
  unfolding follow
  follow-Settles d0 executed ctx end_run w c =
      Ensures-and_then _ _ (mark_steps_skipped-Ensures host run_id _ w)
        λ n w1 (uuid, time, skipped, runs). Ensures-pure _ w1 (
          rw skipped (
              Progress-skip run_id bundle.steps distinct uuid time (suc i) (length bundle.steps)
                (drop (suc i) bundle.steps) (drop-IsPart run_id bundle.steps (suc i))
                w.db.engine.step_runs (lt-length_of_get_elem? i bundle.steps at)
                (Completed-Progress d0 w.db c)),
          runs ∙ c.working.only.same_runs,
        )
  follow-Settles d0 executed ctx (index target) w c =
      Ensures-and_then _ _ (skip_between-Ensures d0 target w c) λ _ w1 (forward, backward, runs).
        elim (Bool-cases (leb target i)) [
          | inl back ↦
              rw back (branch_failed-Settles d0 executed _ w1 (backward (leb→le target i back)))
          | inr ahead ↦
              let lt : i < target = ground arith in
              rw ahead (Ensures-pure _ w1 (lt, forward lt, runs))
        ]

  after_step-Settles :
      (d0 : Db N) (executed : ℕ) (ctx : RunContext N) (branch : Option (Json N)) (w : World N)
      → Completed d0 w.db
      → Settles d0 (after_step host ex fuel defaults bundle i executed ctx step branch w)
  unfolding after_step
  after_step-Settles d0 executed ctx none w c =
      let lt : i < suc i = omega arith in
      Ensures-pure _ w (lt, Completed-Progress d0 w.db c, c.working.only.same_runs)
  after_step-Settles d0 executed ctx (some branch) w c =
      Ensures-settle {Kept = λ w1. Completed d0 w1.db}
        (resolve_branch_target host branch bundle.steps i, w)
        (λ e. branch_failed host ex fuel defaults bundle executed step (message_of e))
        (follow host ex fuel defaults bundle i executed ctx step) c
        (λ e w1 c1. branch_failed-Settles d0 executed (message_of e) w1 c1.working)
        (λ target w1 c1. follow-Settles d0 executed ctx target w1 c1)

  step_succeeded-Settles :
      (d0 : Db N) (executed : ℕ) (ctx : RunContext N) (result : StepExecutionResult N) (w : World N)
      → Working d0 w.db
      → Settles d0 (step_succeeded host ex fuel defaults bundle i executed ctx step result w)
  unfolding step_succeeded apply_patch
  step_succeeded-Settles d0 executed ctx result w wk =
      Ensures-and_then _ _ (upsert_step_run-Ensures host run_id step.id _ w) λ row w1 u.
        after_step-Settles d0 (suc executed) _ result.branch w1
          (record { working = Working-Upserted w.db w1.db wk u; now_done = (_, u.row_at, refl) })

  -- A round that executes a step.
  pub execute_round-Settles :
      (executed : ℕ) (ctx : RunContext N) (w : World N)
      → Progress run_id bundle.steps i w.db.engine.step_runs
      → Settles w.db (execute_round host ex fuel defaults bundle i executed ctx step w)
  unfolding execute_round
  execute_round-Settles executed ctx w p =
      Ensures-and_then _ _ (upsert_step_run-Ensures host run_id step.id _ w) λ row w1 u.
        let wk1 : Working w.db w1.db = record { begun = p; only = u.only } in
        Ensures-settle {Kept = λ w2. Working w.db w2.db} _ _ _
          (Working-step wk1
            (attempt_step-Keeps host ex laws fuel defaults bundle step _ row.id ctx w1))
          (λ e w2 wk2. step_failed-Settles w.db executed e w2 wk2)
          (λ result w2 wk2. step_succeeded-Settles w.db executed ctx result w2 wk2)
