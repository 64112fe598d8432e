-- ===== src/Engine.antt =====
-- `executeRun` (packages/engine/src/core/engine.ts): the loop over the steps of a run. A round of
-- the loop says how to go on; the loop takes fuel, one unit for a round.
pub mod Rounds
pub mod Progress
pub mod Frames
pub mod Accounts
pub mod Executing
pub mod Loop
pub mod Outcome
pub mod Claims
pub mod Ending
pub mod Total
pub mod Whole
use ai_agent_workflow_builde.Common.{
  ⊤, ℕ, zero, suc, ◌+◌, String, Bool, true, false, Option, none, some, List, [], ◌∷◌, ◌==◌, leb,
  if◌then◌else◌, length, get_elem?, find_index, get_or_else,
}
use ai_agent_workflow_builde.Domain.{WorkflowStepRow, WorkflowRunRow, RunStatus, other}
use ai_agent_workflow_builde.Host.{Host}
use ai_agent_workflow_builde.Env.{step_max_attempts, step_retry_base_delay_ms}
use ai_agent_workflow_builde.Retry.{RetryPolicy, limit_of_ℤ}
use ai_agent_workflow_builde.Context.{RunContext}
use ai_agent_workflow_builde.Executors.{Executors}
use ai_agent_workflow_builde.Store.Program.{Program, pure, throw, diverge, ◌>>=◌, ◌>>◌}
use ai_agent_workflow_builde.Tables.{RunBundle}
use ai_agent_workflow_builde.Repository.{
  load_run_bundle, claim_run_for_execution, update_run, mark_run_completed,
}
use Rounds.{
  ExecutionOutcome, OutcomeStatus, outcome, Round, stop, finish, continue_at, build_context,
  step_round,
}

pub data ExecutionMode : Type 0 where
  start resume : ExecutionMode

abbrev pub is_terminal : RunStatus → Bool
is_terminal RunStatus.completed = true
is_terminal RunStatus.failed = true
is_terminal RunStatus.cancelled = true
is_terminal _ = false

-- The rounds of `withRetry` that a step is given.
module _ {N : Type 0} (host : Host N) (ex : Executors N) (retry_fuel : ℕ) where
  abbrev pub defaults : RetryPolicy
  defaults = record {
    max_attempts = limit_of_ℤ (step_max_attempts host);
    base_delay_ms = limit_of_ℤ (step_retry_base_delay_ms host);
  }

  -- After `break`, and when the test of the `while` fails.
  unfoldable pub complete : String → ℕ → Program N ExecutionOutcome
  complete run_id executed = do
    mark_run_completed host run_id
    pure (outcome run_id OutcomeStatus.completed executed)

  -- `rest` is the loop from the next round on.
  abbrev pub after_round :
      String
      → (ℕ → ℕ → RunContext N → Program N ExecutionOutcome)
      → Round N
      → Program N ExecutionOutcome
  after_round run_id rest (stop o) = pure o
  after_round run_id rest (finish executed) = complete run_id executed
  after_round run_id rest (continue_at index executed ctx) = rest index executed ctx

  -- The `while` loop and what follows it.
  unfoldable pub run_loop :
      RunBundle N → ℕ → (index executed : ℕ) → RunContext N → Program N ExecutionOutcome
  run_loop bundle zero index executed ctx w = diverge w
  run_loop bundle (suc fuel) index executed ctx w =
      let rest = run_loop bundle fuel in
      elim (get_elem? bundle.steps index) [
        | none ↦ complete bundle.run.id executed w
        | some step ↦
            (step_round host ex retry_fuel defaults bundle index executed ctx step
                >>= after_round bundle.run.id rest)
              w
      ]

  -- Where to begin: on resume, at the first step from `resume_position` on.
  unfoldable pub first_index : ExecutionMode → RunBundle N → ℕ
  first_index start bundle = 0
  first_index resume bundle = elim bundle.run.resume_position [
    | none ↦ 0
    | some from ↦
        get_or_else (find_index (λ s. leb from s.position) bundle.steps) (length bundle.steps)
  ]

  -- The rest of `executeRun`, from the bundle that the loop runs on.
  unfoldable pub execute_bundle : ExecutionMode → RunBundle N → Program N ExecutionOutcome
  unfolding run_loop first_index
  execute_bundle mode bundle =
      run_loop bundle (suc (length bundle.steps)) (first_index mode bundle) 0
        (build_context host bundle)

  -- `bundle = (await loadRunBundle(runId))!`: on null, taking its steps throws.
  execute_reloaded : Option (RunBundle N) → Program N ExecutionOutcome
  unfolding execute_bundle
  execute_reloaded none =
      throw (other "Cannot destructure property 'steps' of 'bundle' as it is null.")
  execute_reloaded (some bundle) = execute_bundle start bundle

  -- What `executeRun` does with a run that is not over.
  enter : String → ExecutionMode → RunBundle N → Program N ExecutionOutcome
  unfolding execute_bundle execute_reloaded
  enter run_id start bundle = do
    claimed ← claim_run_for_execution host run_id
    if claimed
        then (do reloaded ← load_run_bundle host run_id; execute_reloaded reloaded)
        else pure (outcome run_id OutcomeStatus.skipped_already_running 0)
  enter run_id resume bundle = do
    update_run host run_id (λ r. record r { status = RunStatus.running; paused_at = none })
    execute_bundle resume bundle

  -- What `executeRun` does with the bundle that it loaded.
  enter_loaded : String → ExecutionMode → Option (RunBundle N) → Program N ExecutionOutcome
  unfolding enter
  enter_loaded run_id mode none =
      pure (record (outcome run_id OutcomeStatus.noop 0) { error = some "run not found" })
  enter_loaded run_id mode (some bundle) =
      if is_terminal bundle.run.status
      then pure (outcome run_id OutcomeStatus.noop 0)
      else enter run_id mode bundle

  -- `executeRun`
  unfoldable pub execute_run : String → ExecutionMode → Program N ExecutionOutcome
  unfolding enter_loaded
  execute_run run_id mode = load_run_bundle host run_id >>= enter_loaded run_id mode
