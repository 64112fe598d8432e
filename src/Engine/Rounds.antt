-- ===== src/Engine/Rounds.antt =====
-- One round of the loop of `executeRun`, and the context that it starts from
-- (packages/engine/src/core/engine.ts).
use Prim.Native.String.{◌++◌}
use ai_agent_workflow_builde.Common.{
  ⊤, ℕ, suc, ◌+◌, String, Bool, true, false, Option, none, some, List, [], ◌∷◌, map, ◌==◌, leb, ltb,
  if◌then◌else◌, get_elem?, find, drop, slice, keep,
}
use ai_agent_workflow_builde.Common.Text.{first}
use ai_agent_workflow_builde.Json.{Json, null}
use ai_agent_workflow_builde.Domain.{
  WorkflowStepRow, StepRunRow, StepRunStatus, StepType, StepExecutionResult, Thrown, step_type_name,
  message_of, llm_call, http_request, db_write, notify, conditional_branch, approval_gate,
  step_error,
}
use ai_agent_workflow_builde.Host.{Host, Limit, nan, finite, infinite}
use ai_agent_workflow_builde.Context.{
  RunContext, StepOutput, set_step, empty_context, resolve_templates,
}
use ai_agent_workflow_builde.Retry.{RetryPolicy, AttemptInfo, resolve_policy, with_retry}
use ai_agent_workflow_builde.Executors.{Executors}
use ai_agent_workflow_builde.Branching.{Target, index, end_run, run_branch, resolve_branch_target}
use ai_agent_workflow_builde.Store.Program.{Program, pure, throw, lift, now, handle, ◌>>=◌, ◌>>◌}
use ai_agent_workflow_builde.Tables.{StepInfo, RunBundle, StepRunPatch, empty_patch}
use ai_agent_workflow_builde.Repository.{
  mark_run_paused, mark_run_failed, upsert_step_run, mark_steps_skipped,
}

pub data OutcomeStatus : Type 0 where
  completed failed paused skipped_already_running noop : OutcomeStatus

pub record ExecutionOutcome : Type 0 where
  pub run_id : String
  pub status : OutcomeStatus
  pub executed_steps : ℕ
  pub paused_at_step_id : Option String
  pub error : Option String

abbrev pub outcome : String → OutcomeStatus → ℕ → ExecutionOutcome
outcome run_id status executed = record {
  run_id = run_id;
  status = status;
  executed_steps = executed;
  paused_at_step_id = none;
  error = none;
}

-- How a round ends: by `return`, by `break`, or by going on at an index.
pub data Round (N : Type 0) : Type 0 where
  stop : ExecutionOutcome → Round N
  finish : (executed : ℕ) → Round N
  continue_at : (index executed : ℕ) → RunContext N → Round N

abbrev pub is_completed : StepRunStatus → Bool
is_completed StepRunStatus.completed = true
is_completed _ = false

module _ {N : Type 0} (host : Host N) where
  -- `String(position)`
  abbrev pub position_key : ℕ → String
  position_key n = host.show (host.of_ℕ n)

  insert_done :
      StepRunRow N × StepInfo → List (StepRunRow N × StepInfo) → List (StepRunRow N × StepInfo)
  insert_done r [] = r ∷ []
  insert_done r (s ∷ ss) =
      if leb r.1.position s.1.position then r ∷ s ∷ ss else s ∷ insert_done r ss

  sort_done : List (StepRunRow N × StepInfo) → List (StepRunRow N × StepInfo)
  unfolding insert_done
  sort_done [] = []
  sort_done (r ∷ rs) = insert_done r (sort_done rs)

  -- `ctx.steps[…] = …` and `ctx.previous = …` for a step that is done.
  unfoldable pub add_output : (position : ℕ) → StepOutput N → RunContext N → RunContext N
  add_output position o ctx = record ctx {
    steps = set_step (position_key position) o ctx.steps;
    previous = some (o.output, o.status);
  }

  add_done : RunContext N → List (StepRunRow N × StepInfo) → RunContext N
  unfolding add_output
  add_done ctx [] = ctx
  add_done ctx ((r, s) ∷ rest) =
      add_done
        (add_output s.position
          (record {
            output = r.output;
            status = "completed";
            name = s.name;
            type = step_type_name s.type;
          })
          ctx)
        rest

  -- `buildContext`
  unfoldable pub build_context : RunBundle N → RunContext N
  unfolding add_done sort_done empty_context
  build_context bundle =
      add_done
        (empty_context
          (record {
            id = bundle.run.id;
            workflow_id = bundle.run.workflow_id;
            org_id = bundle.run.org_id;
          })
          bundle.run.input)
        (sort_done (keep (λ p. is_completed p.0.status) bundle.step_runs))

  limit_text : Limit → String
  limit_text nan = "NaN"
  limit_text (finite n) = host.show (host.of_ℕ n)
  limit_text infinite = "Infinity"

  retry_message : AttemptInfo → Thrown → String
  unfolding limit_text
  retry_message info e =
      "attempt "
      ++ (host.show (host.of_ℕ info.attempt)
          ++ (" failed, retrying in " ++ (limit_text info.delay_ms ++ ("ms: " ++ message_of e))))

  -- The patch that reports an attempt.
  unfoldable pub attempt_patch : AttemptInfo → StepRunPatch N
  unfolding retry_message
  attempt_patch info = record empty_patch {
    attempt_count = some info.attempt;
    error = (elim info.error [
      | none ↦ none
      | some e ↦ if info.will_retry then some (some (retry_message info e)) else none
    ]);
  }

module _ {N : Type 0} (host : Host N) (ex : Executors N) where
  -- `runStepBody`, by the type of the step
  unfoldable pub run_step_body :
      StepType
      → Json N
      → (run_id step_run_id : String) → RunContext N
      → Program N (StepExecutionResult N)
  unfolding run_branch
  run_step_body llm_call cfg run_id step_run_id ctx = ex.llm_call cfg
  run_step_body http_request cfg run_id step_run_id ctx = ex.http_request cfg
  run_step_body db_write cfg run_id step_run_id ctx = ex.db_write cfg run_id
  run_step_body notify cfg run_id step_run_id ctx = ex.notify cfg run_id step_run_id
  run_step_body conditional_branch cfg run_id step_run_id ctx = lift (run_branch host ctx cfg)
  run_step_body approval_gate cfg run_id step_run_id ctx =
      throw (step_error "approval_gate must be handled by the engine loop" true)

module _ {N : Type 0} (host : Host N) (ex : Executors N) (retry_fuel : ℕ)
    (defaults : RetryPolicy) where
  module _ (bundle : RunBundle N) where
    -- The ids of the steps from an index on, and between two indices.
    abbrev pub ids_from : ℕ → List String
    ids_from i = map (λ s. s.id) (drop i bundle.steps)

    abbrev pub ids_between : ℕ → ℕ → List String
    ids_between i j = map (λ s. s.id) (slice i j bundle.steps)

    abbrev pub fail_outcome : ℕ → String → Round N
    fail_outcome executed message =
        stop (record (outcome bundle.run.id OutcomeStatus.failed executed) { error = some message })

    unfoldable pub is_approved : WorkflowStepRow N → Bool
    is_approved step = elim (find (λ p. p.0.workflow_step_id == step.id) bundle.step_runs) [
      | none ↦ false
      | some p ↦
          if is_completed p.0.status
          then elim p.0.approved_at [ none ↦ false | some _ ↦ true ]
          else false
    ]

    unfoldable pub next_position : ℕ → WorkflowStepRow N → ℕ
    next_position i step = elim (get_elem? bundle.steps (suc i)) [
      | none ↦ step.position + 1
      | some s ↦ s.position
    ]

    -- The block `pause`: an approval gate.
    unfoldable pub gate_round :
        (index executed : ℕ) → RunContext N → WorkflowStepRow N → Program N (Round N)
    unfolding is_approved next_position
    gate_round i executed ctx step =
        if is_approved step then pure (continue_at (suc i) executed ctx) else (do
          time ← now host
          upsert_step_run host bundle.run.id step.id (record empty_patch {
            status = some StepRunStatus.paused;
            input = some (resolve_templates host ctx step.config);
            started_at = some (some time);
            error = some none;
          })
          mark_run_paused host bundle.run.id (next_position i step)
          pure (
              stop (record (outcome bundle.run.id OutcomeStatus.paused executed) {
                paused_at_step_id = some step.id;
              })))

    -- The `catch` around the step's body.
    unfoldable pub step_failed :
        (index executed : ℕ) → WorkflowStepRow N → Thrown → Program N (Round N)
    step_failed i executed step e = do
      time ← now host
      upsert_step_run host bundle.run.id step.id (record empty_patch {
        status = some StepRunStatus.failed;
        error = some (some (first 2000 (message_of e)));
        completed_at = some (some time);
      })
      mark_steps_skipped host bundle.run.id (ids_from (suc i))
      mark_run_failed host bundle.run.id (
          "step \""
          ++ (step.name
              ++ ("\" (" ++ (step_type_name step.type ++ (") failed: " ++ message_of e)))))
      pure (fail_outcome executed (message_of e))

    -- A branch that cannot be taken: the step and the run fail.
    unfoldable pub branch_failed : ℕ → WorkflowStepRow N → String → Program N (Round N)
    branch_failed executed step message = do
      upsert_step_run host bundle.run.id step.id
          (record empty_patch { status = some StepRunStatus.failed; error = some (some message) })
      mark_run_failed host bundle.run.id message
      pure (fail_outcome executed message)

    -- Steps between here and the target belong to the branch that is not taken.
    unfoldable pub skip_between : ℕ → ℕ → Program N ⊤
    skip_between i target =
        if ltb (suc i) target
        then mark_steps_skipped host bundle.run.id (ids_between (suc i) target) >> pure tt
        else pure tt

    unfoldable pub backwards_message : WorkflowStepRow N → String
    backwards_message step =
        "conditional_branch would jump backwards (from position "
        ++ (host.show (host.of_ℕ step.position) ++ "); loops are not supported")

    -- The block `branch`, for a target that was resolved.
    unfoldable pub follow :
        (index executed : ℕ) → RunContext N → WorkflowStepRow N → Target → Program N (Round N)
    unfolding skip_between backwards_message branch_failed
    follow i executed ctx step end_run = do
      mark_steps_skipped host bundle.run.id (ids_from (suc i))
      pure (finish executed)
    follow i executed ctx step (index target) = do
      skip_between i target
      if leb target i
          then branch_failed executed step (backwards_message step)
          else pure (continue_at target executed ctx)

    -- What comes after the step was recorded as completed.
    unfoldable pub after_step :
        (index executed : ℕ)
        → RunContext N
        → WorkflowStepRow N
        → Option (Json N)
        → Program N (Round N)
    unfolding follow branch_failed
    after_step i executed ctx step none = pure (continue_at (suc i) executed ctx)
    after_step i executed ctx step (some branch) =
        handle (lift (resolve_branch_target host branch bundle.steps i))
          (λ e. branch_failed executed step (message_of e)) (follow i executed ctx step)

    -- A step that succeeded: it is recorded, and its output is fed forward.
    unfoldable pub step_succeeded :
        (index executed : ℕ)
        → RunContext N
        → WorkflowStepRow N
        → StepExecutionResult N
        → Program N (Round N)
    unfolding after_step
    step_succeeded i executed ctx step result = do
      time ← now host
      upsert_step_run host bundle.run.id step.id (record empty_patch {
        status = some StepRunStatus.completed;
        output = some result.output;
        completed_at = some (some time);
        error = some none;
      })
      after_step i (suc executed)
          (add_output host step.position
            (record {
              output = result.output;
              status = "completed";
              name = step.name;
              type = step_type_name step.type;
            })
            ctx)
          step result.branch

    -- `withRetry` around the step's body, each attempt reported.
    unfoldable pub attempt_step :
        WorkflowStepRow N
        → Json N
        → (step_run_id : String) → RunContext N
        → Program N (StepExecutionResult N)
    unfolding run_step_body attempt_patch
    attempt_step step cfg step_run_id ctx =
        with_retry host (λ _. run_step_body host ex step.type cfg bundle.run.id step_run_id ctx)
          (λ info. upsert_step_run host bundle.run.id step.id (attempt_patch host info) >> pure tt)
          retry_fuel (resolve_policy host cfg defaults)

    -- The block `execute`.
    unfoldable pub execute_round :
        (index executed : ℕ) → RunContext N → WorkflowStepRow N → Program N (Round N)
    unfolding attempt_step step_failed step_succeeded
    execute_round i executed ctx step = do
      let cfg = resolve_templates host ctx step.config
      time ← now host
      step_run ← upsert_step_run host bundle.run.id step.id (record {
        status = some StepRunStatus.running;
        input = some cfg;
        output = some null;
        error = some none;
        attempt_count = some 0;
        started_at = some (some time);
        completed_at = some none;
      })
      handle (attempt_step step cfg step_run.id ctx) (step_failed i executed step)
          (step_succeeded i executed ctx step)

    abbrev pub is_gate : StepType → Bool
    is_gate approval_gate = true
    is_gate _ = false

    -- The body of the `while`.
    unfoldable pub step_round :
        (index executed : ℕ) → RunContext N → WorkflowStepRow N → Program N (Round N)
    unfolding gate_round execute_round
    step_round i executed ctx step =
        if is_gate step.type
        then gate_round i executed ctx step
        else execute_round i executed ctx step
