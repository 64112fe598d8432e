-- ===== src/Tables.antt =====
-- What the GraphQL documents of packages/engine/src/core/repository.ts ask of the tables.
pub mod Laws
pub mod Skipping
use ai_agent_workflow_builde.Common.{
  ℕ, suc, String, Bool, true, false, ◌&&◌, not, Option, none, some, List, [], ◌∷◌, ◌==◌, leb,
  if◌then◌else◌, get_or_else, find, keep, any, update_where, count_where,
}
use ai_agent_workflow_builde.Json.{Json, null}
use ai_agent_workflow_builde.Domain.{
  WorkflowStepRow, WorkflowRunRow, StepRunRow, RunStatus, StepRunStatus, StepType, Time,
}
use ai_agent_workflow_builde.Store.{Db, EngineTables, WorkflowRow}

-- The columns of the joined `workflow_step`.
pub record StepInfo : Type 0 where
  pub position : ℕ
  pub name : String
  pub type : StepType

pub record RunBundle (N : Type 0) : Type 0 where
  pub run : WorkflowRunRow N
  pub workflow : WorkflowRow
  pub steps : List (WorkflowStepRow N)
  pub step_runs : List (StepRunRow N × StepInfo)

abbrev pub is_pending : RunStatus → Bool
is_pending RunStatus.pending = true
is_pending _ = false

module _ {N : Type 0} where
  unfoldable pub is_run : String → WorkflowRunRow N → Bool
  is_run run_id r = r.id == run_id

  -- The unique key of step_runs.
  unfoldable pub is_step_run : String → String → StepRunRow N → Bool
  is_step_run run_id step_id r = r.workflow_run_id == run_id && r.workflow_step_id == step_id

  insert_by_position : WorkflowStepRow N → List (WorkflowStepRow N) → List (WorkflowStepRow N)
  insert_by_position s [] = s ∷ []
  insert_by_position s (t ∷ ts) =
      if leb s.position t.position then s ∷ t ∷ ts else t ∷ insert_by_position s ts

  -- `steps.sort((a, b) => a.position - b.position)`, and `order_by: { position: asc }`
  unfoldable pub sort_by_position : List (WorkflowStepRow N) → List (WorkflowStepRow N)
  unfolding insert_by_position
  sort_by_position [] = []
  sort_by_position (s ∷ ss) = insert_by_position s (sort_by_position ss)

  abbrev step_info : WorkflowStepRow N → StepInfo
  step_info s = record { position = s.position; name = s.name; type = s.type }

  join_steps : List (WorkflowStepRow N) → List (StepRunRow N) → List (StepRunRow N × StepInfo)
  join_steps steps [] = []
  join_steps steps (r ∷ rs) = elim (find (λ s. s.id == r.workflow_step_id) steps) [
    | none ↦ join_steps steps rs
    | some s ↦ (r, step_info s) ∷ join_steps steps rs
  ]

  read_bundle : EngineTables N → WorkflowRunRow N → WorkflowRow → RunBundle N
  unfolding join_steps sort_by_position
  read_bundle d run wf = record {
    run = run;
    workflow = wf;
    steps = sort_by_position (sort_by_position (keep (λ s. s.workflow_id == wf.id) d.steps));
    step_runs = join_steps d.steps (keep (λ r. r.workflow_run_id == run.id) d.step_runs);
  }

  -- The query LoadRun and what `loadRunBundle` makes of its answer. A run's workflow is there by
  -- the foreign key; the database refuses otherwise.
  unfoldable pub find_bundle : String → Db N → Option (Option (RunBundle N) × Db N)
  unfolding read_bundle
  find_bundle run_id d = elim (find (is_run run_id) d.engine.runs) [
    | none ↦ some (none, d)
    | some run ↦ elim (find (λ w. w.id == run.workflow_id) d.engine.workflows) [
      | none ↦ none
      | some wf ↦ some (some (read_bundle d.engine run wf), d)
    ]
  ]

  abbrev pub set_runs :
      (List (WorkflowRunRow N) → List (WorkflowRunRow N)) → EngineTables N → EngineTables N
  set_runs f e = record e { runs = f e.runs }

  abbrev pub set_step_runs :
      (List (StepRunRow N) → List (StepRunRow N)) → EngineTables N → EngineTables N
  set_step_runs f e = record e { step_runs = f e.step_runs }

  abbrev pub on_engine : (EngineTables N → EngineTables N) → Db N → Db N
  on_engine f d = record d { engine = f d.engine }

  unfoldable pub claimable : String → WorkflowRunRow N → Bool
  claimable run_id r = is_run run_id r && is_pending r.status

  -- ClaimRun: one statement that tests the status and sets it; the result is `affected_rows`.
  unfoldable pub claim_rows : String → Time → EngineTables N → ℕ × EngineTables N
  claim_rows run_id time e = (
    count_where (claimable run_id) e.runs,
    set_runs
        (update_where (claimable run_id)
          (λ r. record r { status = RunStatus.running; started_at = some time }))
        e,
  )

  -- UpdateRun; the columns to set are given as a function on the row.
  unfoldable pub update_run_row :
      String → (WorkflowRunRow N → WorkflowRunRow N) → EngineTables N → EngineTables N
  update_run_row run_id set = set_runs (update_where (is_run run_id) set)

-- The columns that a call of `upsertStepRun` gives; `none` is a key that is not in the patch.
pub record StepRunPatch (N : Type 0) : Type 0 where
  pub status : Option StepRunStatus
  pub input : Option (Json N)
  pub output : Option (Json N)
  pub error : Option (Option String)
  pub attempt_count : Option ℕ
  pub started_at : Option (Option Time)
  pub completed_at : Option (Option Time)

module _ {N : Type 0} where
  abbrev pub empty_patch : StepRunPatch N
  empty_patch = record {
    status = none;
    input = none;
    output = none;
    error = none;
    attempt_count = none;
    started_at = none;
    completed_at = none;
  }

  unfoldable pub apply_patch : StepRunPatch N → StepRunRow N → StepRunRow N
  apply_patch p r = record r {
    status = get_or_else p.status r.status;
    input = get_or_else p.input r.input;
    output = get_or_else p.output r.output;
    error = get_or_else p.error r.error;
    attempt_count = get_or_else p.attempt_count r.attempt_count;
    started_at = get_or_else p.started_at r.started_at;
    completed_at = get_or_else p.completed_at r.completed_at;
  }

  -- A new row, with the columns' defaults.
  unfoldable pub new_step_run : String → String → String → StepRunRow N
  new_step_run uuid run_id step_id = record {
    id = uuid;
    workflow_run_id = run_id;
    workflow_step_id = step_id;
    status = StepRunStatus.pending;
    input = null;
    output = null;
    error = none;
    attempt_count = 0;
    started_at = none;
    completed_at = none;
    approved_by = none;
    approved_at = none;
  }

  -- UpsertStepRun: `on_conflict` on the unique key updates the columns of the patch.
  unfoldable pub upsert_row :
      String → String → String → StepRunPatch N → List (StepRunRow N) → List (StepRunRow N)
  unfolding new_step_run is_step_run
  upsert_row uuid run_id step_id p [] = apply_patch p (new_step_run uuid run_id step_id) ∷ []
  upsert_row uuid run_id step_id p (r ∷ rs) =
      if is_step_run run_id step_id r
      then apply_patch p r ∷ rs
      else r ∷ upsert_row uuid run_id step_id p rs

  -- The row that the statement returns.
  unfoldable pub upserted :
      String → String → String → StepRunPatch N → Db N → Option (StepRunRow N × Db N)
  unfolding upsert_row new_step_run apply_patch
  upserted uuid run_id step_id p d =
      let old =
        get_or_else (find (is_step_run run_id step_id) d.engine.step_runs)
          (new_step_run uuid run_id step_id) in
      some (apply_patch p old, on_engine (set_step_runs (upsert_row uuid run_id step_id p)) d)

  -- InsertSkippedStepRuns, for one object: an existing row is left as it is.
  unfoldable pub skip_row :
      String → String → Time → String → List (StepRunRow N) → List (StepRunRow N)
  unfolding new_step_run
  skip_row uuid run_id time step_id rows =
      if any (is_step_run run_id step_id) rows
      then rows
      else upsert_row uuid run_id step_id
          (record empty_patch {
            status = some StepRunStatus.skipped;
            completed_at = some (some time);
          })
          rows

  -- The rows of one statement; the i-th new row has the i-th identifier.
  unfoldable pub skip_rows :
      (ℕ → String) → ℕ → String → Time → List String → List (StepRunRow N) → List (StepRunRow N)
  skip_rows uuid i run_id time [] rows = rows
  skip_rows uuid i run_id time (step_id ∷ ids) rows =
      skip_rows uuid (suc i) run_id time ids (skip_row (uuid i) run_id time step_id rows)

  -- `affected_rows` of that statement: the rows that were not there.
  unfoldable pub count_new : String → List String → List (StepRunRow N) → ℕ
  count_new run_id ids rows =
      count_where (λ step_id. not (any (is_step_run run_id step_id) rows)) ids
