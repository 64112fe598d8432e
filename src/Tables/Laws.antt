-- ===== src/Tables/Laws.antt =====
-- Reading back a step's row after each write to step_runs.
use ai_agent_workflow_builde.Common.{
  String, ◌≡◌, refl, ◌≢◌, inl, inr, true, false, Option, none, some, List, [], ◌∷◌, eq_iff, eq_refl,
  arith, find, any, get_or_else, Bool-cases, Option-cases,
}
use ai_agent_workflow_builde.Domain.{StepRunRow, StepRunStatus, Time}
use ai_agent_workflow_builde.Tables.{
  StepRunPatch, empty_patch, is_step_run, apply_patch, new_step_run, upsert_row, skip_row,
}

module _ {N : Type 0} where
  -- The row of a step of a run.
  abbrev pub row_of : String → String → List (StepRunRow N) → Option (StepRunRow N)
  row_of run_id step_id rows = find (is_step_run run_id step_id) rows

  -- A patch leaves the key alone.
  pub is_step_run-patch :
      (run_id step_id : String) (p : StepRunPatch N) (r : StepRunRow N)
      → is_step_run run_id step_id (apply_patch p r) ≡ is_step_run run_id step_id r
  unfolding is_step_run apply_patch
  is_step_run-patch run_id step_id p r = refl

  is_step_run-new :
      (uuid run_id step_id : String) (p : StepRunPatch N)
      → is_step_run run_id step_id (apply_patch p (new_step_run uuid run_id step_id)) ≡ true
  unfolding is_step_run new_step_run apply_patch
  is_step_run-new uuid run_id step_id p = simp eq_refl

  is_step_run-new_ne :
      (uuid run_id step_id other : String) (p : StepRunPatch N)
      → other ≢ step_id
      → is_step_run run_id other (apply_patch p (new_step_run uuid run_id step_id)) ≡ false
  unfolding is_step_run new_step_run apply_patch
  is_step_run-new_ne uuid run_id step_id other p h =
      ground (arith, eq_refl run_id, eq_iff step_id other)

  -- A row has one key.
  is_step_run_ne :
      (run_id step_id other : String) (r : StepRunRow N)
      → other ≢ step_id
      → is_step_run run_id step_id r ≡ true
      → is_step_run run_id other r ≡ false
  unfolding is_step_run
  is_step_run_ne run_id step_id other r h k =
      ground (arith, eq_iff r.workflow_step_id step_id, eq_iff r.workflow_step_id other)

  module _ (uuid run_id step_id : String) (p : StepRunPatch N) where
    pub row_of-upsert_self :
        (rows : List (StepRunRow N))
        → row_of run_id step_id (upsert_row uuid run_id step_id p rows)
          ≡ some (
              apply_patch p
                (get_or_else (row_of run_id step_id rows) (new_step_run uuid run_id step_id)))
    unfolding upsert_row
    row_of-upsert_self [] = simp is_step_run-new
    row_of-upsert_self (r ∷ rs) = elim (Bool-cases (is_step_run run_id step_id r)) [
      | inl found ↦ simp (found, is_step_run-patch)
      | inr other ↦ simp other (row_of-upsert_self rs)
    ]

    pub row_of-upsert_ne :
        (other : String) (rows : List (StepRunRow N))
        → other ≢ step_id
        → row_of run_id other (upsert_row uuid run_id step_id p rows) ≡ row_of run_id other rows
    unfolding upsert_row
    row_of-upsert_ne other [] h = simp (is_step_run-new_ne uuid run_id step_id other p h)
    row_of-upsert_ne other (r ∷ rs) h = elim (Bool-cases (is_step_run run_id step_id r)) [
      | inl found ↦ simp (found, is_step_run-patch, is_step_run_ne run_id step_id other r h found)
      | inr unlike ↦ simp (unlike, row_of-upsert_ne other rs h)
    ]

  any-eq-false :
      (run_id step_id : String) (rows : List (StepRunRow N))
      → row_of run_id step_id rows ≡ none
      → any (is_step_run run_id step_id) rows ≡ false
  any-eq-false run_id step_id [] h = refl
  any-eq-false run_id step_id (r ∷ rs) h = ground (arith, any-eq-false run_id step_id rs)

  any-eq-true :
      (run_id step_id : String) (rows : List (StepRunRow N)) {r : StepRunRow N}
      → row_of run_id step_id rows ≡ some r
      → any (is_step_run run_id step_id) rows ≡ true
  any-eq-true run_id step_id [] h = cc
  any-eq-true run_id step_id (s ∷ rs) {r} h = ground (arith, any-eq-true run_id step_id rs {r = r})

  -- The row that `skip_row` adds.
  abbrev pub skipped_row : String → String → Time → String → StepRunRow N
  skipped_row uuid run_id time step_id =
      apply_patch
        (record empty_patch {
          status = some StepRunStatus.skipped;
          completed_at = some (some time);
        })
        (new_step_run uuid run_id step_id)

  module _ (uuid run_id : String) (time : Time) (step_id : String) where
    pub row_of-skip_self :
        (rows : List (StepRunRow N))
        → row_of run_id step_id (skip_row uuid run_id time step_id rows)
          ≡ some (get_or_else (row_of run_id step_id rows) (skipped_row uuid run_id time step_id))
    unfolding skip_row
    row_of-skip_self rows = elim (Option-cases (row_of run_id step_id rows)) [
      | inl absent ↦
          simp (
            any-eq-false run_id step_id rows absent,
            row_of-upsert_self uuid run_id step_id,
            absent,
          )
      | inr (r, present) ↦ rw (any-eq-true run_id step_id rows present, present) refl
    ]

    pub row_of-skip_ne :
        (other : String) (rows : List (StepRunRow N))
        → other ≢ step_id
        → row_of run_id other (skip_row uuid run_id time step_id rows) ≡ row_of run_id other rows
    unfolding skip_row
    row_of-skip_ne other rows h = elim (Bool-cases (any (is_step_run run_id step_id) rows)) [
      | inl present ↦ rw present refl
      | inr absent ↦ rw absent (row_of-upsert_ne uuid run_id step_id _ other rows h)
    ]
