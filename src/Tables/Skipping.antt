-- ===== src/Tables/Skipping.antt =====
-- The rows after `markStepsSkipped`.
use ai_agent_workflow_builde.Common.{
  ℕ, suc, String, ◌≡◌, refl, ◌∙◌, inl, inr, Bool, true, false, none, some, List, [], ◌∷◌, ◌==◌,
  eq_iff, arith, any, Bool-cases,
}
use ai_agent_workflow_builde.Domain.{StepRunRow, StepRunStatus, Time}
use ai_agent_workflow_builde.Tables.{apply_patch, skip_rows}
use ai_agent_workflow_builde.Tables.Laws.{row_of, skipped_row, row_of-skip_self, row_of-skip_ne}

-- `ids.includes(id)`
abbrev pub lists_id : String → List String → Bool
lists_id id ids = any (λ x. x == id) ids

module _ {N : Type 0} (uuid : ℕ → String) (run_id : String) (time : Time) where
  -- A row that exists stays as it is.
  pub row_of-skip_rows_present :
      (i : ℕ) (ids : List String) (id : String) (rows : List (StepRunRow N)) {r : StepRunRow N}
      → row_of run_id id rows ≡ some r
      → row_of run_id id (skip_rows uuid i run_id time ids rows) ≡ some r
  unfolding skip_rows
  row_of-skip_rows_present i [] id rows e = e
  row_of-skip_rows_present i (x ∷ xs) id rows {r} e =
      row_of-skip_rows_present (suc i) xs id _ (elim (Bool-cases (x == id)) [
        | inl same ↦
            let p : x ≡ id = (eq_iff x id).0 same in
            rw p (row_of-skip_self (uuid i) run_id time id rows ∙ rw e refl)
        | inr other ↦
            row_of-skip_ne (uuid i) run_id time x id rows (ground (arith, eq_iff x id)) ∙ e
      ])

  -- The row of a step that is not listed stays as it is.
  pub row_of-skip_rows_other :
      (i : ℕ) (ids : List String) (id : String) (rows : List (StepRunRow N))
      → lists_id id ids ≡ false
      → row_of run_id id (skip_rows uuid i run_id time ids rows) ≡ row_of run_id id rows
  unfolding skip_rows
  row_of-skip_rows_other i [] id rows h = refl
  row_of-skip_rows_other i (x ∷ xs) id rows h =
      row_of-skip_rows_other (suc i) xs id _ (ground arith)
      ∙ row_of-skip_ne (uuid i) run_id time x id rows (ground (arith, eq_iff x id))

  -- A step that is listed and has no row gets one, as skipped.
  pub row_of-skip_rows_new :
      (i : ℕ) (ids : List String) (id : String) (rows : List (StepRunRow N))
      → lists_id id ids ≡ true
      → row_of run_id id rows ≡ none
      → (r : StepRunRow N) × (row_of run_id id (skip_rows uuid i run_id time ids rows) ≡ some r)
        × (r.status ≡ StepRunStatus.skipped)
  unfolding skip_rows apply_patch
  row_of-skip_rows_new i [] id rows h e = cc
  row_of-skip_rows_new i (x ∷ xs) id rows h e = elim (Bool-cases (x == id)) [
    | inl same ↦
        let p : x ≡ id = (eq_iff x id).0 same in
        (
          skipped_row (uuid i) run_id time id,
          row_of-skip_rows_present (suc i) xs id _
              (rw p (row_of-skip_self (uuid i) run_id time id rows ∙ rw e refl)),
          refl,
        )
    | inr other ↦
        row_of-skip_rows_new (suc i) xs id _ (ground arith)
          (row_of-skip_ne (uuid i) run_id time x id rows (ground (arith, eq_iff x id)) ∙ e)
  ]
