-- ===== src/Engine/Progress.antt =====
-- How far a run has come, read off the rows of step_runs.
use ai_agent_workflow_builde.Common.{
  ℕ, suc, ◌+◌, ◌-◌, ◌≤◌, ◌<◌, String, ◌≡◌, refl, ◌≢◌, inl, inr, ◌∙◌, sym, ap, subst, Bool, true,
  false, Option, none, some, List, map, ◌==◌, eq_iff, arith, eqb, ltb, any, get_elem?, drop, slice,
  length, Bool-cases, any-map, get_elem?-drop, any_of_get_elem?, get_elem?_of_any, get_elem?-take,
  get_elem?-take-eq-some, lt-length_of_get_elem?, length-le_of_get_elem?,
}
use ai_agent_workflow_builde.Domain.{WorkflowStepRow, StepRunRow, StepRunStatus, Time}
use ai_agent_workflow_builde.Store.{Db}
use ai_agent_workflow_builde.Tables.{skip_rows}
use ai_agent_workflow_builde.Tables.Laws.{row_of}
use ai_agent_workflow_builde.Tables.Skipping.{
  lists_id, row_of-skip_rows_present, row_of-skip_rows_other, row_of-skip_rows_new,
}
use ai_agent_workflow_builde.Repository.Laws.{OnlyStep}

-- A step that needs nothing more: it was executed or skipped.
abbrev pub is_done : StepRunStatus → Bool
is_done StepRunStatus.completed = true
is_done StepRunStatus.skipped = true
is_done _ = false

abbrev pub IsDone : {N : Type 0} → Option (StepRunRow N) → Type 0
IsDone {N} o = (r : StepRunRow N) × (o ≡ some r) × (is_done r.status ≡ true)

abbrev pub IsAbsent : {N : Type 0} → Option (StepRunRow N) → Type 0
IsAbsent o = o ≡ none

-- The primary key of workflow_steps.
abbrev pub HasDistinctIds : {N : Type 0} → List (WorkflowStepRow N) → Type 0
HasDistinctIds {N} steps =
    (j k : ℕ) (s t : WorkflowStepRow N)
    → get_elem? steps j ≡ some s
    → get_elem? steps k ≡ some t
    → s.id ≡ t.id
    → j ≡ k

module _ {N : Type 0} (run_id : String) (steps : List (WorkflowStepRow N)) where
  -- The steps before an index are done, and no step from there on has a row.
  pub record Progress (i : ℕ) (rows : List (StepRunRow N)) : Type 0 where
    pub done :
        (k : ℕ) (s : WorkflowStepRow N)
        → get_elem? steps k ≡ some s
        → k < i
        → IsDone (row_of run_id s.id rows)
    pub fresh :
        (k : ℕ) (s : WorkflowStepRow N)
        → get_elem? steps k ≡ some s
        → i ≤ k
        → IsAbsent (row_of run_id s.id rows)

  -- The run stopped at a step, whose row has the given status; the later rows are as `After` says.
  pub record StoppedAt (status : StepRunStatus) (After : Option (StepRunRow N) → Type 0) (i : ℕ)
      (rows : List (StepRunRow N)) : Type 0 where
    pub step : WorkflowStepRow N
    pub at : get_elem? steps i ≡ some step
    pub row : StepRunRow N
    pub row_at : row_of run_id step.id rows ≡ some row
    pub row_status : row.status ≡ status
    pub before :
        (k : ℕ) (s : WorkflowStepRow N)
        → get_elem? steps k ≡ some s
        → k < i
        → IsDone (row_of run_id s.id rows)
    pub after :
        (k : ℕ) (s : WorkflowStepRow N)
        → get_elem? steps k ≡ some s
        → i < k
        → After (row_of run_id s.id rows)

  -- A part of the list of steps, from one index up to another.
  pub record IsPart (j m : ℕ) (part : List (WorkflowStepRow N)) : Type 0 where
    pub inside :
        (k : ℕ) (s : WorkflowStepRow N)
        → get_elem? steps k ≡ some s
        → j ≤ k
        → k < m
        → lists_id s.id (map (λ t. t.id) part) ≡ true
    pub outside :
        (id : String)
        → lists_id id (map (λ t. t.id) part) ≡ true
        → (n : ℕ) × (t : WorkflowStepRow N) × (j ≤ n)
          × (n < m)
          × (get_elem? steps n ≡ some t)
          × (t.id ≡ id)

  lists_id-map :
      (id : String) (part : List (WorkflowStepRow N))
      → lists_id id (map (λ t. t.id) part) ≡ any (λ t. t.id == id) part
  lists_id-map id part = any-map (λ (t : WorkflowStepRow N). t.id) (λ x. x == id) part

  get_elem?-drop_sub : (j k : ℕ) → j ≤ k → get_elem? (drop j steps) (k - j) ≡ get_elem? steps k
  get_elem?-drop_sub j k h =
      get_elem?-drop j (k - j) steps
      ∙ ap (get_elem? steps) (let e : j + (k - j) ≡ k = omega arith in e)

  pub drop-IsPart : (j : ℕ) → IsPart j (length steps) (drop j steps)
  drop-IsPart j = record {
    inside = λ k s e h lt.
        lists_id-map s.id (drop j steps)
        ∙ any_of_get_elem? (λ t. t.id == s.id) (k - j) (drop j steps) (get_elem?-drop_sub j k h ∙ e)
            ((eq_iff s.id s.id).1 refl);
    outside = λ id h.
        let (n, t, e, q) =
          get_elem?_of_any (λ t. t.id == id) (drop j steps)
            (sym (lists_id-map id (drop j steps)) ∙ h) in
        let e' = sym (get_elem?-drop j n steps) ∙ e in
        (j + n, t, omega arith, lt-length_of_get_elem? (j + n) steps e', e', (eq_iff t.id id).0 q);
  }

  pub slice-IsPart : (j m : ℕ) → IsPart j m (slice j m steps)
  slice-IsPart j m = record {
    inside = λ k s e h lt.
        lists_id-map s.id (slice j m steps)
        ∙ any_of_get_elem? (λ t. t.id == s.id) (k - j) (slice j m steps)
            (get_elem?-take (m - j) (k - j) (drop j steps) (omega arith)
              ∙ (get_elem?-drop_sub j k h ∙ e))
            ((eq_iff s.id s.id).1 refl);
    outside = λ id h.
        let (n, t, e, q) =
          get_elem?_of_any (λ t. t.id == id) (slice j m steps)
            (sym (lists_id-map id (slice j m steps)) ∙ h) in
        let (lt, e1) = get_elem?-take-eq-some (m - j) n (drop j steps) e in
        (
          j + n,
          t,
          omega arith,
          omega arith,
          sym (get_elem?-drop j n steps) ∙ e1,
          (eq_iff t.id id).0 q,
        );
  }

  -- Past the last step, all steps are done.
  pub Progress-end :
      (i : ℕ) (rows : List (StepRunRow N))
      → get_elem? steps i ≡ none
      → Progress i rows
      → Progress (length steps) rows
  Progress-end i rows e p = record {
    done = λ k s f lt. p.done k s f (omega (arith, length-le_of_get_elem? i steps e));
    fresh = λ k s f le. absurd (omega (arith, lt-length_of_get_elem? k steps f));
  }

  module _ (distinct : HasDistinctIds steps) where
    other_id :
        (k i : ℕ) (s t : WorkflowStepRow N)
        → k ≢ i
        → get_elem? steps k ≡ some s
        → get_elem? steps i ≡ some t
        → s.id ≢ t.id
    other_id k i s t h e f same = h (distinct k i s t e f same)

    -- One step was worked on, and is done now.
    pub Progress-step :
        (i : ℕ) (step : WorkflowStepRow N) (d d' : Db N)
        → Progress i d.engine.step_runs
        → get_elem? steps i ≡ some step
        → OnlyStep run_id step.id d d'
        → IsDone (row_of run_id step.id d'.engine.step_runs)
        → Progress (suc i) d'.engine.step_runs
    Progress-step i step d d' p at only now_done = record {
      done = λ k s e lt. elim (Bool-cases (eqb k i)) [
        | inl same ↦
            let k_is : k ≡ i = ground arith in
            let s_is : s ≡ step = cc (ap (get_elem? steps) k_is) in
            subst (λ (x : WorkflowStepRow N). IsDone (row_of run_id x.id d'.engine.step_runs))
              (sym s_is) now_done
        | inr unlike ↦
            let k_ne : k ≢ i = ground arith in
            rw (only.others s.id (other_id k i s step k_ne e at)) (p.done k s e (omega arith))
      ];
      fresh = λ k s e le.
          let k_ne : k ≢ i = omega arith in
          only.others s.id (other_id k i s step k_ne e at) ∙ p.fresh k s e (omega arith);
    }

    -- One step was worked on, and the run stops there.
    pub StoppedAt-step :
        (status : StepRunStatus) (i : ℕ) (step : WorkflowStepRow N) (d d' : Db N)
        (row : StepRunRow N)
        → Progress i d.engine.step_runs
        → get_elem? steps i ≡ some step
        → OnlyStep run_id step.id d d'
        → row_of run_id step.id d'.engine.step_runs ≡ some row
        → row.status ≡ status
        → StoppedAt status IsAbsent i d'.engine.step_runs
    StoppedAt-step status i step d d' row p at only row_at row_status = record {
      step = step;
      at = at;
      row = row;
      row_at = row_at;
      row_status = row_status;
      before = λ k s e lt.
          let k_ne : k ≢ i = omega arith in
          rw (only.others s.id (other_id k i s step k_ne e at)) (p.done k s e lt);
      after = λ k s e lt.
          let k_ne : k ≢ i = omega arith in
          only.others s.id (other_id k i s step k_ne e at) ∙ p.fresh k s e (omega arith);
    }

    module _ (uuid : ℕ → String) (time : Time) (j m : ℕ) (part : List (WorkflowStepRow N))
        (is_part : IsPart j m part) (rows : List (StepRunRow N)) where
      abbrev skipped_rows : List (StepRunRow N)
      skipped_rows = skip_rows uuid 0 run_id time (map (λ t. t.id) part) rows

      skip_keeps-IsDone :
          (id : String) → IsDone (row_of run_id id rows) → IsDone (row_of run_id id skipped_rows)
      skip_keeps-IsDone id (r, e, done) =
          (r, row_of-skip_rows_present uuid run_id time 0 _ id rows e, done)

      skip-IsDone :
          (k : ℕ) (s : WorkflowStepRow N)
          → get_elem? steps k ≡ some s
          → j ≤ k
          → k < m
          → IsAbsent (row_of run_id s.id rows)
          → IsDone (row_of run_id s.id skipped_rows)
      skip-IsDone k s e le lt absent =
          let (r, r_at, r_status) =
            row_of-skip_rows_new uuid run_id time 0 _ s.id rows (is_part.inside k s e le lt)
              absent in
          (r, r_at, rw r_status refl)

      not_listed :
          (k : ℕ) (s : WorkflowStepRow N)
          → get_elem? steps k ≡ some s
          → m ≤ k
          → lists_id s.id (map (λ t. t.id) part) ≡ false
      not_listed k s e le = elim (Bool-cases (lists_id s.id (map (λ t. t.id) part))) [
        | inr unlisted ↦ unlisted
        | inl listed ↦
            let (n, t, _, lt, e', same) = is_part.outside s.id listed in
            let n_is : n ≡ k = distinct n k t s e' e same in absurd (omega arith)
      ]

      -- The steps of the part are done once they are skipped.
      pub Progress-skip : j ≤ m → Progress j rows → Progress m skipped_rows
      Progress-skip h p = record {
        done = λ k s e lt. elim (Bool-cases (ltb k j)) [
          | inl before ↦ skip_keeps-IsDone s.id (p.done k s e (ground arith))
          | inr from ↦ let le : j ≤ k = ground arith in skip-IsDone k s e le lt (p.fresh k s e le)
        ];
        fresh = λ k s e le.
            row_of-skip_rows_other uuid run_id time 0 _ s.id rows (not_listed k s e le)
            ∙ p.fresh k s e (omega arith);
      }

      -- The run stopped before the part, which reaches the end: the steps of the part are done.
      pub StoppedAt-skip :
          (status : StepRunStatus) (i : ℕ)
          → j ≡ suc i
          → m ≡ length steps
          → StoppedAt status IsAbsent i rows
          → StoppedAt status IsDone i skipped_rows
      StoppedAt-skip status i from to s = record {
        step = s.step;
        at = s.at;
        row = s.row;
        row_at = row_of-skip_rows_present uuid run_id time 0 _ s.step.id rows s.row_at;
        row_status = s.row_status;
        before = λ k t e lt. skip_keeps-IsDone t.id (s.before k t e lt);
        after = λ k t e lt.
            skip-IsDone k t e (omega arith) (omega (arith, lt-length_of_get_elem? k steps e))
              (s.after k t e lt);
      }
