-- ===== src/Branching/Halting.antt =====
-- Evaluating a branch and resolving its target yield a value or an error.
use ai_agent_workflow_builde.Common.{
  ℕ, String, ◌≢◌, refl, Option, none, some, List, inl, inr, Bool-cases, Option-cases, ◌==◌, not,
  ◌||◌, if◌then◌else◌,
}
use ai_agent_workflow_builde.Json.{
  Json, null, bool, number, string, array, object, lookup, prop, prop_of,
}
use ai_agent_workflow_builde.Domain.{WorkflowStepRow, Condition}
use ai_agent_workflow_builde.Host.{Host}
use ai_agent_workflow_builde.Context.{RunContext}
use ai_agent_workflow_builde.Conditions.{ConditionEvaluation, evaluate_condition}
use ai_agent_workflow_builde.Store.Program.{Result, ok, err, out_of_fuel}
use ai_agent_workflow_builde.Branching.{
  is_truthy, operator_of, condition_of, take_branch, choose_branch, and_choose, run_branch,
  target_at, action_target, resolve_branch_target,
}

-- A value or an error.
abbrev pub Answers : {A : Type 0} → Result A → Type 0
Answers r = r ≢ out_of_fuel

module _ {N : Type 0} (host : Host N) where
  take_branch-Answers :
      (operator : String) (e : ConditionEvaluation N) (branch : Option (Json N))
      → Answers (take_branch host operator e branch)
  unfolding take_branch
  take_branch-Answers operator e branch = elim (Bool-cases (is_truthy host branch)) [
    | inl taken ↦ rw taken (λ h. cc)
    | inr missing ↦ rw missing (λ h. cc)
  ]

  and_choose-Answers :
      (ctx : RunContext N) (cfg : Json N) (c : Result (Condition N × String))
      → Answers c
      → Answers (and_choose host ctx cfg c)
  unfolding and_choose choose_branch
  and_choose-Answers ctx cfg (ok (c, operator)) h =
      let e = evaluate_condition host c ctx in
      take_branch-Answers operator e (if e.result then prop "on_true" cfg else prop "on_false" cfg)
  and_choose-Answers ctx cfg (err e) h = λ x. cc
  and_choose-Answers ctx cfg out_of_fuel h = absurd (h refl)

  operator-Answers :
      (path operator : String) (value : Option (Json N))
      → Answers (condition_of host (some (string path)) (some (string operator)) value)
  unfolding condition_of
  operator-Answers path operator value = elim (Option-cases (operator_of operator)) [
    | inl unknown ↦ rw (unknown, condition_of) (λ h. cc)
    | inr (op, known) ↦ rw (known, condition_of) (λ h. cc)
  ]

  condition_of-Answers :
      (path operator value : Option (Json N)) → Answers (condition_of host path operator value)
  unfolding condition_of
  condition_of-Answers (some (string path)) (some (string operator)) value =
      operator-Answers path operator value
  condition_of-Answers (some (string path)) none value = λ h. cc
  condition_of-Answers (some (string path)) (some null) value = λ h. cc
  condition_of-Answers (some (string path)) (some (bool b)) value = λ h. cc
  condition_of-Answers (some (string path)) (some (number n)) value = λ h. cc
  condition_of-Answers (some (string path)) (some (array vs)) value = λ h. cc
  condition_of-Answers (some (string path)) (some (object fs)) value = λ h. cc
  condition_of-Answers none operator value = λ h. cc
  condition_of-Answers (some null) operator value = λ h. cc
  condition_of-Answers (some (bool b)) operator value = λ h. cc
  condition_of-Answers (some (number n)) operator value = λ h. cc
  condition_of-Answers (some (array vs)) operator value = λ h. cc
  condition_of-Answers (some (object fs)) operator value = λ h. cc

  pub run_branch-Answers : (ctx : RunContext N) (cfg : Json N) → Answers (run_branch host ctx cfg)
  unfolding run_branch
  run_branch-Answers ctx cfg =
      let condition = prop "condition" cfg in
      let path = prop_of "path" condition in
      let operator = prop_of "operator" condition in
      elim (Bool-cases (not (is_truthy host path) || not (is_truthy host operator))) [
        | inl missing ↦ rw missing (λ h. cc)
        | inr given ↦ rw given (
            and_choose-Answers ctx cfg _
              (condition_of-Answers path operator (prop_of "value" condition)))
      ]

  target_at-Answers : (o : Option ℕ) (message : String) → Answers (target_at host o message)
  unfolding target_at
  target_at-Answers none message = λ h. cc
  target_at-Answers (some i) message = λ h. cc

  action_target-Answers :
      (action : Json N) (current : ℕ) → Answers (action_target host action current)
  unfolding action_target
  action_target-Answers (string s) current = elim (Bool-cases (s == "end")) [
    | inl ends ↦ rw ends (λ h. cc)
    | inr goes ↦ rw goes (λ h. cc)
  ]
  action_target-Answers null current = λ h. cc
  action_target-Answers (bool b) current = λ h. cc
  action_target-Answers (number n) current = λ h. cc
  action_target-Answers (array vs) current = λ h. cc
  action_target-Answers (object fs) current = λ h. cc

  pub resolve_branch_target-Answers :
      (target : Json N) (steps : List (WorkflowStepRow N)) (current : ℕ)
      → Answers (resolve_branch_target host target steps current)
  unfolding resolve_branch_target
  resolve_branch_target-Answers (object fs) steps current =
      elim (Option-cases (lookup "action" fs)) [
        | inr (action, e1) ↦ rw (e1, resolve_branch_target) (action_target-Answers action current)
        | inl no_action ↦ elim (Option-cases (lookup "goto_step_id" fs)) [
          | inr (id, e2) ↦ rw (no_action, resolve_branch_target) (rw e2 (target_at-Answers _ _))
          | inl no_id ↦ rw (no_action, resolve_branch_target) (rw no_id (target_at-Answers _ _))
        ]
      ]
  resolve_branch_target-Answers (array vs) steps current = target_at-Answers _ _
  resolve_branch_target-Answers null steps current = λ h. cc
  resolve_branch_target-Answers (bool b) steps current = λ h. cc
  resolve_branch_target-Answers (number n) steps current = λ h. cc
  resolve_branch_target-Answers (string s) steps current = λ h. cc
