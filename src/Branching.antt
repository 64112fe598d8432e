-- ===== src/Branching.antt =====
-- conditional_branch in packages/engine/src/core/engine.ts: the case of `runStepBody` and
-- `resolveBranchTarget`. A configuration is JSON that nothing has checked, so a property may be
-- missing or of another type.
pub mod Laws
pub mod Halting
use Prim.Native.String.{◌++◌}
use ai_agent_workflow_builde.Common.{
  ℕ, ◌+◌, String, Bool, true, false, not, ◌&&◌, ◌||◌, Option, none, some, List, ◌==◌, if◌then◌else◌,
  find_index,
}
use ai_agent_workflow_builde.Json.{
  Json, null, bool, number, string, array, object, field, end, lookup, prop, prop_of, or_null,
}
use ai_agent_workflow_builde.Domain.{
  WorkflowStepRow, StepExecutionResult, Condition, ConditionOperator, equals, not_equals, contains,
  not_contains, matches, in_list, gt, gte, lt, lte, exists, not_exists, is_true, is_false, Thrown,
  step_error, other,
}
use ai_agent_workflow_builde.Host.{Host}
use ai_agent_workflow_builde.Context.{RunContext}
use ai_agent_workflow_builde.Conditions.{ConditionEvaluation, evaluate_condition}
use ai_agent_workflow_builde.Store.Program.{Result, ok, err}

-- The cases of the `switch` over the operator.
unfoldable pub operator_of : String → Option ConditionOperator
operator_of s =
    if s == "equals"
    then some equals
    else if s == "not_equals"
    then some not_equals
    else if s == "contains"
    then some contains
    else if s == "not_contains"
    then some not_contains
    else if s == "matches"
    then some matches
    else if s == "in"
    then some in_list
    else if s == "gt"
    then some gt
    else if s == "gte"
    then some gte
    else if s == "lt"
    then some lt
    else if s == "lte"
    then some lte
    else if s == "exists"
    then some exists
    else if s == "not_exists"
    then some not_exists
    else if s == "is_true"
    then some is_true
    else if s == "is_false"
    then some is_false
    else none

-- Where a branch sends the engine.
pub data Target : Type 0 where
  index : ℕ → Target
  end_run : Target

module _ {N : Type 0} (host : Host N) where
  -- `!v` fails
  unfoldable pub is_truthy : Option (Json N) → Bool
  is_truthy none = false
  is_truthy (some null) = false
  is_truthy (some (bool b)) = b
  is_truthy (some (number n)) = host.num_eq n n && not (host.num_eq n (host.of_ℕ 0))
  is_truthy (some (string s)) = not (s == "")
  is_truthy (some _) = true

  -- The condition that is evaluated, from a path and an operator that are truthy.
  unfoldable pub condition_of :
      (path operator value : Option (Json N)) → Result (Condition N × String)
  unfolding operator_of
  condition_of (some (string path)) (some (string operator)) value = elim (operator_of operator) [
    | none ↦ err (other ("Unsupported condition operator: " ++ operator))
    | some op ↦ ok (record { path = path; operator = op; value = value }, operator)
  ]
  condition_of (some (string path)) operator value =
      err (other ("Unsupported condition operator: " ++ host.to_text operator))
  condition_of path operator value = err (other "path.split is not a function")

  evaluation_json : String → ConditionEvaluation N → Json N → Json N
  evaluation_json operator e taken = object (
      field "matched" (bool e.result) (
        field "path" (string e.path) (
          field "operator" (string operator)
            (field "expected" e.expected (field "resolved" e.resolved (field "taken" taken end))))))

  take_branch : String → ConditionEvaluation N → Option (Json N) → Result (StepExecutionResult N)
  unfolding is_truthy evaluation_json
  take_branch operator e branch =
      if is_truthy branch
      then ok (record {
        output = evaluation_json operator e (or_null branch);
        branch = some (or_null branch);
      })
      else err (
          step_error
            (if e.result
              then "conditional_branch is missing an \"on_true\" target"
              else "conditional_branch is missing an \"on_false\" target")
            true)

  choose_branch : RunContext N → Json N → Condition N × String → Result (StepExecutionResult N)
  unfolding take_branch
  choose_branch ctx cfg (c, operator) =
      let e = evaluate_condition host c ctx in
      take_branch operator e (if e.result then prop "on_true" cfg else prop "on_false" cfg)

  and_choose :
      RunContext N → Json N → Result (Condition N × String) → Result (StepExecutionResult N)
  unfolding choose_branch
  and_choose ctx cfg (ok c) = choose_branch ctx cfg c
  and_choose ctx cfg (err e) = err e
  and_choose ctx cfg Result.out_of_fuel = Result.out_of_fuel

  -- The case `conditional_branch` of `runStepBody`.
  unfoldable pub run_branch : RunContext N → Json N → Result (StepExecutionResult N)
  unfolding and_choose is_truthy condition_of
  run_branch ctx cfg =
      let condition = prop "condition" cfg in
      let path = prop_of "path" condition in
      let operator = prop_of "operator" condition in
      if not (is_truthy path) || not (is_truthy operator)
      then err (step_error "conditional_branch requires condition.path and condition.operator" true)
      else and_choose ctx cfg (condition_of path operator (prop_of "value" condition))

  -- `s.id === v` and `s.position === v`
  abbrev pub is_step_id : Option (Json N) → WorkflowStepRow N → Bool
  is_step_id (some (string id)) s = s.id == id
  is_step_id _ s = false

  abbrev pub is_step_position : Option (Json N) → WorkflowStepRow N → Bool
  is_step_position (some (number n)) s = host.num_eq (host.of_ℕ s.position) n
  is_step_position _ s = false

  target_at : Option ℕ → String → Result Target
  target_at none message = err (step_error message true)
  target_at (some i) message = ok (index i)

  action_target : Json N → ℕ → Result Target
  action_target (string s) current = if s == "end" then ok end_run else ok (index (current + 1))
  action_target _ current = ok (index (current + 1))

  position_target : Option (Json N) → List (WorkflowStepRow N) → Result Target
  unfolding target_at
  position_target v steps = target_at (find_index (is_step_position v) steps) (
      "conditional_branch target position "
      ++ (host.to_text v ++ " does not exist in this workflow"))

  id_target : Option (Json N) → List (WorkflowStepRow N) → Result Target
  unfolding target_at
  id_target v steps =
      target_at (find_index (is_step_id v) steps)
        ("conditional_branch target step " ++ (host.to_text v ++ " is not part of this workflow"))

  -- `resolveBranchTarget`. `in` throws at a value that is no object.
  unfoldable pub resolve_branch_target : Json N → List (WorkflowStepRow N) → ℕ → Result Target
  unfolding action_target position_target id_target
  resolve_branch_target (object fs) steps current = elim (lookup "action" fs) [
    | some action ↦ action_target action current
    | none ↦ elim (lookup "goto_step_id" fs) [
      | some id ↦ id_target (some id) steps
      | none ↦ position_target (lookup "goto_position" fs) steps
    ]
  ]
  resolve_branch_target (array _) steps current = position_target none steps
  resolve_branch_target _ steps current =
      err (other "Cannot use 'in' operator to search for 'action'")
