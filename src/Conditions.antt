-- ===== src/Conditions.antt =====
-- Conditional branch evaluation (packages/engine/src/core/conditions.ts).
use ai_agent_workflow_builde.Common.{
  String, Bool, true, false, not, Option, none, some, ◌==◌, if◌then◌else◌, any,
}
use ai_agent_workflow_builde.Common.Text.{trim, first, includes}
use ai_agent_workflow_builde.Json.{
  Json, null, bool, number, string, array, object, items, or_null, is_present,
}
use ai_agent_workflow_builde.Json.Stringify.{stringify}
use ai_agent_workflow_builde.Domain.{
  Condition, ConditionOperator, equals, not_equals, contains, not_contains, matches, in_list, gt,
  gte, lt, lte, exists, not_exists, is_true, is_false,
}
use ai_agent_workflow_builde.Host.{Host}
use ai_agent_workflow_builde.Context.{RunContext, resolve_path}

pub record ConditionEvaluation (N : Type 0) : Type 0 where
  pub result : Bool
  pub resolved : Json N
  pub path : String
  pub operator : ConditionOperator
  pub expected : Json N

-- `o === true`, over a Boolean test that may be absent.
abbrev is_some_true : Option Bool → Bool
is_some_true none = false
is_some_true (some b) = b

module _ {N : Type 0} (host : Host N) where
  -- `null` is `none`; a number that is not finite is kept, as the source does.
  unfoldable pub as_number : Option (Json N) → Option N
  unfolding trim
  as_number (some (number n)) = some n
  as_number (some (string s)) = if trim s == "" then none else host.parse_number s
  as_number _ = none

  unfoldable pub as_string : Option (Json N) → String
  as_string none = ""
  as_string (some null) = ""
  as_string (some (string s)) = s
  as_string (some v) = stringify host.show v

  -- `a === b`, where `a` is no array and no object.
  unfoldable pub strict_equal : Option (Json N) → Json N → Bool
  strict_equal (some null) null = true
  strict_equal (some (bool true)) (bool b) = b
  strict_equal (some (bool false)) (bool b) = not b
  strict_equal (some (number m)) (number n) = host.num_eq m n
  strict_equal (some (string s)) (string t) = s == t
  strict_equal _ _ = false

  unfoldable pub same_text : Json N → Json N → Bool
  same_text v w = stringify host.show v == stringify host.show w

  unfoldable pub is_equal : Option (Json N) → Json N → Bool
  unfolding same_text strict_equal
  is_equal (some (array vs)) expected = same_text (array vs) expected
  is_equal (some (object fs)) expected = same_text (object fs) expected
  is_equal actual expected = strict_equal actual expected

  unfoldable pub does_contain : Option (Json N) → Json N → Bool
  unfolding same_text as_string includes
  does_contain (some (array vs)) expected = any (λ v. same_text v expected) (items vs)
  does_contain actual expected =
      includes (host.to_lower (as_string actual)) (host.to_lower (as_string (some expected)))

  unfoldable pub is_listed : Option (Json N) → Json N → Bool
  unfolding same_text
  is_listed actual (array vs) = any (λ v. same_text v (or_null actual)) (items vs)
  is_listed actual _ = false

  -- An operand that is no number makes every comparison false.
  unfoldable pub compare_numbers : (N → N → Bool) → Option N → Option N → Bool
  compare_numbers test (some a) (some b) = test a b
  compare_numbers test _ _ = false

  unfoldable pub is_literal : Bool → String → Option (Json N) → Bool
  is_literal b name (some (bool c)) = if b then c else not c
  is_literal b name (some (string s)) = s == name
  is_literal b name _ = false

  -- The `switch` over the operator.
  unfoldable pub test_condition : ConditionOperator → Option (Json N) → Json N → Bool
  unfolding is_equal does_contain is_listed compare_numbers as_number as_string is_literal first
  test_condition exists actual expected = is_present actual
  test_condition not_exists actual expected = not (is_present actual)
  test_condition is_true actual expected = is_literal true "true" actual
  test_condition is_false actual expected = is_literal false "false" actual
  test_condition equals actual expected = is_equal actual expected
  test_condition not_equals actual expected = not (is_equal actual expected)
  test_condition contains actual expected = does_contain actual expected
  test_condition not_contains actual expected = not (does_contain actual expected)
  test_condition matches actual expected =
      is_some_true (host.regexp_test (first 500 (as_string (some expected))) (as_string actual))
  test_condition in_list actual expected = is_listed actual expected
  test_condition gt actual expected =
      compare_numbers (λ a b. host.num_lt b a) (as_number actual) (as_number (some expected))
  test_condition gte actual expected =
      compare_numbers (λ a b. host.num_le b a) (as_number actual) (as_number (some expected))
  test_condition lt actual expected =
      compare_numbers host.num_lt (as_number actual) (as_number (some expected))
  test_condition lte actual expected =
      compare_numbers host.num_le (as_number actual) (as_number (some expected))

  -- `evaluateCondition`
  unfoldable pub evaluate_condition : Condition N → RunContext N → ConditionEvaluation N
  unfolding test_condition resolve_path
  evaluate_condition c ctx =
      let actual = resolve_path ctx c.path in
      let expected = or_null c.value in
      record {
        result = test_condition c.operator actual expected;
        resolved = or_null actual;
        path = c.path;
        operator = c.operator;
        expected = expected;
      }
