-- ===== src/Host.antt =====
-- What the program takes from outside the repository: JavaScript's floating-point numbers and
-- regular expressions, the clock, the random source, the environment, and whether a request to
-- Hasura is answered.
use ai_agent_workflow_builde.Common.{ℕ, String, Bool, Option}
use ai_agent_workflow_builde.Json.{Json}
use ai_agent_workflow_builde.Domain.{Time}

-- The bound of a counted loop, or a delay, as a JavaScript number: `finite` has the integer part.
pub data Limit : Type 0 where
  nan : Limit
  finite : ℕ → Limit
  infinite : Limit

-- What becomes of a request: it is answered; it fails and nothing is done; or it is done and the
-- answer is lost (a timeout), which the caller sees as a failure too.
pub data Delivery : Type 0 where
  answered refused lost : Delivery

pub record Host (N : Type 0) : Type 0 where
  -- Numbers: `String(n)`, `a < b`, `a <= b`, `a === b`, a whole number.
  pub show : N → String
  pub num_lt : N → N → Bool
  pub num_le : N → N → Bool
  pub num_eq : N → N → Bool
  pub of_ℕ : ℕ → N
  -- `Number(s)`, if that is finite.
  pub parse_number : String → Option N
  -- `Math.max(0, v)` of a value that is not null, and so converted to a number.
  pub to_limit : Json N → Limit
  -- `String(v)`, as a template literal prints it.
  pub to_text : Option (Json N) → String
  -- `s.toLowerCase()`
  pub to_lower : String → String
  -- `new RegExp(pattern).test(s)`, the pattern first; `none` if it is malformed.
  pub regexp_test : String → String → Option Bool
  -- `JSON.parse(s)`; `none` if it throws.
  pub parse_json : String → Option (Json N)
  pub env_var : String → Option String
  -- The rest depends on how many interactions went before.
  pub time : ℕ → Time
  -- `date_trunc('month', t)`
  pub month_start : Time → Time
  -- `gen_random_uuid()` for the i-th row of a statement.
  pub uuid : ℕ → ℕ → String
  -- `Math.floor(Math.random() * ceiling)`
  pub jitter : ℕ → ℕ → ℕ
  pub delivery : ℕ → Delivery
