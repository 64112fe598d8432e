-- ===== src/Tests/Outside.antt =====
-- The theorems on the steps that reach the outside, and on the webhook, the notifications and the
-- schedule, on the small installation.
use ai_agent_workflow_builde.Common.{
  ℕ, zero, suc, ◌+◌, ◌-◌, ◌*◌, ◌<◌, String, Bool, true, false, not, ◌&&◌, ◌||◌, ◌≡◌, ◌⊎◌, refl,
  subst, Option, none, some, List, [], ◌∷◌, ◌++◌, ◌==◌, any, max, if◌then◌else◌, arith,
}
use ai_agent_workflow_builde.Json.{Json, null, string, object, field, end, prop, non_null}
use ai_agent_workflow_builde.Domain.{WorkflowStepRow, StepExecutionResult, RunStatus}
use ai_agent_workflow_builde.Host.{Host}
use ai_agent_workflow_builde.Network.{Network, no_ip, v4, responded, chunks}
use ai_agent_workflow_builde.Store.{World}
use ai_agent_workflow_builde.Store.Program.{Result, ok}
use ai_agent_workflow_builde.Store.Ends.{Halts}
use ai_agent_workflow_builde.Engine.{start, defaults, execute_bundle}
use ai_agent_workflow_builde.Engine.Whole.{execute_bundle_steps-Halts}
use ai_agent_workflow_builde.Steps.Dispatch.{step_executors}
use ai_agent_workflow_builde.Steps.Http.Answer.{read_capped}
use ai_agent_workflow_builde.Steps.Http.Address.{is_blocked_v4}
use ai_agent_workflow_builde.Steps.Http.Ranges.{
  is_within, address, private_blocks, is_blocked_v4-blocks,
}
use ai_agent_workflow_builde.Steps.Http.Reading.{finished, joined, read_capped-chunks}
use ai_agent_workflow_builde.Steps.Llm.{execute_llm_call, is_keyless, provider_of}
use ai_agent_workflow_builde.Steps.Llm.Calls.{
  IsOneCall, execute_llm_call-IsOneCall, execute_llm_call-stubbed,
}
use ai_agent_workflow_builde.Steps.Llm.Outcomes.{Any}
use ai_agent_workflow_builde.Steps.Llm.Extraction.{extract_json}
use ai_agent_workflow_builde.Steps.Llm.Fencing.{fence, json_tag, extract_json-fence}
use ai_agent_workflow_builde.Env.{llm_api_key}
use ai_agent_workflow_builde.Common.Text.{trim}
use ai_agent_workflow_builde.Host.{answered}
use ai_agent_workflow_builde.Env.{required, env_text}
use ai_agent_workflow_builde.Branching.{is_truthy}
use ai_agent_workflow_builde.Store.Program.{deliver}
use ai_agent_workflow_builde.Hasura.{admin_request}
use ai_agent_workflow_builde.Hasura.Refining.{Agrees, performed, admin_request-refines}
use ai_agent_workflow_builde.Steps.Llm.Providers.{read_text}
use ai_agent_workflow_builde.Context.{RunContext, resolve_templates}
use ai_agent_workflow_builde.Retry.{RetryPolicy, resolve_policy}
use ai_agent_workflow_builde.Retry.Attempts.{IsBounded}
use ai_agent_workflow_builde.Engine.Ending.{HasBoundedRetries}
use ai_agent_workflow_builde.Tests.{host, world_with, bundle, notify_step, gate_step}
use Prim.Native.String.{◌++◌ as ◌++ₛ◌}

abbrev to_number : Json ℕ → ℕ
to_number (ai_agent_workflow_builde.Json.number n) = n
to_number _ = 0

abbrev pub net : Network ℕ
net = record {
  parse_url = λ s. some (record { protocol = "http:"; hostname = "a.example"; href = s });
  resolve_url = λ s u. some (record { protocol = "http:"; hostname = "b.example"; href = s });
  is_ip = λ s. if s == "93.1.1.1" then v4 else no_ip;
  resolve_host = λ t s. some ("93.1.1.1" ∷ []);
  fetch = λ t q. responded (record {
    status = 200;
    location = none;
    content_type = none;
    body = chunks ((104 ∷ 105 ∷ []) ∷ []) false;
  });
  decode = λ bytes. "hi";
  to_upper = λ s. s;
  encode_uri = λ s. s;
  literal = λ s. 0;
  num_add = λ a b. a + b;
  num_mul = λ a b. a * b;
  minus = λ a b. a - b;
  to_number = to_number;
  num_max = λ a b. max a b;
  num_round = λ a. a;
  minutes_between = λ a b. a - b;
}

abbrev idle : World ℕ
idle = world_with RunStatus.completed []

-- http_request.
abbrev http_config : Json ℕ
http_config = object (field "url" (string "http://a.example/x") end)

is_blocked_v4-blocks_example :
    is_blocked_v4 (some 172) (some 20) ≡ any (is_within (address 172 20 3 4)) private_blocks
is_blocked_v4-blocks_example =
    is_blocked_v4-blocks 172 20 3 4 (omega arith) (omega arith) (omega arith) (omega arith)

abbrev parts : List (List ℕ)
parts = (1 ∷ 2 ∷ []) ∷ (3 ∷ []) ∷ []

read_capped-chunks_example :
    read_capped host net (chunks parts false) (ai_agent_workflow_builde.Common.Text.pos 2)
    ≡ finished host net 2 false (joined host net parts)
read_capped-chunks_example = read_capped-chunks host net 2 parts false

-- llm_call.
abbrev reader : Host ℕ
reader = record host {
  to_text = λ v. "prompt";
  parse_json = λ s. if s == "{}" then some (object end) else none;
}

abbrev llm_config : Json ℕ
llm_config = object (field "prompt" (string "prompt") end)

execute_llm_call-IsOneCall_example :
    IsOneCall (λ r. Any r) idle (execute_llm_call reader net llm_config idle)
execute_llm_call-IsOneCall_example = execute_llm_call-IsOneCall reader net llm_config idle

abbrev result_of : Result (StepExecutionResult ℕ) → StepExecutionResult ℕ
result_of (ok r) = r
result_of _ = record { output = null; branch = none }

abbrev called : Result (StepExecutionResult ℕ) × World ℕ
called = execute_llm_call reader net llm_config idle

execute_llm_call-stubbed_example :
    prop "stubbed" (result_of called.0).output
    ≡ some
        (ai_agent_workflow_builde.Json.bool (not (is_keyless "groq") && llm_api_key reader == ""))
unfolding provider_of ai_agent_workflow_builde.Env.optional execute_llm_call
execute_llm_call-stubbed_example =
    execute_llm_call-stubbed reader net llm_config "groq" idle called.1 (result_of called.0) refl
      refl

extract_json-fence_example :
    extract_json reader ("see: " ++ₛ fence (json_tag ("\n{}\n" ++ₛ fence " done"))) ≡ object end
unfolding trim
extract_json-fence_example =
    extract_json-fence reader "see: " "\n{}\n" " done" (object end) refl refl refl refl

-- The engine with its steps.
policy_of : WorkflowStepRow ℕ → RunContext ℕ → RetryPolicy
policy_of step ctx =
    resolve_policy host (resolve_templates host ctx step.config)
      (defaults host (step_executors host net) 4)

step-IsBounded :
    (s step : WorkflowStepRow ℕ) (ctx : RunContext ℕ)
    → some s ≡ some step
    → IsBounded 2 (policy_of s ctx).max_attempts
    → IsBounded 2 (policy_of step ctx).max_attempts
step-IsBounded s step ctx e h =
    let same : s ≡ step = cc in subst (λ x. IsBounded 2 (policy_of x ctx).max_attempts) same h

bundle-HasBoundedRetries :
    HasBoundedRetries host (defaults host (step_executors host net) 4) 2 bundle.steps
unfolding policy_of resolve_policy resolve_templates ai_agent_workflow_builde.Env.int_env
bundle-HasBoundedRetries zero step at ctx = step-IsBounded notify_step step ctx at (omega arith)
bundle-HasBoundedRetries (suc zero) step at ctx = step-IsBounded gate_step step ctx at (omega arith)
bundle-HasBoundedRetries (suc (suc i)) step at ctx = cc

execute_bundle_steps-Halts_example :
    Halts (execute_bundle host (step_executors host net) 4 start bundle)
execute_bundle_steps-Halts_example =
    execute_bundle_steps-Halts host net 4 2 bundle start (omega arith) bundle-HasBoundedRetries

-- The GraphQL client.
abbrev client : Host ℕ
client = record host {
  parse_json = λ s. some (object (field "data" (string "v") end));
  env_var = λ s. some "x";
}

admin_request-refines_example :
    Agrees
      (admin_request client net "query" null none idle).0
      (deliver client answered (performed client net (some (string "v")) idle.db) idle).0
unfolding required env_text read_text is_truthy
admin_request-refines_example =
    admin_request-refines client net "query" null "x" "x" answered (some (string "v")) idle.db idle
      refl refl
      (
        field "data" (string "v") end,
        record { text = "hi"; received = refl; parsed = refl },
        refl,
        refl,
        refl,
      )
