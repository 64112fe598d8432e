-- ===== src/Steps/Llm.antt =====
-- The step llm_call (packages/engine/src/steps/llm.ts): which provider is called, the offline stub,
-- and the JSON value of the completion.
pub mod Extraction
pub mod Providers
pub mod OpenAi
pub mod Gemini
pub mod Fencing
pub mod Outcomes
pub mod Calls
use Prim.Native.String
use Prim.Native.String.{◌++◌}
use ai_agent_workflow_builde.Common.{
  ℕ, String, Bool, true, false, not, ◌&&◌, ◌||◌, Option, none, some, List, [], ◌∷◌, ◌==◌, eqb,
  if◌then◌else◌, get_or_else, length,
}
use ai_agent_workflow_builde.Common.Text.{trim, includes}
use ai_agent_workflow_builde.Json.{
  Json, null, bool, number, string, array, object, field, end, prop, non_null,
}
use ai_agent_workflow_builde.Json.Stringify.{stringify}
use ai_agent_workflow_builde.Domain.{StepExecutionResult, step_error, other}
use ai_agent_workflow_builde.Env.{llm_api_key, llm_provider, ollama_base_url}
use ai_agent_workflow_builde.Host.{Host}
use ai_agent_workflow_builde.Branching.{is_truthy}
use ai_agent_workflow_builde.Network.{Network}
use ai_agent_workflow_builde.Store.Program.{Result, ok, err, Program, pure, throw, lift, ◌>>=◌}
use ai_agent_workflow_builde.Steps.Llm.Extraction.{extract_json}
use ai_agent_workflow_builde.Steps.Llm.Providers.{LlmResult, model_of}
use ai_agent_workflow_builde.Steps.Llm.OpenAi.{call_openai_compatible}
use ai_agent_workflow_builde.Steps.Llm.Gemini.{call_gemini}

abbrev pub urgent_signals : List String
urgent_signals =
    "urgent"
    ∷ ("outage" ∷ ("down" ∷ ("critical" ∷ ("refund" ∷ ("angry" ∷ ("escalate" ∷ ("asap" ∷ [])))))))

-- `urgentSignals.filter((s) => lowered.includes(s))`, the text first
unfoldable pub hits_in : String → List String → List String
unfolding includes
hits_in lowered [] = []
hits_in lowered (s ∷ signals) =
    let rest = hits_in lowered signals in if includes lowered s then s ∷ rest else rest

-- `hits.join(', ')`
abbrev pub comma_separated : List String → String
comma_separated [] = ""
comma_separated (s ∷ []) = s
comma_separated (s ∷ (t ∷ ts)) = s ++ (", " ++ comma_separated (t ∷ ts))

-- `KEYLESS_PROVIDERS.has(provider)`
abbrev pub is_keyless : String → Bool
is_keyless provider = provider == "ollama"

module _ {N : Type 0} (host : Host N) (net : Network N) where
  confidence_of : ℕ → N
  confidence_of hits =
      let raised =
        net.num_add (net.literal "0.6") (net.num_mul (host.of_ℕ hits) (net.literal "0.1")) in
      if eqb hits 0
      then net.literal "0.55"
      else if host.num_lt (net.literal "0.95") raised
      then net.literal "0.95"
      else raised

  unfoldable pub stub_payload : List String → Json N
  unfolding confidence_of
  stub_payload hits = object (
      field "label" (string (if eqb (length hits) 0 then "auto_resolve" else "needs_approval")) (
        field "confidence" (number (confidence_of (length hits))) (
          field "reason"
            (string (
              if eqb (length hits) 0
              then "no escalation signals found in the input"
              else "matched escalation signals: " ++ comma_separated hits))
            end)))

  -- `stubCompletion`
  unfoldable pub stub_completion : Json N → String → LlmResult N
  unfolding hits_in stub_payload
  stub_completion cfg prompt =
      let payload = stub_payload (hits_in (host.to_lower prompt) urgent_signals) in
      record {
        text = stringify host.show payload;
        json = payload;
        model =
            string (
              host.to_text (some (model_of host net cfg)) ++ " (STUB — no LLM_API_KEY configured)");
        provider = "stub";
        stubbed = true;
        usage = null;
      }

  -- The `switch` on the provider.
  unfoldable pub call_provider : Json N → String → String → Program N (LlmResult N)
  unfolding call_openai_compatible call_gemini
  call_provider cfg prompt provider =
      if provider == "groq"
      then call_openai_compatible host net cfg prompt "https://api.groq.com/openai/v1" "groq"
      else if provider == "openrouter"
      then call_openai_compatible host net cfg prompt "https://openrouter.ai/api/v1" "openrouter"
      else if provider == "ollama"
      then call_openai_compatible host net cfg prompt (ollama_base_url host) "ollama"
      else if provider == "gemini"
      then call_gemini host net cfg prompt
      else throw (
          step_error
            ("Unsupported LLM provider \""
              ++ (provider ++ "\". Use groq, openrouter, gemini, or ollama."))
            true)

  unfoldable pub completion_of : Json N → String → String → Program N (LlmResult N)
  unfolding call_provider stub_completion
  completion_of cfg prompt provider =
      if not (is_keyless provider) && llm_api_key host == ""
      then pure (stub_completion cfg prompt)
      else call_provider cfg prompt provider

  -- `result.json === null`
  abbrev is_null : Json N → Bool
  is_null null = true
  is_null v = false

  json_of : Json N → LlmResult N → Json N
  unfolding is_truthy extract_json
  json_of cfg r =
      if is_truthy host (prop "parse_json" cfg) && is_null r.json
      then extract_json host r.text
      else r.json

  unfoldable pub llm_output : Json N → LlmResult N → StepExecutionResult N
  unfolding json_of
  llm_output cfg r = record {
    output = object (
        field "text" (string r.text) (
          field "json" (json_of cfg r) (
            field "model" r.model (
              field "provider" (string r.provider)
                (field "stubbed" (bool r.stubbed) (field "usage" r.usage end))))));
    branch = none;
  }

  -- `(rawConfig.provider ?? config.llmProvider()).toLowerCase()`
  unfoldable pub provider_of : Option (Json N) → Result String
  provider_of none = ok (host.to_lower (llm_provider host))
  provider_of (some (string s)) = ok (host.to_lower s)
  provider_of (some v) = err (other "toLowerCase is not a function")

  -- `executeLlmCall`
  unfoldable pub execute_llm_prompt : Json N → String → Program N (StepExecutionResult N)
  unfolding provider_of completion_of llm_output trim
  execute_llm_prompt cfg prompt =
      if trim prompt == ""
      then throw
          (step_error "llm_call requires a non-empty \"prompt\" after template resolution" true)
      else (lift (provider_of (non_null (prop "provider" cfg))) >>= λ provider.
          completion_of cfg prompt provider >>= λ r. pure (llm_output cfg r))

  -- `String(cfg.prompt ?? '')`
  abbrev pub prompt_of : Json N → String
  prompt_of cfg = host.to_text (some (get_or_else (non_null (prop "prompt" cfg)) (string "")))

  -- `executeLlmCall(cfg, String(cfg.prompt ?? ''))`
  unfoldable pub execute_llm_call : Json N → Program N (StepExecutionResult N)
  unfolding execute_llm_prompt
  execute_llm_call cfg = execute_llm_prompt cfg (prompt_of cfg)
