-- ===== src/Steps/Llm/OpenAi.antt =====
-- `callOpenAiCompatible` of packages/engine/src/steps/llm.ts.
use ai_agent_workflow_builde.Common.{String, true, false, Option, some, ◌==◌, if◌then◌else◌}
use Prim.Native.String.{◌++◌ as ◌++ₛ◌}
use ai_agent_workflow_builde.Json.{
  Json, null, string, array, object, Items, Fields, nil, cons, end, field, prop, prop_of, or_null,
}
use ai_agent_workflow_builde.Domain.{step_error}
use ai_agent_workflow_builde.Env.{llm_api_key}
use ai_agent_workflow_builde.Host.{Host}
use ai_agent_workflow_builde.Branching.{is_truthy}
use ai_agent_workflow_builde.Network.{Network}
use ai_agent_workflow_builde.Store.Program.{Result, ok, err, Program, lift, chain, ◌>>=◌}
use ai_agent_workflow_builde.Steps.Llm.Providers.{
  LlmResult, first_of, property, is_text, post_json, model_of, max_tokens_of, temperature_of,
  text_value,
}

module _ {N : Type 0} (host : Host N) (net : Network N) where
  messages_of : Json N → String → Items N
  unfolding is_truthy
  messages_of cfg prompt =
      let user =
        cons (object (field "role" (string "user") (field "content" (string prompt) end))) nil in
      if is_truthy host (prop "system_prompt" cfg)
      then cons
          (object (
            field "role" (string "system")
              (field "content" (or_null (prop "system_prompt" cfg)) end)))
          user
      else user

  openai_payload : Json N → String → Json N
  unfolding messages_of is_truthy
  openai_payload cfg prompt = object (
      field "model" (model_of host net cfg) (
        field "messages" (array (messages_of cfg prompt)) (
          field "temperature" (temperature_of host net cfg) (
            field "max_tokens" (max_tokens_of host net cfg 512) (
              if is_truthy host (prop "parse_json" cfg)
              then field "response_format" (object (field "type" (string "json_object") end)) end
              else end)))))

  abbrev authorization : Fields N
  authorization =
      if llm_api_key host == ""
      then end
      else field "authorization" (string ("Bearer " ++ₛ llm_api_key host)) end

  unfoldable pub completed_as :
      Json N → String → Option (Json N) → String → Json N → Result (LlmResult N)
  completed_as cfg provider choice text reply =
      if is_text "length" (prop_of "finish_reason" choice)
      then err (
          step_error
            (provider
              ++ₛ (" hit the token limit and returned a truncated completion (max_tokens="
                  ++ₛ (text_value host net (some (max_tokens_of host net cfg 512))
                      ++ₛ "). Raise max_tokens on this step.")))
            true)
      else ok (record {
        text = text;
        json = null;
        model = model_of host net cfg;
        provider = provider;
        stubbed = false;
        usage = or_null (prop "usage" reply);
      })

  unfoldable pub content_of :
      Json N → String → Option (Json N) → Option (Json N) → Json N → Result (LlmResult N)
  unfolding completed_as
  content_of cfg provider choice (some (string text)) reply =
      completed_as cfg provider choice text reply
  content_of cfg provider choice content reply =
      err (step_error (provider ++ₛ " response contained no message content") false)

  -- The first choice of the answer.
  unfoldable pub openai_result : Json N → String → Json N → Result (LlmResult N)
  unfolding content_of
  openai_result cfg provider reply = chain (property "choices" reply) (λ choices.
      let choice = first_of choices in
      content_of cfg provider choice (prop_of "content" (prop_of "message" choice)) reply)

  unfoldable pub call_openai_compatible :
      Json N → String → String → String → Program N (LlmResult N)
  unfolding post_json openai_payload openai_result
  call_openai_compatible cfg prompt base_url provider =
      post_json host net (base_url ++ₛ "/chat/completions") authorization
        (openai_payload cfg prompt) provider
      >>= λ reply. lift (openai_result cfg provider reply)
