-- ===== src/Steps/Llm/Gemini.antt =====
-- `callGemini` of packages/engine/src/steps/llm.ts.
use ai_agent_workflow_builde.Common.{
  String, true, false, Option, none, some, ◌==◌, if◌then◌else◌, get_or_else,
}
use Prim.Native.String.{◌++◌ as ◌++ₛ◌}
use ai_agent_workflow_builde.Json.{
  Json, null, number, string, array, object, Items, Fields, nil, cons, end, field, prop, prop_of,
  or_null, non_null,
}
use ai_agent_workflow_builde.Domain.{step_error, other}
use ai_agent_workflow_builde.Env.{llm_api_key}
use ai_agent_workflow_builde.Host.{Host}
use ai_agent_workflow_builde.Branching.{is_truthy}
use ai_agent_workflow_builde.Network.{Network}
use ai_agent_workflow_builde.Store.Program.{Result, ok, err, Program, lift, chain, ◌>>=◌}
use ai_agent_workflow_builde.Steps.Llm.Providers.{
  LlmResult, first_of, property, is_text, post_json, model_of, max_tokens_of, temperature_of,
  text_value,
}

module _ {N : Type 0} (host : Host N) (net : Network N) where
  gemini_url : Json N → String
  gemini_url cfg =
      "https://generativelanguage.googleapis.com/v1beta/models/"
      ++ₛ (net.encode_uri (text_value host net (some (model_of host net cfg)))
          ++ₛ (":generateContent?key=" ++ₛ net.encode_uri (llm_api_key host)))

  text_part : Json N → Json N
  text_part v = array (cons (object (field "text" v end)) nil)

  gemini_payload : Json N → String → Json N
  unfolding is_truthy text_part
  gemini_payload cfg prompt =
      let generation =
        field "generationConfig"
          (object (
            field "temperature" (temperature_of host net cfg) (
              field "maxOutputTokens" (max_tokens_of host net cfg 2048) (
                if is_truthy host (prop "parse_json" cfg)
                then field "responseMimeType" (string "application/json") end
                else end))))
          end in
      object (
        field "contents"
          (array (
            cons
              (object
                (field "role" (string "user") (field "parts" (text_part (string prompt)) end)))
              nil))
          (if is_truthy host (prop "system_prompt" cfg)
            then field "systemInstruction"
                (object (field "parts" (text_part (or_null (prop "system_prompt" cfg))) end))
                generation
            else generation))

  -- `parts.map((p) => p.text ?? '').join('')`
  unfoldable pub join_parts : Items N → Result String
  join_parts nil = ok ""
  join_parts (cons null vs) = err (other "Cannot read properties of null")
  join_parts (cons v vs) = chain (join_parts vs) (λ rest.
      ok (text_value host net (some (get_or_else (non_null (prop "text" v)) (string ""))) ++ₛ rest))

  -- `candidate?.content?.parts?.map(…).join('')`; `none` is undefined.
  unfoldable pub candidate_text : Option (Json N) → Result (Option String)
  unfolding join_parts
  candidate_text none = ok none
  candidate_text (some null) = ok none
  candidate_text (some (array vs)) = chain (join_parts vs) (λ s. ok (some s))
  candidate_text (some v) = err (other "parts.map is not a function")

  -- A property that is undefined is left out.
  put : String → Option (Json N) → Fields N → Fields N
  put key none fs = fs
  put key (some v) fs = field key v fs

  gemini_usage : Option (Json N) → Json N
  unfolding put is_truthy
  gemini_usage meta =
      if is_truthy host meta
      then object (
          put "prompt_tokens" (prop_of "promptTokenCount" meta) (
            put "completion_tokens" (prop_of "candidatesTokenCount" meta)
              (put "total_tokens" (prop_of "totalTokenCount" meta) end)))
      else null

  truncated_message : Json N → Json N → String
  truncated_message cfg reply =
      "gemini hit the token limit and returned a truncated completion (maxOutputTokens="
      ++ₛ (text_value host net (some (max_tokens_of host net cfg 2048))
          ++ₛ (", of which "
              ++ₛ (text_value host net (
                    some (
                      get_or_else
                        (non_null (prop_of "thoughtsTokenCount" (prop "usageMetadata" reply)))
                        (number (host.of_ℕ 0))))
                  ++ₛ " were spent on internal reasoning). Raise max_tokens on this step.")))

  unfoldable pub no_text : Option (Json N) → Result (LlmResult N)
  no_text candidate = err (
      step_error
        ("gemini response contained no candidate text (finishReason="
          ++ₛ (text_value host net (
                some (get_or_else (non_null (prop_of "finishReason" candidate)) (string "unknown")))
              ++ₛ ")"))
        false)

  unfoldable pub gemini_completed :
      Json N → Json N → Option (Json N) → Option String → Result (LlmResult N)
  unfolding truncated_message no_text gemini_usage
  gemini_completed cfg reply candidate text =
      if is_text "MAX_TOKENS" (prop_of "finishReason" candidate)
      then err (step_error (truncated_message cfg reply) true)
      else if get_or_else text "" == ""
      then no_text candidate
      else ok (record {
        text = get_or_else text "";
        json = null;
        model = model_of host net cfg;
        provider = "gemini";
        stubbed = false;
        usage = gemini_usage (prop "usageMetadata" reply);
      })

  unfoldable pub gemini_result : Json N → Json N → Result (LlmResult N)
  unfolding gemini_completed candidate_text
  gemini_result cfg reply = chain (property "candidates" reply) (λ candidates.
      let candidate = first_of candidates in
      chain (candidate_text (prop_of "parts" (prop_of "content" candidate)))
        (gemini_completed cfg reply candidate))

  unfoldable pub call_gemini : Json N → String → Program N (LlmResult N)
  unfolding post_json gemini_url gemini_payload gemini_result
  call_gemini cfg prompt =
      post_json host net (gemini_url cfg) end (gemini_payload cfg prompt) "gemini" >>= λ reply.
      lift (gemini_result cfg reply)
