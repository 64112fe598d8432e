-- ===== src/Env.antt =====
-- Environment access (packages/engine/src/lib/env.ts).
use ai_agent_workflow_builde.Common.{
  String, Bool, false, ◌||◌, Option, none, some, ◌==◌, if◌then◌else◌, get_or_else,
}
use ai_agent_workflow_builde.Common.Text.{ℤ, pos, trim, parse_int}
use ai_agent_workflow_builde.Domain.{other}
use ai_agent_workflow_builde.Host.{Host}
use ai_agent_workflow_builde.Store.Program.{Result, ok, err}
use Prim.Native.String.{◌++◌}

abbrev pub missing_message : String → String
missing_message name =
    "Missing required environment variable "
    ++ (name ++ ". See .env.example for what it is and where to get it.")

module _ {N : Type 0} (host : Host N) where
  -- A variable that is set, and not to white space, without the white space around it.
  unfoldable pub env_text : String → Option String
  unfolding trim
  env_text name = elim (host.env_var name) [
    | none ↦ none
    | some v ↦ if trim v == "" then none else some (trim v)
  ]

  unfoldable pub required : String → Result String
  unfolding env_text
  required name = elim (env_text name) [ none ↦ err (other (missing_message name)) | some v ↦ ok v ]

  unfoldable pub optional : String → String → String
  unfolding env_text
  optional name fallback = get_or_else (env_text name) fallback

  unfoldable pub int_env : String → ℤ → ℤ
  unfolding env_text parse_int
  int_env name fallback = elim (env_text name) [
    | none ↦ fallback
    | some raw ↦ get_or_else (parse_int raw) fallback
  ]

  unfoldable pub bool_env : String → Bool → Bool
  unfolding env_text
  bool_env name fallback = elim (env_text name) [
    | none ↦ fallback
    | some raw ↦ let v = host.to_lower raw in v == "1" || (v == "true" || (v == "yes" || v == "on"))
  ]

  -- The entries of `config`.
  abbrev pub action_secret : Result String
  action_secret = required "ACTION_WEBHOOK_SECRET"

  abbrev pub app_base_url : String
  app_base_url = optional "APP_BASE_URL" "http://localhost:3000"

  abbrev pub llm_provider : String
  llm_provider = optional "LLM_PROVIDER" "groq"

  abbrev pub llm_api_key : String
  llm_api_key = optional "LLM_API_KEY" ""

  abbrev pub llm_model : String
  llm_model = optional "LLM_MODEL" "llama-3.3-70b-versatile"

  abbrev pub llm_timeout_ms : ℤ
  llm_timeout_ms = int_env "LLM_TIMEOUT_MS" (pos 30_000)

  abbrev pub ollama_base_url : String
  ollama_base_url = optional "OLLAMA_BASE_URL" "http://localhost:11434/v1"

  abbrev pub http_timeout_ms : ℤ
  http_timeout_ms = int_env "HTTP_STEP_TIMEOUT_MS" (pos 10_000)

  abbrev pub http_max_response_bytes : ℤ
  http_max_response_bytes = int_env "HTTP_STEP_MAX_RESPONSE_BYTES" (pos 262_144)

  abbrev pub http_allow_private_network : Bool
  http_allow_private_network = bool_env "HTTP_STEP_ALLOW_PRIVATE_NETWORK" false

  abbrev pub notify_mode : String
  notify_mode = optional "NOTIFY_MODE" "log"

  abbrev pub slack_webhook_url : String
  slack_webhook_url = optional "SLACK_WEBHOOK_URL" ""

  abbrev pub step_max_attempts : ℤ
  step_max_attempts = int_env "STEP_MAX_ATTEMPTS" (pos 2)

  abbrev pub step_retry_base_delay_ms : ℤ
  step_retry_base_delay_ms = int_env "STEP_RETRY_BASE_DELAY_MS" (pos 500)
