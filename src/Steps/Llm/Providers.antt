-- ===== src/Steps/Llm/Providers.antt =====
-- What the calls of the providers share (packages/engine/src/steps/llm.ts: `postJson`), and what
-- their answers are taken for.
use ai_agent_workflow_builde.Common.{
  ℕ, String, Bool, false, ◌&&◌, ◌||◌, Option, none, some, List, [], ◌∷◌, ◌++◌, ◌==◌, eqb, leb, ltb,
  if◌then◌else◌, get_or_else,
}
use Prim.Native.String.{◌++◌ as ◌++ₛ◌}
use ai_agent_workflow_builde.Common.Text.{first}
use ai_agent_workflow_builde.Json.{
  Json, null, number, string, array, object, Fields, field, lookup, get_item, prop, non_null,
}
use ai_agent_workflow_builde.Json.Stringify.{stringify}
use ai_agent_workflow_builde.Domain.{Thrown, step_error, other}
use ai_agent_workflow_builde.Env.{llm_model, llm_timeout_ms}
use ai_agent_workflow_builde.Host.{Host}
use ai_agent_workflow_builde.Network.{
  Network, FetchRequest, Fetched, responded, timed_out, failed, Body, no_body, chunks, send,
}
use ai_agent_workflow_builde.Store.Program.{Result, ok, err, Program, throw, lift, ◌>>=◌}
use ai_agent_workflow_builde.Steps.Http.Answer.{integer_text}

pub record LlmResult (N : Type 0) : Type 0 where
  pub text : String
  pub json : Json N
  pub model : Json N
  pub provider : String
  pub stubbed : Bool
  pub usage : Json N

abbrev pub is_permanent : ℕ → Bool
is_permanent status =
    eqb status 400 || (eqb status 401 || (eqb status 403 || (eqb status 404 || eqb status 422)))

-- `res.ok`
abbrev pub is_ok : ℕ → Bool
is_ok status = leb 200 status && ltb status 300

-- `v?.[0]`
abbrev pub first_of : {N : Type 0} → Option (Json N) → Option (Json N)
first_of (some (array vs)) = get_item vs 0
first_of (some (object fs)) = lookup "0" fs
first_of (some (string (String.◌∷◌ c s))) = some (string (String.◌∷◌ c String.[]))
first_of _ = none

-- `v.key` of a value that may be null, which throws.
abbrev pub property : {N : Type 0} → String → Json N → Result (Option (Json N))
property key null = err (other "Cannot read properties of null")
property key v = ok (prop key v)

abbrev pub is_text : {N : Type 0} → String → Option (Json N) → Bool
is_text s (some (string t)) = t == s
is_text s _ = false

module _ {N : Type 0} (host : Host N) (net : Network N) where
  unfoldable pub classify : ℕ → String → String → Thrown
  classify status provider body =
      step_error
        (provider
          ++ₛ (" returned HTTP " ++ₛ (host.show (host.of_ℕ status) ++ₛ (": " ++ₛ first 400 body))))
        (is_permanent status)

  -- `await res.text()`
  unfoldable pub read_text : Body → Result String
  read_text no_body = ok ""
  read_text (chunks parts broken) =
      if broken then err (other "terminated") else ok (net.decode (all_bytes parts))
    where
      all_bytes : List (List ℕ) → List ℕ
      all_bytes [] = []
      all_bytes (part ∷ parts) = part ++ all_bytes parts

  unfoldable pub parse_reply : ℕ → String → String → Result (Json N)
  unfolding classify
  parse_reply status provider text =
      if is_ok status
      then elim (host.parse_json text) [
        | some v ↦ ok v
        | none ↦
            err
              (step_error (provider ++ₛ (" returned unparseable JSON: " ++ₛ first 300 text)) false)
      ]
      else err (classify status provider text)

  -- From the outcome of `fetch` on.
  unfoldable pub read_reply : String → Fetched → Program N (Json N)
  unfolding read_text parse_reply
  read_reply provider (responded res) =
      lift (read_text res.body) >>= λ text. lift (parse_reply res.status provider text)
  read_reply provider timed_out = throw (
      step_error
        (provider
          ++ₛ (" request timed out after "
              ++ₛ (integer_text host net (llm_timeout_ms host) ++ₛ "ms")))
        false)
  read_reply provider (failed reason) =
      throw (step_error (provider ++ₛ (" request failed: TypeError: " ++ₛ reason)) false)

  abbrev pub post : String → Fields N → Json N → FetchRequest N
  post url headers payload = record {
    method = "POST";
    url = url;
    headers = field "content-type" (string "application/json") headers;
    body = some (stringify host.show payload);
  }

  -- `postJson`, with the timeout that both callers give
  unfoldable pub post_json : String → Fields N → Json N → String → Program N (Json N)
  unfolding send read_reply
  post_json url headers payload provider =
      send net (post url headers payload) >>= read_reply provider

  -- `cfg.model ?? config.llmModel()`
  abbrev pub model_of : Json N → Json N
  model_of cfg = get_or_else (non_null (prop "model" cfg)) (string (llm_model host))

  -- `cfg.max_tokens ?? n`
  abbrev pub max_tokens_of : Json N → ℕ → Json N
  max_tokens_of cfg n = get_or_else (non_null (prop "max_tokens" cfg)) (number (host.of_ℕ n))

  abbrev pub temperature_of : Json N → Json N
  temperature_of cfg = get_or_else (non_null (prop "temperature" cfg)) (number (net.literal "0.2"))

  abbrev pub text_value : Option (Json N) → String
  text_value v = host.to_text v
