-- ===== src/Hasura.antt =====
-- The GraphQL client (packages/engine/src/lib/hasura.ts).
pub mod Refining
use ai_agent_workflow_builde.Common.{
  ⊤, ℕ, zero, suc, ◌+◌, String, Bool, true, false, Option, none, some, ◌==◌, if◌then◌else◌,
  get_or_else,
}
use ai_agent_workflow_builde.Common.Text.{first, size}
use ai_agent_workflow_builde.Json.{
  Json, null, string, object, array, Items, Fields, nil, cons, end, field, lookup, prop, non_null,
  or_null,
}
use ai_agent_workflow_builde.Json.Stringify.{stringify}
use ai_agent_workflow_builde.Domain.{Thrown, graphql_error, other}
use ai_agent_workflow_builde.Env.{required}
use ai_agent_workflow_builde.Host.{Host}
use ai_agent_workflow_builde.Branching.{is_truthy}
use ai_agent_workflow_builde.Network.{
  Network, FetchRequest, Fetched, responded, timed_out, failed, send,
}
use ai_agent_workflow_builde.Store.Program.{Result, ok, err, Program, lift, chain, ◌>>=◌}
use ai_agent_workflow_builde.Steps.Llm.Providers.{read_text, property}
use Prim.Native.String
use Prim.Native.String.{◌++◌}

-- `RequestOptions`; the time-out acts through the outcome of `fetch` only.
pub record RequestOptions : Type 0 where
  pub endpoint : Option String
  pub user_token : Option String
  pub role : Option String

module _ {N : Type 0} (host : Host N) (net : Network N) where
  role_header : String → Fields N
  role_header role = if role == "" then end else field "x-hasura-role" (string role) end

  -- The credential: the user's token, or the admin secret.
  unfoldable pub credentials : RequestOptions → Result (Fields N)
  unfolding role_header
  credentials opts =
      let token = get_or_else opts.user_token "" in
      if token == ""
      then chain (required host "HASURA_GRAPHQL_ADMIN_SECRET")
          (λ secret. ok (field "x-hasura-admin-secret" (string secret) end))
      else ok (
          field "authorization" (string ("Bearer " ++ token))
            (role_header (get_or_else opts.role "")))

  unfoldable pub endpoint_of : Option String → Result String
  endpoint_of none = required host "HASURA_GRAPHQL_ENDPOINT"
  endpoint_of (some endpoint) = ok endpoint

  unfoldable pub graphql_request : String → Json N → String → Fields N → FetchRequest N
  graphql_request query variables endpoint headers = record {
    method = "POST";
    url = endpoint;
    headers = field "content-type" (string "application/json") headers;
    body = some (
        stringify host.show
          (object (field "query" (string query) (field "variables" variables end))));
  }

  abbrev message_text : Option (Json N) → String
  message_text none = ""
  message_text (some m) = host.to_text (some m)

  -- `errors.map((e) => e.message).join('; ')`; a message that is missing is left empty.
  unfoldable pub join_messages : Items N → Result String
  join_messages nil = ok ""
  join_messages (cons e nil) = chain (property "message" e) (λ m. ok (message_text (non_null m)))
  join_messages (cons e (cons f es)) = chain (property "message" e) (λ m.
      chain (join_messages (cons f es)) (λ rest. ok (message_text (non_null m) ++ ("; " ++ rest))))

  -- What has a length that is not zero, and is no array, has no `map`.
  abbrev no_map : Result (Json N)
  no_map = err (other "payload.errors.map is not a function")

  unfoldable pub data_of : ℕ → Json N → Result (Json N)
  unfolding is_truthy
  data_of status payload =
      if is_truthy host (prop "data" payload)
      then ok (or_null (prop "data" payload))
      else err (
          graphql_error ("Hasura returned no data (HTTP " ++ (host.show (host.of_ℕ status) ++ ")")))

  -- From `payload.errors` on.
  unfoldable pub check_errors : ℕ → Json N → Option (Json N) → Result (Json N)
  unfolding join_messages data_of is_truthy
  check_errors status payload (some (array (cons e es))) =
      chain (join_messages (cons e es)) (λ message. err (graphql_error message))
  check_errors status payload (some (string (String.◌∷◌ c s))) = no_map
  check_errors status payload (some (object fs)) =
      if is_truthy host (lookup "length" fs) then no_map else data_of status payload
  check_errors status payload errors = data_of status payload

  -- `payload` of a text.
  unfoldable pub read_payload : ℕ → String → Result (Json N)
  unfolding check_errors
  read_payload status text = elim (host.parse_json text) [
    | none ↦ err (
        graphql_error (
          "Hasura returned non-JSON (HTTP "
          ++ (host.show (host.of_ℕ status) ++ ("): " ++ first 300 text))))
    | some payload ↦ chain (property "errors" payload) (check_errors status payload)
  ]

  -- From the outcome of `fetch` on.
  unfoldable pub graphql_answer : Fetched → Result (Json N)
  unfolding read_payload read_text
  graphql_answer (responded res) = chain (read_text host net res.body) (read_payload res.status)
  graphql_answer timed_out = err (graphql_error "GraphQL request to Hasura failed: timed out")
  graphql_answer (failed reason) =
      err (graphql_error ("GraphQL request to Hasura failed: TypeError: " ++ reason))

  -- `execute`
  unfoldable pub execute_graphql : String → Json N → RequestOptions → Program N (Json N)
  unfolding endpoint_of credentials graphql_request graphql_answer send
  execute_graphql query variables opts = lift (endpoint_of opts.endpoint) >>= λ endpoint.
      lift (credentials opts) >>= λ headers.
      send net (graphql_request query variables endpoint headers) >>= λ outcome.
      lift (graphql_answer outcome)

  -- `adminRequest`
  unfoldable pub admin_request : String → Json N → Option String → Program N (Json N)
  unfolding execute_graphql
  admin_request query variables endpoint =
      execute_graphql query variables
        (record { endpoint = endpoint; user_token = none; role = none })

  -- `userRequest`
  unfoldable pub user_request :
      String → Json N → String → Option String → Option String → Program N (Json N)
  unfolding execute_graphql
  user_request query variables user_token endpoint role =
      execute_graphql query variables
        (record { endpoint = endpoint; user_token = some user_token; role = role })
