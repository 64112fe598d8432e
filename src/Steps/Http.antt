-- ===== src/Steps/Http.antt =====
-- The step http_request (packages/engine/src/steps/http.ts): the guard against requests to private
-- addresses, the redirect loop, and what becomes of the response.
pub mod Address
pub mod Guard
pub mod Answer
pub mod Vetting
pub mod Guarding
pub mod Ranges
pub mod Admission
pub mod Reading
pub mod Traffic
use Prim.Native.String.{◌++◌}
use Prim.Native.String
use Prim.Native.Char.{code}
use ai_agent_workflow_builde.Common.{
  ⊤, ℕ, zero, suc, ◌+◌, String, Bool, true, false, not, ◌&&◌, ◌||◌, Option, none, some, List, [],
  ◌∷◌, ◌==◌, eqb, leb, ltb, if◌then◌else◌, any, get_or_else, length,
}
use mathlib.Core.List.{◌++◌ as append}
use ai_agent_workflow_builde.Common.Text.{ℤ, pos, negsuc, trim, includes, last_char, first}
use ai_agent_workflow_builde.Json.{
  Json, null, bool, number, string, array, object, Items, Fields, end, field, nil, cons, insert,
  items, prop, non_null, or_null,
}
use ai_agent_workflow_builde.Json.Stringify.{stringify}
use ai_agent_workflow_builde.Domain.{StepExecutionResult, Thrown, step_error, other}
use ai_agent_workflow_builde.Env.{
  http_allow_private_network, http_max_response_bytes, http_timeout_ms,
}
use ai_agent_workflow_builde.Host.{Host}
use ai_agent_workflow_builde.Network.{
  Network, Url, IpVersion, no_ip, v4, v6, FetchRequest, FetchResponse, Fetched, responded,
  timed_out, failed, Body, no_body, chunks, send, resolve,
}
use ai_agent_workflow_builde.Store.Program.{
  Result, ok, err, Program, pure, throw, lift, now, ◌>>=◌, ◌>>◌,
}
use ai_agent_workflow_builde.Steps.Http.Address.{is_blocked_address}
use ai_agent_workflow_builde.Steps.Http.Guard.{permanently, assert_url_allowed}
use ai_agent_workflow_builde.Steps.Http.Answer.{conclude}

abbrev pub max_redirects : ℕ
max_redirects = 3

module _ {N : Type 0} (host : Host N) (net : Network N) where
  -- `(cfg.method ?? 'GET').toUpperCase()`
  method_of : Option (Json N) → Result String
  method_of (some (string s)) = ok (net.to_upper s)
  method_of none = ok (net.to_upper "GET")
  method_of (some v) = err (other "toUpperCase is not a function")

  -- `new Set(cfg.accept_status ?? [])`; the characters of a text are no numbers.
  accepted_of : Option (Json N) → Result (List (Json N))
  accepted_of none = ok []
  accepted_of (some (array vs)) = ok (items vs)
  accepted_of (some (string s)) = ok []
  accepted_of (some v) = err (other "accept_status is not iterable")

  -- `...v` into an object; the parts of an array or a text have their index as key.
  spread_items : ℕ → Items N → Fields N → Fields N
  spread_items i nil out = out
  spread_items i (cons v vs) out = spread_items (suc i) vs (insert (host.show (host.of_ℕ i)) v out)

  spread_text : ℕ → String → Fields N → Fields N
  spread_text i String.[] out = out
  spread_text i (String.◌∷◌ c s) out =
      spread_text (suc i) s (insert (host.show (host.of_ℕ i)) (string (String.◌∷◌ c String.[])) out)

  spread_fields : Fields N → Fields N → Fields N
  spread_fields end out = out
  spread_fields (field k v fs) out = spread_fields fs (insert k v out)

  spread : Option (Json N) → Fields N → Fields N
  unfolding spread_items spread_text spread_fields
  spread (some (object fs)) out = spread_fields fs out
  spread (some (array vs)) out = spread_items 0 vs out
  spread (some (string s)) out = spread_text 0 s out
  spread _ out = out

  abbrev has_body : String → Option (Json N) → Bool
  has_body method none = false
  has_body method (some v) = not (method == "GET") && not (method == "HEAD")

  body_text : Option (Json N) → Option String
  body_text none = none
  body_text (some (string s)) = some s
  body_text (some v) = some (stringify host.show v)

  abbrev base_headers : Fields N
  base_headers =
      field "accept" (string "application/json, text/plain;q=0.9, */*;q=0.8")
        (field "user-agent" (string "ai-workflow-builder/1.0 (+http_request step)") end)

  -- The request of one hop.
  unfoldable pub request_of : Json N → String → Url → FetchRequest N
  unfolding spread body_text
  request_of cfg method url =
      let body = prop "body" cfg in
      let headers = spread (prop "headers" cfg) base_headers in
      record {
        method = method;
        url = url.href;
        headers =
            if has_body method body
            then insert "content-type" (string "application/json") headers
            else headers;
        body = if has_body method body then body_text body else none;
      }

  timeout_of : Json N → Json N
  timeout_of cfg = get_or_else (non_null (prop "timeout_ms" cfg)) (number (http_timeout host))
    where
      http_timeout : Host N → N
      http_timeout h = elim (http_timeout_ms h) [
        | pos n ↦ h.of_ℕ n
        | negsuc n ↦ net.minus 0 (suc n)
      ]

  pub timeout_message : Json N → String → Url → String
  unfolding timeout_of
  timeout_message cfg method url =
      "http_request timed out after "
      ++ (host.to_text (some (timeout_of cfg))
          ++ ("ms (" ++ (method ++ (" " ++ (url.href ++ ")")))))

  received : Json N → String → Url → Fetched → Program N FetchResponse
  unfolding timeout_message
  received cfg method url (responded res) = pure res
  received cfg method url timed_out = throw (step_error (timeout_message cfg method url) false)
  received cfg method url (failed reason) =
      throw (step_error ("http_request network failure: TypeError: " ++ reason) false)

  -- `res.headers.get('location')`, where it makes the loop go on.
  unfoldable pub redirect_of : FetchResponse → Option String
  redirect_of res =
      if leb 300 res.status && ltb res.status 400
      then elim res.location [ none ↦ none | some l ↦ if l == "" then none else some l ]
      else none

  -- `assertUrlAllowed(new URL(location, currentUrl).href)`
  unfoldable pub redirected : String → Url → Program N Url
  unfolding assert_url_allowed
  redirected location url = elim (net.resolve_url location url) [
    | none ↦ throw (other "Invalid URL")
    | some next ↦ assert_url_allowed host net next.href
  ]

  unfoldable pub hop : Json N → String → Url → Program N FetchResponse
  unfolding send request_of received
  hop cfg method url = send net (request_of cfg method url) >>= received cfg method url

  -- The rounds of the loop, `left` of them after this one.
  unfoldable pub fetch_hops : Json N → String → ℕ → Url → Program N (FetchResponse × Url)
  unfolding hop redirect_of
  fetch_hops cfg method zero url = hop cfg method url >>= λ res. elim (redirect_of res) [
    | none ↦ pure (res, url)
    | some location ↦ permanently "http_request exceeded 3 redirects"
  ]
  fetch_hops cfg method (suc left) url = hop cfg method url >>= λ res. elim (redirect_of res) [
    | none ↦ pure (res, url)
    | some location ↦ redirected location url >>= fetch_hops cfg method left
  ]

  -- From a URL that is a text.
  unfoldable pub request_url : Json N → String → Program N (StepExecutionResult N)
  unfolding conclude fetch_hops assert_url_allowed method_of accepted_of
  request_url cfg raw_url = do
    method ← lift (method_of (non_null (prop "method" cfg)))
    accepted ← lift (accepted_of (non_null (prop "accept_status" cfg)))
    url ← assert_url_allowed host net raw_url
    started ← now host
    answered_by ← fetch_hops cfg method max_redirects url
    conclude host net accepted started answered_by

  -- `executeHttpRequest`, by the property `url`
  request_at : Json N → Option (Json N) → Program N (StepExecutionResult N)
  unfolding request_url trim
  request_at cfg (some (string raw_url)) =
      if trim raw_url == ""
      then permanently "http_request requires a \"url\""
      else request_url cfg raw_url
  request_at cfg _ = permanently "http_request requires a \"url\""

  unfoldable pub execute_http_request : Json N → Program N (StepExecutionResult N)
  unfolding request_at
  execute_http_request cfg = request_at cfg (prop "url" cfg)
