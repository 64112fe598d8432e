-- ===== src/Network.antt =====
-- The platform that the outbound steps use: URLs, name resolution, `fetch`, text decoding. What
-- depends on the outside takes the number of interactions that went before.
use ai_agent_workflow_builde.Common.{ℕ, ◌+◌, String, Bool, Option, List, ◌∷◌}
use ai_agent_workflow_builde.Json.{Json, Fields}
use ai_agent_workflow_builde.Store.Program.{Program, ok}

pub record Url : Type 0 where
  pub protocol : String
  pub hostname : String
  pub href : String

-- `isIP` of node:net.
pub data IpVersion : Type 0 where
  no_ip v4 v6 : IpVersion

pub record FetchRequest (N : Type 0) : Type 0 where
  pub method : String
  pub url : String
  pub headers : Fields N
  pub body : Option String

-- The chunks of a response's body, and whether reading fails after the last.
pub data Body : Type 0 where
  no_body : Body
  chunks : (parts : List (List ℕ)) (broken : Bool) → Body

pub record FetchResponse : Type 0 where
  pub status : ℕ
  pub location : Option String
  pub content_type : Option String
  pub body : Body

-- A network failure is a TypeError, here with its message; a time-out is an AbortError.
pub data Fetched : Type 0 where
  responded : FetchResponse → Fetched
  timed_out : Fetched
  failed : (reason : String) → Fetched

pub record Network (N : Type 0) : Type 0 where
  -- `new URL(s)` and `new URL(s, base)`; `none` if they throw.
  pub parse_url : String → Option Url
  pub resolve_url : String → Url → Option Url
  pub is_ip : String → IpVersion
  -- `lookup(name, { all: true })`
  pub resolve_host : ℕ → String → Option (List String)
  pub fetch : ℕ → FetchRequest N → Fetched
  -- `new TextDecoder().decode(bytes)`
  pub decode : List ℕ → String
  pub to_upper : String → String
  pub encode_uri : String → String
  -- A number as the code writes it, `a + b`, `a * b`, and `a - b` of two times.
  pub literal : String → N
  pub num_add : N → N → N
  pub num_mul : N → N → N
  pub minus : ℕ → ℕ → N
  -- `Number(v)`, `Math.max(a, b)`, `Math.round(a)`, and `(a - b) / 60_000` of two times.
  pub to_number : Json N → N
  pub num_max : N → N → N
  pub num_round : N → N
  pub minutes_between : ℕ → ℕ → N

module _ {N : Type 0} (net : Network N) where
  -- `await fetch(…)`
  unfoldable pub send : FetchRequest N → Program N Fetched
  send q w = (ok (net.fetch w.tick q), record w { tick = w.tick + 1; sent = q.url ∷ w.sent })

  -- `await lookup(name, …)`
  unfoldable pub resolve : String → Program N (Option (List String))
  resolve name w = (ok (net.resolve_host w.tick name), record w { tick = w.tick + 1 })
