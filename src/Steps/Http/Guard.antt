-- ===== src/Steps/Http/Guard.antt =====
-- `assertUrlAllowed` of packages/engine/src/steps/http.ts.
use Prim.Native.String.{◌++◌}
use Prim.Native.Char.{code}
use ai_agent_workflow_builde.Common.{
  String, true, false, ◌||◌, Option, none, some, List, [], ◌∷◌, ◌==◌, eqb, if◌then◌else◌,
}
use ai_agent_workflow_builde.Domain.{step_error}
use ai_agent_workflow_builde.Env.{http_allow_private_network}
use ai_agent_workflow_builde.Host.{Host}
use ai_agent_workflow_builde.Network.{Network, Url, no_ip, v4, v6, resolve}
use ai_agent_workflow_builde.Store.Program.{Program, pure, throw, ◌>>=◌}
use ai_agent_workflow_builde.Steps.Http.Address.{is_blocked_address}

abbrev pub permanently : {N A : Type 0} → String → Program N A
permanently message = throw (step_error message true)

-- `hostname.replace(/^\[|\]$/g, '')`
unfoldable pub without_last_bracket : String → String
without_last_bracket String.[] = ""
without_last_bracket (String.◌∷◌ c String.[]) =
    if eqb (code c) b']' then "" else String.◌∷◌ c String.[]
without_last_bracket (String.◌∷◌ c (String.◌∷◌ d s)) =
    String.◌∷◌ c (without_last_bracket (String.◌∷◌ d s))

unfoldable pub bare_host : String → String
unfolding without_last_bracket
bare_host String.[] = ""
bare_host (String.◌∷◌ c s) =
    if eqb (code c) b'[' then without_last_bracket s else without_last_bracket (String.◌∷◌ c s)

module _ {N : Type 0} (host : Host N) (net : Network N) where
  blocked_message : String → String → String
  blocked_message name address =
      "http_request blocked: "
      ++ (name
          ++ (" resolves to non-public address "
              ++ (address
                  ++ ". Set HTTP_STEP_ALLOW_PRIVATE_NETWORK=true only in a trusted local environment.")))

  -- The loop over the addresses.
  unfoldable pub check_addresses : String → List String → Url → Program N Url
  unfolding blocked_message is_blocked_address
  check_addresses name [] url = pure url
  check_addresses name (address ∷ rest) url =
      if is_blocked_address host net address
      then permanently (blocked_message name address)
      else check_addresses name rest url

  -- The answer of the name server.
  unfoldable pub resolved : String → Option (List String) → Program N (List String)
  resolved name none = throw (step_error ("http_request could not resolve host " ++ name) false)
  resolved name (some addresses) = pure addresses

  unfoldable pub addresses_of : String → Program N (List String)
  unfolding resolve resolved
  addresses_of name = elim (net.is_ip name) [
    | no_ip ↦ resolve net name >>= resolved name
    | v4 ↦ pure (name ∷ [])
    | v6 ↦ pure (name ∷ [])
  ]

  unfoldable pub check_url : Url → Program N Url
  unfolding check_addresses addresses_of bare_host
  check_url url =
      if url.protocol == "http:" || url.protocol == "https:"
      then if http_allow_private_network host
        then pure url
        else (addresses_of (bare_host url.hostname) >>= λ addresses.
            check_addresses (bare_host url.hostname) addresses url)
      else permanently ("http_request only permits http/https, got " ++ url.protocol)

  -- `assertUrlAllowed`
  unfoldable pub assert_url_allowed : String → Program N Url
  unfolding check_url
  assert_url_allowed raw = elim (net.parse_url raw) [
    | none ↦ permanently ("http_request has a malformed url: " ++ raw)
    | some url ↦ check_url url
  ]
