-- ===== src/Steps/Http/Answer.antt =====
-- What becomes of a response (packages/engine/src/steps/http.ts): `readCapped`, and the end of
-- `executeHttpRequest`.
use Prim.Native.String.{◌++◌}
use ai_agent_workflow_builde.Common.{
  ℕ, suc, String, Bool, true, false, not, ◌&&◌, ◌||◌, Option, none, some, List, [], ◌∷◌, eqb, leb,
  ltb, if◌then◌else◌, any, get_or_else, length,
}
use mathlib.Core.List.{◌++◌ as append}
use ai_agent_workflow_builde.Common.Text.{ℤ, pos, negsuc, includes, first}
use ai_agent_workflow_builde.Json.{Json, null, bool, number, string, object, end, field, or_null}
use ai_agent_workflow_builde.Domain.{StepExecutionResult, step_error, other}
use ai_agent_workflow_builde.Env.{http_max_response_bytes}
use ai_agent_workflow_builde.Host.{Host}
use ai_agent_workflow_builde.Network.{Network, Url, FetchResponse, Body, no_body, chunks}
use ai_agent_workflow_builde.Store.Program.{Result, ok, err, Program, pure, throw, lift, now, ◌>>=◌}

abbrev pub exceeds : ℕ → ℤ → Bool
exceeds total (pos most) = ltb most total
exceeds total (negsuc _) = true

module _ {N : Type 0} (host : Host N) (net : Network N) where
  abbrev pub is_number : N → Json N → Bool
  is_number n (number m) = host.num_eq n m
  is_number n _ = false

  pub integer_text : ℤ → String
  integer_text (pos n) = host.show (host.of_ℕ n)
  integer_text (negsuc n) = "-" ++ host.show (host.of_ℕ (suc n))

  -- The loop of `readCapped`: `seen` are the bytes so far.
  unfoldable pub read_chunks : ℤ → List ℕ → List (List ℕ) → Bool → Result String
  unfolding integer_text
  read_chunks most seen [] broken =
      if broken then err (other "terminated") else ok (net.decode seen)
  read_chunks most seen (part ∷ parts) broken =
      let all_bytes = append seen part in
      if exceeds (length all_bytes) most
      then err
          (step_error ("http_request response exceeded " ++ (integer_text most ++ " bytes")) true)
      else read_chunks most all_bytes parts broken

  -- `readCapped`
  unfoldable pub read_capped : Body → ℤ → Result String
  unfolding read_chunks
  read_capped no_body most = ok ""
  read_capped (chunks parts broken) most = read_chunks most [] parts broken

  pub is_success : FetchResponse → List (Json N) → Bool
  is_success res accepted =
      (leb 200 res.status && ltb res.status 300) || any (is_number (host.of_ℕ res.status)) accepted

  status_text : FetchResponse → String
  status_text res = host.show (host.of_ℕ res.status)

  -- `JSON.parse` of the body, where its type says JSON; `none` is null.
  unfoldable pub parsed_body : FetchResponse → Bool → String → Result (Option (Json N))
  unfolding status_text
  parsed_body res success raw =
      if includes (get_or_else res.content_type "") "json"
      then elim (host.parse_json raw) [
        | some v ↦ ok (some v)
        | none ↦
            if success
            then err (
                step_error
                  ("http_request got HTTP "
                    ++ (status_text res
                        ++ (" with content-type json but an unparseable body: " ++ first 200 raw)))
                  false)
            else ok none
      ]
      else ok none

  -- A status that will not change on a retry.
  unfoldable pub is_permanent_status : ℕ → Bool
  is_permanent_status s = leb 400 s && (ltb s 500 && (not (eqb s 408) && not (eqb s 429)))

  -- `parsed === null`
  abbrev text_unless : Option (Json N) → String → Json N
  text_unless none raw = string (first 4000 raw)
  text_unless (some null) raw = string (first 4000 raw)
  text_unless (some v) raw = null

  output_of : FetchResponse → Url → N → String → Option (Json N) → StepExecutionResult N
  output_of res url duration raw parsed = record {
    output = object (
        field "status" (number (host.of_ℕ res.status)) (
          field "ok" (bool true) (
            field "url" (string url.href) (
              field "duration_ms" (number duration) (
                field "headers"
                  (object (field "content-type" (string (get_or_else res.content_type "")) end))
                  (field "json" (or_null parsed) (field "text" (text_unless parsed raw) end)))))));
    branch = none;
  }

  unfoldable pub concluded :
      FetchResponse → Url → N → Bool → String → Option (Json N) → Program N (StepExecutionResult N)
  unfolding output_of status_text is_permanent_status
  concluded res url duration success raw parsed =
      if success
      then pure (output_of res url duration raw parsed)
      else throw (
          step_error
            ("http_request got HTTP "
              ++ (status_text res ++ (" from " ++ (url.href ++ (": " ++ first 300 raw)))))
            (is_permanent_status res.status))

  -- From the response on.
  unfoldable pub conclude :
      List (Json N) → ℕ → FetchResponse × Url → Program N (StepExecutionResult N)
  unfolding concluded read_capped parsed_body is_success
  conclude accepted started (res, url) = do
    finished ← now host
    raw ← lift (read_capped res.body (http_max_response_bytes host))
    parsed ← lift (parsed_body res (is_success res accepted) raw)
    concluded res url (net.minus finished started) (is_success res accepted) raw parsed
