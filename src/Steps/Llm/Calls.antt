-- ===== src/Steps/Llm/Calls.antt =====
-- An llm_call sends one request at most, leaves the database alone and ends; its output is marked
-- as stubbed exactly when the provider needs a key and there is none.
use ai_agent_workflow_builde.Common.{
  ◌+◌, String, Bool, true, false, not, ◌&&◌, ◌≡◌, ◌⊎◌, refl, ap, subst, Option, none, some, inl,
  inr, ◌∷◌, ◌==◌, Bool-cases, if◌then◌else◌,
}
use ai_agent_workflow_builde.Common.Text.{trim}
use ai_agent_workflow_builde.Json.{
  Json, null, bool, number, string, array, object, prop, non_null, Fields,
}
use ai_agent_workflow_builde.Domain.{StepExecutionResult, Thrown}
use ai_agent_workflow_builde.Env.{llm_api_key, ollama_base_url}
use ai_agent_workflow_builde.Host.{Host}
use ai_agent_workflow_builde.Network.{Network, Fetched, responded, timed_out, failed, send}
use ai_agent_workflow_builde.Store.{World}
use ai_agent_workflow_builde.Store.Program.{Result, ok, err, out_of_fuel, Program, chain, and_then}
use ai_agent_workflow_builde.Steps.Llm.{
  completion_of, call_provider, provider_of, execute_llm_prompt, execute_llm_call, prompt_of,
  llm_output, stub_completion, is_keyless,
}
use ai_agent_workflow_builde.Executors.{LeavesEngine}
use ai_agent_workflow_builde.Store.Ends.{Halts}
use ai_agent_workflow_builde.Steps.Llm.Outcomes.{
  Yields, Any, Yields-chain, Unstubbed, openai_result-Yields, gemini_result-Yields,
  read_text-Yields, parse_reply-Yields,
}
use ai_agent_workflow_builde.Steps.Llm.Providers.{
  LlmResult, read_text, parse_reply, read_reply, post_json, post,
}
use ai_agent_workflow_builde.Steps.Llm.OpenAi.{openai_result, call_openai_compatible}
use ai_agent_workflow_builde.Steps.Llm.Gemini.{gemini_result, call_gemini}

and_then-lift :
    {N A B : Type 0} (r : Result A) (f : A → Result B) (v : World N)
    → and_then (r, v) (λ a u. (f a, u)) ≡ (chain r f, v)
and_then-lift (ok a) f v = refl
and_then-lift (err e) f v = refl
and_then-lift out_of_fuel f v = refl

if_elim : {A : Type 0} (P : A → Type 0) (b : Bool) {x y : A} → P x → P y → P (if b then x else y)
if_elim P true h k = h
if_elim P false h k = k

module _ {N : Type 0} where
  -- A program that ran from `w` to the outcome `p`, with one request at most.
  pub record IsOneCall {A : Type 0} (Q : A → Type 0) (w : World N) (p : Result A × World N)
      : Type 0 where
    pub outcome : Yields Q p.0
    pub same_db : p.1.db ≡ w.db
    pub requests : (p.1.sent ≡ w.sent) ⊎ ((url : String) × (p.1.sent ≡ url ∷ w.sent))

  module _ {A : Type 0} (Q : A → Type 0) where
    IsOneCall-lift : (r : Result A) (w : World N) → Yields Q r → IsOneCall Q w (r, w)
    IsOneCall-lift r w h = record { outcome = h; same_db = refl; requests = inl refl }

  module _ {A B : Type 0} (P : A → Type 0) (Q : B → Type 0) where
    -- After a call, a computation.
    IsOneCall-compute :
        (w : World N) (p : Result A × World N) (f : A → Result B)
        → IsOneCall P w p
        → ((a : A) → P a → Yields Q (f a))
        → IsOneCall Q w (and_then p (λ a v. (f a, v)))
    IsOneCall-compute w (ok a, v) f h k = record {
      outcome = k a h.outcome;
      same_db = h.same_db;
      requests = h.requests;
    }
    IsOneCall-compute w (err e, v) f h k = record {
      outcome = tt;
      same_db = h.same_db;
      requests = h.requests;
    }
    IsOneCall-compute w (out_of_fuel, v) f h k = absurd h.outcome

module _ {N : Type 0} (host : Host N) (net : Network N) where
  -- What is made of an answer leaves the world alone.
  read_reply-Still :
      (provider : String) (f : Fetched) (v : World N)
      → Yields Any (read_reply host net provider f v).0 × ((read_reply host net provider f v).1 ≡ v)
  unfolding read_reply
  read_reply-Still provider timed_out v = (tt, refl)
  read_reply-Still provider (failed reason) v = (tt, refl)
  read_reply-Still provider (responded res) v =
      rw
        (
          and_then-lift (read_text host net res.body) (parse_reply host net res.status provider) v,
          read_reply,
        )
        (
          Yields-chain Any Any (read_text host net res.body) _ (read_text-Yields host net res.body)
              (λ text t. parse_reply-Yields host net res.status provider text),
          refl,
        )

  post_json-IsOneCall :
      (url : String) (headers : Fields N) (payload : Json N) (provider : String) (w : World N)
      → IsOneCall Any w (post_json host net url headers payload provider w)
  unfolding post_json send
  post_json-IsOneCall url headers payload provider w =
      let q = post host net url headers payload in
      let v : World N = record w { tick = w.tick + 1; sent = url ∷ w.sent } in
      let still = read_reply-Still provider (net.fetch w.tick q) v in
      record {
        outcome = still.0;
        same_db = ap (λ u. u.db) still.1;
        requests = inr (url, ap (λ u. u.sent) still.1);
      }

  call_openai_compatible-IsOneCall :
      (cfg : Json N) (prompt base_url provider : String) (w : World N)
      → IsOneCall
          (Unstubbed host net)
          w
          (call_openai_compatible host net cfg prompt base_url provider w)
  unfolding call_openai_compatible
  call_openai_compatible-IsOneCall cfg prompt base_url provider w =
      IsOneCall-compute Any (Unstubbed host net) w _ (openai_result host net cfg provider)
        (post_json-IsOneCall _ _ _ provider w)
        (λ reply t. openai_result-Yields host net cfg provider reply)

  call_gemini-IsOneCall :
      (cfg : Json N) (prompt : String) (w : World N)
      → IsOneCall (Unstubbed host net) w (call_gemini host net cfg prompt w)
  unfolding call_gemini
  call_gemini-IsOneCall cfg prompt w =
      IsOneCall-compute Any (Unstubbed host net) w _ (gemini_result host net cfg)
        (post_json-IsOneCall _ _ _ "gemini" w) (λ reply t. gemini_result-Yields host net cfg reply)

  call_provider-IsOneCall :
      (cfg : Json N) (prompt provider : String) (w : World N)
      → IsOneCall (Unstubbed host net) w (call_provider host net cfg prompt provider w)
  unfolding call_provider
  call_provider-IsOneCall cfg prompt provider w =
      if_elim Good (provider == "groq")
        (call_openai_compatible-IsOneCall cfg prompt "https://api.groq.com/openai/v1" "groq" w)
        (if_elim Good (provider == "openrouter")
          (call_openai_compatible-IsOneCall cfg prompt "https://openrouter.ai/api/v1" "openrouter"
            w)
          (if_elim Good (provider == "ollama")
            (call_openai_compatible-IsOneCall cfg prompt (ollama_base_url host) "ollama" w)
            (if_elim Good (provider == "gemini") (call_gemini-IsOneCall cfg prompt w)
              (IsOneCall-lift (Unstubbed host net) _ w tt))))
    where
      Good : Program N (LlmResult N) → Type 0
      Good p = IsOneCall (Unstubbed host net) w (p w)

  abbrev is_stubbed : String → Bool
  is_stubbed provider = not (is_keyless provider) && llm_api_key host == ""

  completion_of-IsOneCall :
      (cfg : Json N) (prompt provider : String) (w : World N)
      → IsOneCall
          (λ r. r.stubbed ≡ is_stubbed provider)
          w
          (completion_of host net cfg prompt provider w)
  unfolding completion_of stub_completion
  completion_of-IsOneCall cfg prompt provider w = elim (Bool-cases (is_stubbed provider)) [
    | inl keyless ↦ rw (keyless, completion_of) (IsOneCall-lift (λ r. r.stubbed ≡ true) _ w refl)
    | inr called ↦ rw (called, completion_of) (call_provider-IsOneCall cfg prompt provider w)
  ]

  abbrev Marked : String → StepExecutionResult N → Type 0
  Marked provider r = prop "stubbed" r.output ≡ some (bool (is_stubbed provider))

  abbrev provider_in : Json N → Result String
  provider_in cfg = provider_of host net (non_null (prop "provider" cfg))

  execute_llm_prompt-Marked :
      (cfg : Json N) (prompt provider : String) (w : World N)
      → provider_in cfg ≡ ok provider
      → IsOneCall (Marked provider) w (execute_llm_prompt host net cfg prompt w)
  unfolding execute_llm_prompt llm_output
  execute_llm_prompt-Marked cfg prompt provider w h = elim (Bool-cases (trim prompt == "")) [
    | inl blank ↦ rw (blank, execute_llm_prompt) (IsOneCall-lift (Marked provider) _ w tt)
    | inr given ↦
        rw (given, h, execute_llm_prompt)
          (IsOneCall-compute (λ r. r.stubbed ≡ is_stubbed provider) (Marked provider) w _
            (λ r. ok (llm_output host net cfg r)) (completion_of-IsOneCall cfg prompt provider w)
            (λ r e. ap (λ b. some (bool b)) e))
  ]

  provider_of-cases :
      (v : Option (Json N))
      → ((provider : String) × (provider_of host net v ≡ ok provider))
        ⊎ ((e : Thrown) × (provider_of host net v ≡ err e))
  unfolding provider_of
  provider_of-cases none = inl (_, refl)
  provider_of-cases (some (string s)) = inl (_, refl)
  provider_of-cases (some null) = inr (_, refl)
  provider_of-cases (some (bool b)) = inr (_, refl)
  provider_of-cases (some (number n)) = inr (_, refl)
  provider_of-cases (some (array vs)) = inr (_, refl)
  provider_of-cases (some (object fs)) = inr (_, refl)

  forget :
      {A : Type 0} (Q : A → Type 0) (w : World N) (p : Result A × World N)
      → IsOneCall Q w p
      → IsOneCall Any w p
  forget Q w (ok a, v) h = record { outcome = tt; same_db = h.same_db; requests = h.requests }
  forget Q w (err e, v) h = record { outcome = tt; same_db = h.same_db; requests = h.requests }
  forget Q w (out_of_fuel, v) h = absurd h.outcome

  execute_llm_prompt-IsOneCall :
      (cfg : Json N) (prompt : String) (w : World N)
      → IsOneCall Any w (execute_llm_prompt host net cfg prompt w)
  unfolding execute_llm_prompt
  execute_llm_prompt-IsOneCall cfg prompt w = elim (Bool-cases (trim prompt == "")) [
    | inl blank ↦ rw (blank, execute_llm_prompt) (IsOneCall-lift Any _ w tt)
    | inr given ↦ elim (provider_of-cases (non_null (prop "provider" cfg))) [
      | inl (provider, known) ↦
          forget (Marked provider) w _ (execute_llm_prompt-Marked cfg prompt provider w known)
      | inr (e, failing) ↦ rw (given, failing, execute_llm_prompt) (IsOneCall-lift Any _ w tt)
    ]
  ]

  -- An llm_call comes to an end, changes nothing in the database and sends one request at most,
  -- whatever its configuration and whatever the provider answers.
  pub execute_llm_call-IsOneCall :
      (cfg : Json N) (w : World N) → IsOneCall Any w (execute_llm_call host net cfg w)
  unfolding execute_llm_call
  execute_llm_call-IsOneCall cfg w = execute_llm_prompt-IsOneCall cfg (prompt_of host net cfg) w

  -- What a step llm_call outputs is marked as stubbed exactly when its provider needs a key and
  -- LLM_API_KEY is unset: the stub stands in for no provider that could be called, and no answer of
  -- a provider is passed off as the stub's.
  pub execute_llm_call-stubbed :
      (cfg : Json N) (provider : String) (w w' : World N) (r : StepExecutionResult N)
      → provider_of host net (non_null (prop "provider" cfg)) ≡ ok provider
      → execute_llm_call host net cfg w ≡ (ok r, w')
      → prop "stubbed" r.output ≡ some (bool (not (is_keyless provider) && llm_api_key host == ""))
  unfolding execute_llm_call
  execute_llm_call-stubbed cfg provider w w' r known h =
      let call = execute_llm_prompt-Marked cfg (prompt_of host net cfg) provider w known in
      subst (λ (p : Result (StepExecutionResult N) × World N). Yields (Marked provider) p.0) h
        call.outcome

  pub execute_llm_call-LeavesEngine : (cfg : Json N) → LeavesEngine (execute_llm_call host net cfg)
  execute_llm_call-LeavesEngine cfg w =
      let call = execute_llm_call-IsOneCall cfg w in ap (λ d. d.engine) call.same_db

  pub execute_llm_call-Halts : (cfg : Json N) → Halts (execute_llm_call host net cfg)
  execute_llm_call-Halts cfg w =
      let call = execute_llm_call-IsOneCall cfg w in λ e. subst (λ r. Yields Any r) e call.outcome
