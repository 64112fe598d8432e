-- ===== src/Steps/Llm/Outcomes.antt =====
-- What the providers' answers can be taken for: a result that is not the stub's, or an error.
use ai_agent_workflow_builde.Common.{
  ⊤, ℕ, String, true, false, ◌≡◌, refl, Option, none, some, inl, inr, ◌==◌, Bool-cases,
  Option-cases, get_or_else,
}
use ai_agent_workflow_builde.Json.{
  Json, null, bool, number, string, array, object, Items, nil, cons, prop_of,
}
use ai_agent_workflow_builde.Host.{Host}
use ai_agent_workflow_builde.Network.{Network, Body, no_body, chunks}
use ai_agent_workflow_builde.Store.Program.{Result, ok, err, out_of_fuel, chain}
use ai_agent_workflow_builde.Steps.Llm.Providers.{
  LlmResult, read_text, parse_reply, is_ok, is_text, property, first_of,
}
use ai_agent_workflow_builde.Steps.Llm.OpenAi.{completed_as, content_of, openai_result}
use ai_agent_workflow_builde.Steps.Llm.Gemini.{
  join_parts, candidate_text, gemini_completed, gemini_result, no_text,
}

-- A computed outcome that has a value with Q or an error.
abbrev pub Yields : {A : Type 0} → (A → Type 0) → Result A → Type 0
Yields Q (ok a) = Q a
Yields Q (err e) = ⊤
Yields Q out_of_fuel = ⊥

pub Yields-chain :
    {A B : Type 0} (P : A → Type 0) (Q : B → Type 0) (r : Result A) (f : A → Result B)
    → Yields P r
    → ((a : A) → P a → Yields Q (f a))
    → Yields Q (chain r f)
Yields-chain P Q (ok a) f h k = k a h
Yields-chain P Q (err e) f h k = tt
Yields-chain P Q out_of_fuel f h k = absurd h

abbrev pub Any : {A : Type 0} → A → Type 0
Any a = ⊤

module _ {N : Type 0} (host : Host N) (net : Network N) where
  abbrev pub Unstubbed : LlmResult N → Type 0
  Unstubbed r = r.stubbed ≡ false

  property-Yields : (key : String) (v : Json N) → Yields Any (property key v)
  property-Yields key null = tt
  property-Yields key (bool b) = tt
  property-Yields key (number n) = tt
  property-Yields key (string s) = tt
  property-Yields key (array vs) = tt
  property-Yields key (object fs) = tt

  completed_as-Yields :
      (cfg : Json N) (provider : String) (choice : Option (Json N)) (text : String) (reply : Json N)
      → Yields Unstubbed (completed_as host net cfg provider choice text reply)
  unfolding completed_as
  completed_as-Yields cfg provider choice text reply =
      elim (Bool-cases (is_text "length" (prop_of "finish_reason" choice))) [
        | inl cut ↦ rw (cut, completed_as) tt
        | inr whole ↦ rw (whole, completed_as) refl
      ]

  content_of-Yields :
      (cfg : Json N) (provider : String) (choice content : Option (Json N)) (reply : Json N)
      → Yields Unstubbed (content_of host net cfg provider choice content reply)
  unfolding content_of
  content_of-Yields cfg provider choice none reply = tt
  content_of-Yields cfg provider choice (some null) reply = tt
  content_of-Yields cfg provider choice (some (bool b)) reply = tt
  content_of-Yields cfg provider choice (some (number n)) reply = tt
  content_of-Yields cfg provider choice (some (array vs)) reply = tt
  content_of-Yields cfg provider choice (some (object fs)) reply = tt
  content_of-Yields cfg provider choice (some (string text)) reply =
      completed_as-Yields cfg provider choice text reply

  pub openai_result-Yields :
      (cfg : Json N) (provider : String) (reply : Json N)
      → Yields Unstubbed (openai_result host net cfg provider reply)
  unfolding openai_result
  openai_result-Yields cfg provider reply =
      Yields-chain Any Unstubbed (property "choices" reply) _ (property-Yields "choices" reply)
        (λ choices t.
          let choice = first_of choices in
          content_of-Yields cfg provider choice (prop_of "content" (prop_of "message" choice))
            reply)

  join_parts-Yields : (vs : Items N) → Yields Any (join_parts host net vs)
  unfolding join_parts
  join_parts-Yields nil = tt
  join_parts-Yields (cons null vs) = tt
  join_parts-Yields (cons (bool b) vs) =
      Yields-chain Any Any (join_parts host net vs) _ (join_parts-Yields vs) (λ a h. tt)
  join_parts-Yields (cons (number n) vs) =
      Yields-chain Any Any (join_parts host net vs) _ (join_parts-Yields vs) (λ a h. tt)
  join_parts-Yields (cons (string s) vs) =
      Yields-chain Any Any (join_parts host net vs) _ (join_parts-Yields vs) (λ a h. tt)
  join_parts-Yields (cons (array us) vs) =
      Yields-chain Any Any (join_parts host net vs) _ (join_parts-Yields vs) (λ a h. tt)
  join_parts-Yields (cons (object fs) vs) =
      Yields-chain Any Any (join_parts host net vs) _ (join_parts-Yields vs) (λ a h. tt)

  candidate_text-Yields : (parts : Option (Json N)) → Yields Any (candidate_text host net parts)
  unfolding candidate_text
  candidate_text-Yields none = tt
  candidate_text-Yields (some null) = tt
  candidate_text-Yields (some (bool b)) = tt
  candidate_text-Yields (some (number n)) = tt
  candidate_text-Yields (some (string s)) = tt
  candidate_text-Yields (some (object fs)) = tt
  candidate_text-Yields (some (array vs)) =
      Yields-chain Any Any (join_parts host net vs) _ (join_parts-Yields vs) (λ a h. tt)

  no_text-Yields : (candidate : Option (Json N)) → Yields Unstubbed (no_text host net candidate)
  unfolding no_text
  no_text-Yields candidate = tt

  gemini_completed-Yields :
      (cfg reply : Json N) (candidate : Option (Json N)) (text : Option String)
      → Yields Unstubbed (gemini_completed host net cfg reply candidate text)
  unfolding gemini_completed
  gemini_completed-Yields cfg reply candidate text =
      elim (Bool-cases (is_text "MAX_TOKENS" (prop_of "finishReason" candidate))) [
        | inl cut ↦ rw (cut, gemini_completed) tt
        | inr whole ↦ elim (Bool-cases (get_or_else text "" == "")) [
          | inl empty ↦ rw (whole, empty, gemini_completed) (no_text-Yields candidate)
          | inr given ↦ rw (whole, given, gemini_completed) refl
        ]
      ]

  pub gemini_result-Yields :
      (cfg reply : Json N) → Yields Unstubbed (gemini_result host net cfg reply)
  unfolding gemini_result
  gemini_result-Yields cfg reply =
      Yields-chain Any Unstubbed (property "candidates" reply) _
        (property-Yields "candidates" reply)
        (λ candidates t.
          let candidate = first_of candidates in
          let parts = prop_of "parts" (prop_of "content" candidate) in
          Yields-chain Any Unstubbed (candidate_text host net parts) _ (candidate_text-Yields parts)
            (λ text t. gemini_completed-Yields cfg reply candidate text))

  pub read_text-Yields : (b : Body) → Yields Any (read_text host net b)
  unfolding read_text
  read_text-Yields no_body = tt
  read_text-Yields (chunks parts true) = tt
  read_text-Yields (chunks parts false) = tt

  pub parse_reply-Yields :
      (status : ℕ) (provider text : String) → Yields Any (parse_reply host net status provider text)
  unfolding parse_reply
  parse_reply-Yields status provider text = elim (Bool-cases (is_ok status)) [
    | inr failing ↦ rw (failing, parse_reply) tt
    | inl good ↦ elim (Option-cases (host.parse_json text)) [
      | inl garbled ↦ rw (good, garbled, parse_reply) tt
      | inr (v, read) ↦ rw (good, read, parse_reply) tt
    ]
  ]
