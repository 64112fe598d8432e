-- ===== src/Hasura/Refining.antt =====
-- The client carries out the requests that the engine's model sends: it gives the data of an answer,
-- and everything else that a GraphQL server can do becomes one kind of error.
use ai_agent_workflow_builde.Common.{
  ⊤, ℕ, String, true, ◌≡◌, refl, ap, Option, none, some, List, [], ◌∷◌,
}
use ai_agent_workflow_builde.Json.{
  Json, string, array, object, Items, Fields, nil, cons, field, end, lookup,
}
use ai_agent_workflow_builde.Domain.{graphql_error}
use ai_agent_workflow_builde.Host.{Host, Delivery, answered, refused, lost}
use ai_agent_workflow_builde.Env.{required}
use ai_agent_workflow_builde.Branching.{is_truthy}
use ai_agent_workflow_builde.Network.{
  Network, FetchResponse, Fetched, responded, timed_out, failed, send,
}
use ai_agent_workflow_builde.Store.{Db, World}
use ai_agent_workflow_builde.Store.Program.{Result, ok, err, chain, deliver}
use ai_agent_workflow_builde.Steps.Llm.Providers.{read_text}
use ai_agent_workflow_builde.Hasura.{
  join_messages, check_errors, data_of, read_payload, graphql_answer, admin_request,
  execute_graphql, credentials, endpoint_of, graphql_request,
}

-- Both have the same value, or both are errors of the client.
abbrev pub Agrees : {A : Type 0} → Result A → Result A → Type 0
Agrees (ok a) (ok b) = a ≡ b
Agrees (err (graphql_error m)) (err (graphql_error n)) = ⊤
Agrees p q = ⊥

module _ {N : Type 0} (host : Host N) (net : Network N) where
  -- The errors of an answer: objects, at least one.
  abbrev pub errors_of : Fields N → List (Fields N) → Items N
  errors_of e [] = cons (object e) nil
  errors_of e (f ∷ fs) = cons (object e) (errors_of f fs)

  -- A response whose text is this object.
  pub record HasPayload (res : FetchResponse) (fs : Fields N) : Type 0 where
    pub text : String
    pub received : read_text host net res.body ≡ ok text
    pub parsed : host.parse_json text ≡ some (object fs)

  -- How a GraphQL server answers an operation that was performed with some data, or that the
  -- database refused: with data and no errors, or with errors. Otherwise no answer arrives.
  abbrev pub Represents : Fetched → Delivery → Option (Json N) → Type 0
  Represents (responded res) answered (some v) =
      (fs : Fields N) × HasPayload res fs
      × (lookup "errors" fs ≡ none)
      × (lookup "data" fs ≡ some v)
      × (is_truthy host (some v) ≡ true)
  Represents (responded res) answered none =
      (fs : Fields N) × (e : Fields N) × (es : List (Fields N)) × HasPayload res fs
      × (lookup "errors" fs ≡ some (array (errors_of e es)))
  Represents (responded res) refused r = ⊥
  Represents (responded res) lost r = ⊥
  Represents f answered r = ⊥
  Represents f refused r = ⊤
  Represents f lost r = ⊤

  chain-ok :
      (r : Result String) (g : String → String)
      → (rest : String) × (r ≡ ok rest)
      → (message : String) × (chain r (λ x. ok (g x)) ≡ ok message)
  chain-ok r g (rest, h) = (g rest, ap (λ x. chain x (λ y. ok (g y))) h)

  join_messages-ok :
      (e : Fields N) (es : List (Fields N))
      → (message : String) × (join_messages host net (errors_of e es) ≡ ok message)
  unfolding join_messages
  join_messages-ok e [] = (_, refl)
  join_messages-ok e (f ∷ []) = (_, refl)
  join_messages-ok e (f ∷ (g ∷ es)) =
      chain-ok (join_messages host net (errors_of f (g ∷ es))) _ (join_messages-ok f (g ∷ es))

  errors-graphql_error :
      (status : ℕ) (payload : Json N) (e : Fields N) (es : List (Fields N))
      → (message : String) × (check_errors host net status payload (some (array (errors_of e es)))
          ≡ err (graphql_error message))
  unfolding check_errors
  errors-graphql_error status payload e [] =
      let (message, h) = join_messages-ok e [] in
      (message, ap (λ r. chain r (λ m. err (graphql_error m))) h)
  errors-graphql_error status payload e (f ∷ fs) =
      let (message, h) = join_messages-ok e (f ∷ fs) in
      (message, ap (λ r. chain r (λ m. err (graphql_error m))) h)

  answer-payload :
      (res : FetchResponse) (fs : Fields N) (o : Option (Json N)) (r : Result (Json N))
      → HasPayload res fs
      → lookup "errors" fs ≡ o
      → check_errors host net res.status (object fs) o ≡ r
      → graphql_answer host net (responded res) ≡ r
  unfolding graphql_answer read_payload
  answer-payload res fs o r h e c =
      let received = h.received in
      let parsed = h.parsed in rw (received, parsed, e, graphql_answer, read_payload) c

  data-ok :
      (status : ℕ) (fs : Fields N) (v : Json N)
      → lookup "data" fs ≡ some v
      → is_truthy host (some v) ≡ true
      → check_errors host net status (object fs) none ≡ ok v
  unfolding check_errors data_of
  data-ok status fs v e h = rw (e, check_errors, data_of) (rw (h) refl)

  -- What the operation gives back, with the database that it leaves.
  abbrev pub performed : Option (Json N) → Db N → Option (Json N × Db N)
  performed none d = none
  performed (some v) d = some (v, d)

  -- No response arrived.
  abbrev IsUnanswered : Fetched → Type 0
  IsUnanswered (responded res) = ⊥
  IsUnanswered timed_out = ⊤
  IsUnanswered (failed reason) = ⊤

  unanswered-graphql_error :
      (f : Fetched)
      → IsUnanswered f
      → Agrees (graphql_answer host net f) (err (graphql_error "GraphQL request to Hasura failed"))
  unfolding graphql_answer
  unanswered-graphql_error (responded res) h = absurd h
  unanswered-graphql_error timed_out h = tt
  unanswered-graphql_error (failed reason) h = tt

  graphql_answer-Agrees :
      (f : Fetched) (delivery : Delivery) (r : Option (Json N)) (d : Db N) (w : World N)
      → Represents f delivery r
      → Agrees (graphql_answer host net f) (deliver host delivery (performed r d) w).0
  graphql_answer-Agrees (responded res) answered (some v) d w
        (fs, payload, clean, data_field, truthy) =
      rw
        (answer-payload res fs none (ok v) payload clean
          (data-ok res.status fs v data_field truthy))
        refl
  graphql_answer-Agrees (responded res) answered none d w (fs, e, es, payload, errors) =
      let (message, h) = errors-graphql_error res.status (object fs) e es in
      rw
        (answer-payload res fs (some (array (errors_of e es))) (err (graphql_error message)) payload
          errors h)
        tt
  graphql_answer-Agrees (responded res) refused r d w h = absurd h
  graphql_answer-Agrees (responded res) lost r d w h = absurd h
  graphql_answer-Agrees timed_out answered r d w h = absurd h
  graphql_answer-Agrees timed_out refused r d w h = unanswered-graphql_error timed_out tt
  graphql_answer-Agrees timed_out lost r d w h = unanswered-graphql_error timed_out tt
  graphql_answer-Agrees (failed reason) answered r d w h = absurd h
  graphql_answer-Agrees (failed reason) refused r d w h =
      unanswered-graphql_error (failed reason) tt
  graphql_answer-Agrees (failed reason) lost r d w h = unanswered-graphql_error (failed reason) tt

  -- Let the endpoint and the admin secret be configured, and let `fetch` have the outcome that a
  -- GraphQL server gives to an operation: data if it was performed and answered, errors if the
  -- database refused it, and no answer if the request or its answer was lost. Then adminRequest
  -- refines the request of the model: both give the same data, or both throw a GraphQL error.
  pub admin_request-refines :
      (query : String) (variables : Json N) (endpoint secret : String) (delivery : Delivery)
      (r : Option (Json N)) (d : Db N) (w : World N)
      → required host "HASURA_GRAPHQL_ENDPOINT" ≡ ok endpoint
      → required host "HASURA_GRAPHQL_ADMIN_SECRET" ≡ ok secret
      → Represents
          (net.fetch w.tick (
            graphql_request host net query variables endpoint
              (field "x-hasura-admin-secret" (string secret) end)))
          delivery
          r
      → Agrees
          (admin_request host net query variables none w).0
          (deliver host delivery (performed r d) w).0
  unfolding admin_request execute_graphql endpoint_of credentials send
  admin_request-refines query variables endpoint secret delivery r d w url key h =
      rw (url, key, admin_request, execute_graphql, endpoint_of, credentials)
        (graphql_answer-Agrees _ delivery r d w h)
