-- ===== src/Steps/Http/Guarding.antt =====
-- Every URL that http_request fetches passed the guard: the first one and those of all redirects.
use ai_agent_workflow_builde.Common.{
  ⊤, ℕ, zero, suc, ◌+◌, String, Bool, true, false, refl, ap, Option, none, some, inl, inr, List, [],
  ◌∷◌, ◌==◌, ◌≢◌, Bool-cases, Option-cases, arith,
}
use ai_agent_workflow_builde.Common.Text.{trim}
use ai_agent_workflow_builde.Json.{Json, null, bool, number, string, array, object, prop, non_null}
use ai_agent_workflow_builde.Env.{http_max_response_bytes}
use ai_agent_workflow_builde.Host.{Host}
use ai_agent_workflow_builde.Network.{
  Network, Url, FetchResponse, Fetched, responded, timed_out, failed, send,
}
use ai_agent_workflow_builde.Store.{World}
use ai_agent_workflow_builde.Executors.{LeavesEngine}
use ai_agent_workflow_builde.Store.Ends.{Halts}
use ai_agent_workflow_builde.Store.Program.{Result, ok, err, out_of_fuel}
use ai_agent_workflow_builde.Steps.Http.{
  request_of, received, redirect_of, hop, fetch_hops, request_url, request_at, execute_http_request,
  method_of, accepted_of, max_redirects,
}
use ai_agent_workflow_builde.Steps.Http.Answer.{concluded, conclude, is_success}
use ai_agent_workflow_builde.Steps.Http.Reading.{read_capped-Halts, parsed_body-Halts}
use ai_agent_workflow_builde.Steps.Http.Vetting.{assert_url_allowed-Traffic, redirected-Traffic}
use ai_agent_workflow_builde.Steps.Http.Traffic.{
  IsGuarded, Traffic, Traffic-pure, Traffic-throw, Traffic-le, Traffic-and_then,
}

module _ {N : Type 0} (host : Host N) (net : Network N) where
  abbrev Any : {A : Type 0} → A → Type 0
  Any a = ⊤

  received-Traffic :
      (cfg : Json N) (method : String) (url : Url) (f : Fetched) (w : World N)
      → Traffic host net Any 0 w (received host net cfg method url f w)
  unfolding received
  received-Traffic cfg method url (responded res) w = Traffic-pure host net _ 0 w w res refl refl tt
  received-Traffic cfg method url timed_out w = Traffic-throw host net _ 0 w _
  received-Traffic cfg method url (failed reason) w = Traffic-throw host net _ 0 w _

  send-Traffic :
      (cfg : Json N) (method : String) (url : Url) (w : World N)
      → IsGuarded host net url
      → Traffic host net Any 1 w (send net (request_of host net cfg method url) w)
  unfolding send request_of
  send-Traffic cfg method url w g = record {
    halted = λ e. cc;
    same_db = refl;
    fetched = (url, g) ∷ [];
    logged = refl;
    few = omega arith;
    returned = λ a v e. tt;
  }

  hop-Traffic :
      (cfg : Json N) (method : String) (url : Url) (w : World N)
      → IsGuarded host net url
      → Traffic host net Any 1 w (hop host net cfg method url w)
  unfolding hop
  hop-Traffic cfg method url w g =
      Traffic-le host net _ _ (1 + 0) 1 w _ (omega arith) (λ a t. t)
        (Traffic-and_then host net _ _ 1 0 w _ _ (send-Traffic cfg method url w g)
          (λ f v t. received-Traffic cfg method url f v))

  -- A round fetches once, and the next one only what passed the guard again.
  fetch_hops-Traffic :
      (cfg : Json N) (method : String) (left : ℕ) (url : Url) (w : World N)
      → IsGuarded host net url
      → Traffic host net Any (left + 1) w (fetch_hops host net cfg method left url w)
  unfolding fetch_hops
  fetch_hops-Traffic cfg method zero url w g =
      Traffic-le host net _ _ (1 + 0) _ w _ (omega arith) (λ a t. t)
        (Traffic-and_then host net Any Any 1 0 w _ _ (hop-Traffic cfg method url w g) (λ res v t.
          elim (Option-cases (redirect_of host net res)) [
            | inl stays ↦ rw (stays) (Traffic-pure host net _ 0 v v _ refl refl t)
            | inr (location, moved) ↦ rw (moved) (Traffic-throw host net _ 0 v _)
          ]))
  fetch_hops-Traffic cfg method (suc left) url w g =
      Traffic-le host net _ _ (1 + (0 + (left + 1))) _ w _ (omega arith) (λ a t. t)
        (Traffic-and_then host net Any Any 1 (0 + (left + 1)) w _ _ (hop-Traffic cfg method url w g)
          (λ res v t. elim (Option-cases (redirect_of host net res)) [
            | inl stays ↦ rw (stays) (Traffic-pure host net _ _ v v _ refl refl t)
            | inr (location, moved) ↦ rw (moved) (
                Traffic-and_then host net _ Any 0 (left + 1) v _ _
                  (redirected-Traffic host net location url v)
                  (λ next u h. fetch_hops-Traffic cfg method left next u h))
          ]))

  concluded-Traffic :
      (res : FetchResponse) (url : Url) (duration : N) (success : Bool) (raw : String)
      (parsed : Option (Json N)) (w : World N)
      → Traffic host net Any 0 w (concluded host net res url duration success raw parsed w)
  unfolding concluded
  concluded-Traffic res url duration true raw parsed w =
      Traffic-pure host net _ 0 w w _ refl refl tt
  concluded-Traffic res url duration false raw parsed w = Traffic-throw host net _ 0 w _

  lift-Traffic :
      {A : Type 0} (r : Result A) (w : World N) → r ≢ out_of_fuel → Traffic host net Any 0 w (r, w)
  lift-Traffic (ok a) w h = Traffic-pure host net _ 0 w w a refl refl tt
  lift-Traffic (err e) w h = Traffic-throw host net _ 0 w e
  lift-Traffic out_of_fuel w h = absurd (h refl)

  conclude-Traffic :
      (accepted : List (Json N)) (started : ℕ) (answered_by : FetchResponse × Url) (w : World N)
      → Traffic host net Any 0 w (conclude host net accepted started answered_by w)
  unfolding conclude
  conclude-Traffic accepted started (res, url) w =
      Traffic-and_then host net Any Any 0 0 w _ _
        (lift-Traffic _ w (read_capped-Halts host net res.body (http_max_response_bytes host)))
        (λ raw v t.
          Traffic-and_then host net Any Any 0 0 v _ _
            (lift-Traffic _ v
              (parsed_body-Halts host net res (is_success host net res accepted) raw))
            (λ parsed u t.
              concluded-Traffic res url _ (is_success host net res accepted) raw parsed u))

  method_of-Halts : (m : Option (Json N)) → method_of host net m ≢ out_of_fuel
  unfolding method_of
  method_of-Halts none = λ e. cc
  method_of-Halts (some null) = λ e. cc
  method_of-Halts (some (bool b)) = λ e. cc
  method_of-Halts (some (number n)) = λ e. cc
  method_of-Halts (some (string s)) = λ e. cc
  method_of-Halts (some (array vs)) = λ e. cc
  method_of-Halts (some (object fs)) = λ e. cc

  accepted_of-Halts : (a : Option (Json N)) → accepted_of host net a ≢ out_of_fuel
  unfolding accepted_of
  accepted_of-Halts none = λ e. cc
  accepted_of-Halts (some null) = λ e. cc
  accepted_of-Halts (some (bool b)) = λ e. cc
  accepted_of-Halts (some (number n)) = λ e. cc
  accepted_of-Halts (some (string s)) = λ e. cc
  accepted_of-Halts (some (array vs)) = λ e. cc
  accepted_of-Halts (some (object fs)) = λ e. cc

  request_url-Traffic :
      (cfg : Json N) (raw_url : String) (w : World N)
      → Traffic host net Any 4 w (request_url host net cfg raw_url w)
  unfolding request_url
  request_url-Traffic cfg raw_url w =
      Traffic-le host net Any Any (0 + (0 + (0 + ((max_redirects + 1) + 0)))) 4 w _ (omega arith)
        (λ a t. t)
        (Traffic-and_then host net Any Any 0 _ w _ _
          (lift-Traffic _ w (method_of-Halts (non_null (prop "method" cfg))))
          (λ method w1 t.
            Traffic-and_then host net Any Any 0 _ w1 _ _
              (lift-Traffic _ w1 (accepted_of-Halts (non_null (prop "accept_status" cfg))))
              (λ accepted w2 t.
                Traffic-and_then host net _ Any 0 _ w2 _ _
                  (assert_url_allowed-Traffic host net raw_url w2)
                  (λ url w3 g.
                    Traffic-and_then host net Any Any (max_redirects + 1) 0 w3 _ _
                      (fetch_hops-Traffic cfg method max_redirects url w3 g)
                      (λ answered_by w4 t.
                        conclude-Traffic accepted (host.time w3.tick) answered_by w4)))))

  execute_http_request-Traffic :
      (cfg : Json N) (w : World N) → Traffic host net Any 4 w (execute_http_request host net cfg w)
  unfolding execute_http_request request_at
  execute_http_request-Traffic cfg w = go (prop "url" cfg)
    where
      go : (url : Option (Json N)) → Traffic host net Any 4 w (request_at host net cfg url w)
      go none = Traffic-throw host net _ 4 w _
      go (some null) = Traffic-throw host net _ 4 w _
      go (some (bool b)) = Traffic-throw host net _ 4 w _
      go (some (number n)) = Traffic-throw host net _ 4 w _
      go (some (array vs)) = Traffic-throw host net _ 4 w _
      go (some (object fs)) = Traffic-throw host net _ 4 w _
      go (some (string raw_url)) = elim (Bool-cases (trim raw_url == "")) [
        | inl blank ↦ rw (blank, request_at) (Traffic-throw host net _ 4 w _)
        | inr given ↦ rw (given, request_at) (request_url-Traffic cfg raw_url w)
      ]

  pub execute_http_request-LeavesEngine :
      (cfg : Json N) → LeavesEngine (execute_http_request host net cfg)
  execute_http_request-LeavesEngine cfg w =
      let t = execute_http_request-Traffic cfg w in ap (λ d. d.engine) t.same_db

  pub execute_http_request-Halts : (cfg : Json N) → Halts (execute_http_request host net cfg)
  execute_http_request-Halts cfg w = let t = execute_http_request-Traffic cfg w in t.halted
