-- ===== src/Steps/Http/Vetting.antt =====
-- What passes the guard of http_request: its host is an address, or was resolved to addresses, and
-- all of them are admissible.
use ai_agent_workflow_builde.Common.{
  String, true, ◌||◌, ◌≡◌, ◌⊎◌, refl, sym, subst, Option, none, some, inl, inr, List, [], ◌∷◌, ◌==◌,
  Bool-cases, Option-cases, All, arith,
}
use ai_agent_workflow_builde.Env.{http_allow_private_network}
use ai_agent_workflow_builde.Host.{Host}
use ai_agent_workflow_builde.Network.{Network, Url, IpVersion, no_ip, v4, v6, resolve}
use ai_agent_workflow_builde.Store.{World}
use ai_agent_workflow_builde.Steps.Http.Address.{is_blocked_address}
use ai_agent_workflow_builde.Steps.Http.Admission.{IsAdmissible, is_blocked_address-IsAdmissible}
use ai_agent_workflow_builde.Steps.Http.Guard.{
  check_addresses, resolved, addresses_of, check_url, assert_url_allowed, bare_host,
}
use ai_agent_workflow_builde.Steps.Http.{redirected}
use ai_agent_workflow_builde.Steps.Http.Traffic.{
  Found, IsGuarded, Traffic, Traffic-pure, Traffic-throw, Traffic-le, Traffic-and_then,
}

module _ {N : Type 0} (host : Host N) (net : Network N) where
  IpVersion-cases : (v : IpVersion) → (v ≡ no_ip) ⊎ ((v ≡ v4) ⊎ (v ≡ v6))
  IpVersion-cases no_ip = inl refl
  IpVersion-cases v4 = inr (inl refl)
  IpVersion-cases v6 = inr (inr refl)

  resolved-Traffic :
      (name : String) (answer : Option (List String)) (w : World N)
      → ((addresses : List String) → answer ≡ some addresses → Found host net name addresses)
      → Traffic host net (Found host net name) 0 w (resolved host net name answer w)
  unfolding resolved
  resolved-Traffic name none w h = Traffic-throw host net _ 0 w _
  resolved-Traffic name (some addresses) w h =
      Traffic-pure host net _ 0 w w addresses refl refl (h addresses refl)

  resolve-Traffic :
      (name : String) (w : World N)
      → Traffic host net
          (λ answer.
            (addresses : List String) → answer ≡ some addresses → Found host net name addresses)
          0
          w
          (resolve net name w)
  unfolding resolve
  resolve-Traffic name w =
      Traffic-pure host net _ 0 w _ _ refl refl (λ addresses e. inr (w.tick, e))

  addresses_of-Traffic :
      (name : String) (w : World N)
      → Traffic host net (Found host net name) 0 w (addresses_of host net name w)
  unfolding addresses_of
  addresses_of-Traffic name w = elim (IpVersion-cases (net.is_ip name)) [
    | inl is_none ↦
        rw (is_none, addresses_of)
          (Traffic-and_then host net _ _ 0 0 w _ _ (resolve-Traffic name w)
            (λ answer v found. resolved-Traffic name answer v found))
    | inr (inl is_v4) ↦
        rw (is_v4, addresses_of) (Traffic-pure host net _ 0 w w _ refl refl (inl ((λ e. cc), refl)))
    | inr (inr is_v6) ↦
        rw (is_v6, addresses_of) (Traffic-pure host net _ 0 w w _ refl refl (inl ((λ e. cc), refl)))
  ]

  -- A walk over admissible addresses gives the URL back.
  check_addresses-Traffic :
      (name : String) (addresses : List String) (url : Url) (w : World N)
      → Traffic host net
          (λ u. (u ≡ url) × All (IsAdmissible host net) addresses)
          0
          w
          (check_addresses host net name addresses url w)
  unfolding check_addresses
  check_addresses-Traffic name [] url w = Traffic-pure host net _ 0 w w url refl refl (refl, tt)
  check_addresses-Traffic name (a ∷ rest) url w =
      elim (Bool-cases (is_blocked_address host net a)) [
        | inl blocked ↦ rw (blocked, check_addresses) (Traffic-throw host net _ 0 w _)
        | inr admitted ↦
            rw (admitted, check_addresses)
              (let first = is_blocked_address-IsAdmissible host net a admitted in
                Traffic-le host net _ _ 0 0 w _ (omega arith)
                  (λ u (same, others). (same, (first, others)))
                  (check_addresses-Traffic name rest url w))
      ]

  abbrev Admitted : Url → Type 0
  Admitted url =
      (addresses : List String) × Found host net (bare_host url.hostname) addresses
      × All (IsAdmissible host net) addresses

  check_url-Traffic :
      (url : Url) (w : World N)
      → Traffic host net (IsGuarded host net) 0 w (check_url host net url w)
  unfolding check_url
  check_url-Traffic url w =
      elim (Bool-cases (url.protocol == "http:" || url.protocol == "https:")) [
        | inl scheme ↦ elim (Bool-cases (http_allow_private_network host)) [
          | inl private ↦
              rw (scheme, private, check_url)
                (Traffic-pure host net _ 0 w w url refl refl
                  (record { scheme = scheme; admitted = λ e. cc }))
          | inr public ↦
              rw (scheme, public, check_url)
                (Traffic-and_then host net _ _ 0 0 w _ _
                  (addresses_of-Traffic (bare_host url.hostname) w)
                  (λ addresses v found.
                    Traffic-le host net _ _ 0 0 v _ (omega arith)
                      (λ u (same, all_admitted). record {
                        scheme =
                            subst (λ x. (x.protocol == "http:" || x.protocol == "https:") ≡ true)
                              (sym same) scheme;
                        admitted = λ e.
                            subst (λ x. Admitted x) (sym same) (addresses, found, all_admitted);
                      })
                      (check_addresses-Traffic (bare_host url.hostname) addresses url v)))
        ]
        | inr other_scheme ↦ rw (other_scheme, check_url) (Traffic-throw host net _ 0 w _)
      ]

  pub assert_url_allowed-Traffic :
      (raw : String) (w : World N)
      → Traffic host net (IsGuarded host net) 0 w (assert_url_allowed host net raw w)
  unfolding assert_url_allowed
  assert_url_allowed-Traffic raw w = elim (Option-cases (net.parse_url raw)) [
    | inl malformed ↦ rw (malformed, assert_url_allowed) (Traffic-throw host net _ 0 w _)
    | inr (url, parsed) ↦ rw (parsed, assert_url_allowed) (check_url-Traffic url w)
  ]

  pub redirected-Traffic :
      (location : String) (url : Url) (w : World N)
      → Traffic host net (IsGuarded host net) 0 w (redirected host net location url w)
  unfolding redirected
  redirected-Traffic location url w = elim (Option-cases (net.resolve_url location url)) [
    | inl malformed ↦ rw (malformed, redirected) (Traffic-throw host net _ 0 w _)
    | inr (next, parsed) ↦ rw (parsed, redirected) (assert_url_allowed-Traffic next.href w)
  ]
