-- ===== src/Steps/Http/Reading.antt =====
-- What the reading of a response's body gives: all of it, decoded, or an error.
use Prim.Native.String.{◌++◌ as ◌++ₛ◌}
use mathlib.Core.List.{append-nil, append_assoc}
use ai_agent_workflow_builde.Common.{
  ℕ, ◌≤◌, String, Bool, true, false, ◌≡◌, ◌≢◌, refl, inl, inr, List, [], ◌∷◌, ◌++◌, length,
  length-append, subst, if◌then◌else◌, ltb, get_or_else, Bool-cases, Option-cases, arith,
}
use ai_agent_workflow_builde.Common.Text.{ℤ, pos, includes}
use ai_agent_workflow_builde.Domain.{step_error, other}
use ai_agent_workflow_builde.Host.{Host}
use ai_agent_workflow_builde.Network.{Network, FetchResponse, Body, no_body, chunks}
use ai_agent_workflow_builde.Store.Program.{Result, ok, err, out_of_fuel}
use ai_agent_workflow_builde.Steps.Http.Answer.{
  read_chunks, exceeds, read_capped, parsed_body, integer_text,
}

module _ {N : Type 0} (host : Host N) (net : Network N) where
  read_chunks-Halts :
      (most : ℤ) (seen : List ℕ) (parts : List (List ℕ)) (broken : Bool)
      → read_chunks host net most seen parts broken ≢ out_of_fuel
  unfolding read_chunks
  read_chunks-Halts most seen [] true = λ e. cc
  read_chunks-Halts most seen [] false = λ e. cc
  read_chunks-Halts most seen (part ∷ parts) broken =
      elim (Bool-cases (exceeds (length (seen ++ part)) most)) [
        | inl over ↦ rw (over, read_chunks) (λ e. cc)
        | inr fits ↦ rw (fits, read_chunks) (read_chunks-Halts most (seen ++ part) parts broken)
      ]

  pub read_capped-Halts : (body : Body) (most : ℤ) → read_capped host net body most ≢ out_of_fuel
  unfolding read_capped
  read_capped-Halts no_body most = λ e. cc
  read_capped-Halts (chunks parts broken) most = read_chunks-Halts most [] parts broken

  parsed_json-Halts :
      (res : FetchResponse) (success : Bool) (raw : String)
      → includes (get_or_else res.content_type "") "json" ≡ true
      → parsed_body host net res success raw ≢ out_of_fuel
  unfolding parsed_body
  parsed_json-Halts res success raw json = elim (Option-cases (host.parse_json raw)) [
    | inr (v, read) ↦ rw (json, read, parsed_body) (λ e. cc)
    | inl garbled ↦ elim (Bool-cases success) [
      | inl good ↦ rw (json, garbled, good, parsed_body) (λ e. cc)
      | inr bad ↦ rw (json, garbled, bad, parsed_body) (λ e. cc)
    ]
  ]

  pub parsed_body-Halts :
      (res : FetchResponse) (success : Bool) (raw : String)
      → parsed_body host net res success raw ≢ out_of_fuel
  unfolding parsed_body
  parsed_body-Halts res success raw =
      elim (Bool-cases (includes (get_or_else res.content_type "") "json")) [
        | inl json ↦ parsed_json-Halts res success raw json
        | inr text ↦ rw (text, parsed_body) (λ e. cc)
      ]

  -- The bytes of all chunks.
  abbrev pub joined : List (List ℕ) → List ℕ
  joined [] = []
  joined (part ∷ parts) = part ++ joined parts

  abbrev pub finished : ℕ → Bool → List ℕ → Result String
  finished most broken bytes =
      if ltb most (length bytes)
      then err (
          step_error
            ("http_request response exceeded " ++ₛ (integer_text host net (pos most) ++ₛ " bytes"))
            true)
      else if broken
      then err (other "terminated")
      else ok (net.decode bytes)

  read_chunks-eq :
      (most : ℕ) (seen : List ℕ) (parts : List (List ℕ)) (broken : Bool)
      → length seen ≤ most
      → read_chunks host net (pos most) seen parts broken
        ≡ finished most broken (seen ++ joined parts)
  unfolding read_chunks
  read_chunks-eq most seen [] broken h = rw (append-nil seen, inside) refl
    where
      inside : ltb most (length seen) ≡ false
      inside = ground arith
  read_chunks-eq most seen (part ∷ parts) broken h =
      elim (Bool-cases (exceeds (length (seen ++ part)) (pos most))) [
        | inl over ↦
            let all_over : ltb most (length (seen ++ (part ++ joined parts))) ≡ true =
              let total = length-append seen (part ++ joined parts) in
              let here = length-append seen part in
              let rest = length-append part (joined parts) in ground arith in
            rw (over, all_over, read_chunks) refl
        | inr fits ↦
            rw (fits, read_chunks)
              (subst
                (λ bytes.
                  read_chunks host net (pos most) (seen ++ part) parts broken
                  ≡ finished most broken bytes)
                (append_assoc seen part (joined parts))
                (read_chunks-eq most (seen ++ part) parts broken (ground arith)))
      ]

  -- Reading a body of a known limit decodes the bytes of all chunks together if they are not more
  -- than the limit and the connection holds; if they are more, the step fails for good, wherever the
  -- chunks begin and end and whether or not the connection breaks; else the broken connection is the
  -- error.
  pub read_capped-chunks :
      (most : ℕ) (parts : List (List ℕ)) (broken : Bool)
      → read_capped host net (chunks parts broken) (pos most) ≡ finished most broken (joined parts)
  unfolding read_capped
  read_capped-chunks most parts broken = read_chunks-eq most [] parts broken (omega arith)
