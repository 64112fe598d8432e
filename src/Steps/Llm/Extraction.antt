-- ===== src/Steps/Llm/Extraction.antt =====
-- `extractJson` of packages/engine/src/steps/llm.ts: the JSON value in a completion.
use ai_agent_workflow_builde.Common.{
  ℕ, ◌+◌, String, Bool, ◌&&◌, ◌||◌, Option, none, some, ◌==◌, eqb, if◌then◌else◌,
}
use ai_agent_workflow_builde.Common.Text.{trim, trim_start}
use ai_agent_workflow_builde.Json.{Json, null}
use ai_agent_workflow_builde.Host.{Host}
use Prim.Native.Char.{Char, code}

-- A letter, in upper or lower case; the lower case first.
abbrev pub is_letter : ℕ → Char → Bool
is_letter l c = eqb (code c) l || eqb (code c + 32) l

-- `(?:json)?`
unfoldable pub skip_json : String → String
skip_json (String.◌∷◌ a (String.◌∷◌ b (String.◌∷◌ c (String.◌∷◌ d s)))) =
    if is_letter b'j' a && (is_letter b's' b && (is_letter b'o' c && is_letter b'n' d))
    then s
    else String.◌∷◌ a (String.◌∷◌ b (String.◌∷◌ c (String.◌∷◌ d s)))
skip_json s = s

abbrev pub is_tick : Char → Bool
is_tick c = eqb (code c) b'`'

-- What follows a fence at the front.
unfoldable pub after_ticks : String → Option String
after_ticks (String.◌∷◌ a (String.◌∷◌ b (String.◌∷◌ c s))) =
    if is_tick a && (is_tick b && is_tick c) then some s else none
after_ticks s = none

-- What follows the first fence.
unfoldable pub after_fence : String → Option String
unfolding after_ticks
after_fence String.[] = none
after_fence (String.◌∷◌ c s) = elim (after_ticks (String.◌∷◌ c s)) [
  | some rest ↦ some rest
  | none ↦ after_fence s
]

-- What stands before the first fence.
unfoldable pub before_fence : String → Option String
unfolding after_ticks
before_fence String.[] = none
before_fence (String.◌∷◌ c s) =
    let rest = before_fence s in
    elim (after_ticks (String.◌∷◌ c s)) [
      | some _ ↦ some ""
      | none ↦ elim rest [ none ↦ none | some r ↦ some (String.◌∷◌ c r) ]
    ]

-- The first group of /```(?:json)?\s*([\s\S]*?)```/i. Only the first fence can begin a match: where
-- a later one is closed, the first is closed by the same ticks.
unfoldable pub fenced : String → Option String
unfolding after_fence before_fence skip_json trim_start
fenced text = elim (after_fence text) [
  | none ↦ none
  | some rest ↦ before_fence (trim_start (skip_json rest))
]

-- From the first opening brace on.
unfoldable pub from_brace : String → Option String
from_brace String.[] = none
from_brace (String.◌∷◌ c s) = if eqb (code c) b'{' then some (String.◌∷◌ c s) else from_brace s

-- Up to the last closing brace.
unfoldable pub to_brace : String → Option String
to_brace String.[] = none
to_brace (String.◌∷◌ c s) = elim (to_brace s) [
  | some r ↦ some (String.◌∷◌ c r)
  | none ↦ if eqb (code c) b'}' then some (String.◌∷◌ c String.[]) else none
]

-- From the first opening brace up to the last closing one, if that comes later.
unfoldable pub braced : String → Option String
unfolding from_brace to_brace
braced s = elim (from_brace s) [ none ↦ none | some t ↦ to_brace t ]

module _ {N : Type 0} (host : Host N) where
  -- One round of the loop over the candidates.
  unfoldable pub parse_candidate : Option String → Option (Json N)
  unfolding braced trim
  parse_candidate none = none
  parse_candidate (some candidate) =
      if candidate == "" then none else elim (host.parse_json (trim candidate)) [
        | some v ↦ some v
        | none ↦ elim (braced (trim candidate)) [
          | none ↦ none
          | some object_text ↦ host.parse_json object_text
        ]
      ]

  -- `extractJson`
  unfoldable pub extract_json : String → Json N
  unfolding parse_candidate fenced
  extract_json text = elim (parse_candidate (fenced text)) [
    | some v ↦ v
    | none ↦ elim (parse_candidate (some text)) [ some v ↦ v | none ↦ null ]
  ]
