-- ===== src/Steps/Llm/Fencing.antt =====
-- What `extractJson` finds in a completion that wraps a JSON text in prose and a fence.
use ai_agent_workflow_builde.Common.{
  String, Bool, true, false, ◌||◌, ◌≡◌, refl, sym, ap, none, some, inl, inr, ◌==◌, Bool-cases,
  eq_iff,
}
use ai_agent_workflow_builde.Common.Text.{trim, trim_start, trim_end, is_space}
use ai_agent_workflow_builde.Json.{Json}
use ai_agent_workflow_builde.Host.{Host}
use ai_agent_workflow_builde.Steps.Llm.Extraction.{
  is_tick, after_ticks, after_fence, before_fence, skip_json, fenced, parse_candidate, extract_json,
}
use Prim.Native.Char.{Char}
use Prim.Native.String.{◌++◌}
use text.Mathlib.TextLemmas.{nil-append, cons-append}

abbrev pub has_tick : String → Bool
has_tick String.[] = false
has_tick (String.◌∷◌ c s) = is_tick c || has_tick s

or-left : (p q : Bool) → p || q ≡ false → p ≡ false
or-left true q h = h
or-left false q h = refl

or-right : (p q : Bool) → p || q ≡ false → q ≡ false
or-right true q h = cc
or-right false q h = h

after_ticks-none : (c : Char) (s : String) → is_tick c ≡ false → after_ticks (String.◌∷◌ c s) ≡ none
unfolding after_ticks
after_ticks-none c String.[] h = refl
after_ticks-none c (String.◌∷◌ d String.[]) h = refl
after_ticks-none c (String.◌∷◌ d (String.◌∷◌ e s)) h = rw (h) refl

abbrev tick : String → String
tick s = String.◌∷◌ "`" s

-- Three back ticks before a text.
abbrev pub fence : String → String
fence s = tick (tick (tick s))

after_fence-append :
    (before rest : String)
    → has_tick before ≡ false
    → after_fence (before ++ fence rest) ≡ some rest
unfolding after_fence after_ticks
after_fence-append String.[] rest h = rw (nil-append (fence rest)) refl
after_fence-append (String.◌∷◌ c s) rest h =
    let skipped = after_ticks-none c (s ++ fence rest) (or-left (is_tick c) (has_tick s) h) in
    rw (cons-append c s (fence rest), skipped, after_fence)
      (after_fence-append s rest (or-right (is_tick c) (has_tick s) h))

before_fence-append :
    (body rest : String) → has_tick body ≡ false → before_fence (body ++ fence rest) ≡ some body
unfolding before_fence after_ticks
before_fence-append String.[] rest h = rw (nil-append (fence rest)) refl
before_fence-append (String.◌∷◌ c s) rest h =
    let skipped = after_ticks-none c (s ++ fence rest) (or-left (is_tick c) (has_tick s) h) in
    let inner = before_fence-append s rest (or-right (is_tick c) (has_tick s) h) in
    rw (cons-append c s (fence rest), skipped, inner, before_fence) refl

trim_start-append :
    (body rest : String) → trim_start (body ++ fence rest) ≡ trim_start body ++ fence rest
unfolding trim_start
trim_start-append String.[] rest = rw (nil-append (fence rest)) refl
trim_start-append (String.◌∷◌ c s) rest = elim (Bool-cases (is_space c)) [
  | inl space ↦ rw (cons-append c s (fence rest), space, trim_start) (trim_start-append s rest)
  | inr solid ↦
      rw (cons-append c s (fence rest), solid, trim_start) (sym (cons-append c s (fence rest)))
]

has_tick-trim_start : (s : String) → has_tick s ≡ false → has_tick (trim_start s) ≡ false
unfolding trim_start
has_tick-trim_start String.[] h = refl
has_tick-trim_start (String.◌∷◌ c s) h = elim (Bool-cases (is_space c)) [
  | inl space ↦ rw (space) (has_tick-trim_start s (or-right (is_tick c) (has_tick s) h))
  | inr solid ↦ rw (solid) h
]

trim_start-trim_start : (s : String) → trim_start (trim_start s) ≡ trim_start s
unfolding trim_start
trim_start-trim_start String.[] = refl
trim_start-trim_start (String.◌∷◌ c s) = elim (Bool-cases (is_space c)) [
  | inl space ↦ rw (space) (trim_start-trim_start s)
  | inr solid ↦ rw (solid, solid) refl
]

-- The word that may follow the first fence.
abbrev pub json_tag : String → String
json_tag s = String.◌∷◌ "j" (String.◌∷◌ "s" (String.◌∷◌ "o" (String.◌∷◌ "n" s)))

fenced-append :
    (before body after : String)
    → has_tick before ≡ false
    → has_tick body ≡ false
    → fenced (before ++ fence (json_tag (body ++ fence after))) ≡ some (trim_start body)
unfolding fenced skip_json
fenced-append before body after hb hj =
    let found = after_fence-append before (json_tag (body ++ fence after)) hb in
    let trimmed = trim_start-append body after in
    let closed = before_fence-append (trim_start body) after (has_tick-trim_start body hj) in
    rw (found, trimmed, fenced) closed

module _ {N : Type 0} (host : Host N) where
  parse_candidate-trim_start :
      (body : String) (v : Json N)
      → (trim body == "") ≡ false
      → host.parse_json (trim body) ≡ some v
      → parse_candidate host (some (trim_start body)) ≡ some v
  unfolding parse_candidate trim trim_end
  parse_candidate-trim_start body v solid parsed = elim (Bool-cases (trim_start body == "")) [
    | inl blank ↦
        let empty : trim body ≡ "" = ap trim_end ((eq_iff (trim_start body) "").0 blank) in
        let same : (trim body == "") ≡ true = (eq_iff (trim body) "").1 empty in cc
    | inr given ↦ rw (given, trim_start-trim_start body, parsed, parse_candidate) refl
  ]

  -- A JSON text in a fence marked json, with white space around it and any prose before and after,
  -- is unwrapped: extractJson gives its value, where neither the prose before nor the text has a
  -- back tick.
  pub extract_json-fence :
      (before body after : String) (v : Json N)
      → has_tick before ≡ false
      → has_tick body ≡ false
      → (trim body == "") ≡ false
      → host.parse_json (trim body) ≡ some v
      → extract_json host (before ++ fence (json_tag (body ++ fence after))) ≡ v
  unfolding extract_json
  extract_json-fence before body after v hb hj solid parsed =
      rw
        (
          fenced-append before body after hb hj,
          parse_candidate-trim_start body v solid parsed,
          extract_json,
        )
        refl
