-- ===== src/Context/Safety.antt =====
-- Prototype keys: no path reaches through one, and no template writes one.
use ai_agent_workflow_builde.Common.{
  String, true, false, ◌≡◌, refl, ◌==◌, Option, none, some, List, [], ◌∷◌, any, arith, inl, inr,
  Bool-cases, eq_iff,
}
use ai_agent_workflow_builde.Json.{Json, Fields, end, field, lookup, insert, object, prop}
use ai_agent_workflow_builde.Host.{Host}
use ai_agent_workflow_builde.Context.{
  RunContext, is_dangerous, path_parts, resolve_parts, resolve_path, resolve_templates,
  resolve_fields, context_json, step_into,
}

safe-ne : (key k : String) → is_dangerous key ≡ true → is_dangerous k ≡ false → (k == key) ≡ false
safe-ne key k bad fine = elim (Bool-cases (k == key)) [
  | inr miss ↦ miss
  | inl hit ↦ let same : k ≡ key = (eq_iff k key).0 hit in cc
]

module _ {N : Type 0} where
  parts-dangerous :
      (cur : Option (Json N)) (parts : List String)
      → any is_dangerous parts ≡ true
      → resolve_parts cur parts ≡ none
  unfolding resolve_parts
  parts-dangerous cur [] h = cc
  parts-dangerous cur (p ∷ ps) h = elim (Bool-cases (is_dangerous p)) [
    | inl bad ↦ rw bad refl
    | inr fine ↦ rw fine (parts-dangerous (step_into p cur) ps (rw fine at h))
  ]

  -- The key of a new property is the only one that it adds.
  lookup-insert_other :
      (key k : String) (v : Json N) (fs : Fields N)
      → (k == key) ≡ false
      → lookup key fs ≡ none
      → lookup key (insert k v fs) ≡ none
  lookup-insert_other key k v end other h = rw other refl
  lookup-insert_other key k v (field j u fs) other h = elim (Bool-cases (j == k)) [
    | inl same ↦ rw same (ground arith)
    | inr differs ↦ elim (Bool-cases (j == key)) [
      | inl hit ↦ let e = (rw hit at h) in cc
      | inr miss ↦ rw differs (rw miss (lookup-insert_other key k v fs other (rw miss at h)))
    ]
  ]

  fields-safe :
      (host : Host N) (ctx : RunContext N) (key : String) (out fs : Fields N)
      → is_dangerous key ≡ true
      → lookup key out ≡ none
      → lookup key (resolve_fields host ctx out fs) ≡ none
  unfolding resolve_fields
  fields-safe host ctx key out end bad h = h
  fields-safe host ctx key out (field k v fs) bad h = elim (Bool-cases (is_dangerous k)) [
    | inl drop ↦ rw drop (fields-safe host ctx key out fs bad h)
    | inr fine ↦ rw fine (
        fields-safe host ctx key (insert k (resolve_templates host ctx v) out) fs bad
          (lookup-insert_other key k (resolve_templates host ctx v) out (safe-ne key k bad fine) h))
  ]

-- A path that has a part `__proto__`, `constructor` or `prototype` resolves to undefined, whatever
-- the context holds and wherever in the path that part stands.
pub resolve_path-dangerous :
    {N : Type 0} (ctx : RunContext N) (path : String)
    → any is_dangerous (path_parts path) ≡ true
    → resolve_path ctx path ≡ none
unfolding resolve_path
resolve_path-dangerous ctx path h = parts-dangerous (some (context_json ctx)) (path_parts path) h

-- The object that a template resolves to has no property `__proto__`, `constructor` or `prototype`,
-- whatever properties the template has.
pub resolve_templates-safe :
    {N : Type 0} (host : Host N) (ctx : RunContext N) (fs : Fields N) (key : String)
    → is_dangerous key ≡ true
    → prop key (resolve_templates host ctx (object fs)) ≡ none
unfolding resolve_templates
resolve_templates-safe host ctx fs key bad = fields-safe host ctx key end fs bad refl
