-- ===== src/Context.antt =====
-- The run context and template interpolation (packages/engine/src/core/context.ts).
pub mod Template
pub mod Safety
use ai_agent_workflow_builde.Common.{
  String, Bool, true, false, ◌||◌, Option, none, some, List, [], ◌∷◌, ◌==◌, if◌then◌else◌, keep,
  not,
}
use ai_agent_workflow_builde.Common.Text.{pos, negsuc, split, parse_int, trim}
use ai_agent_workflow_builde.Json.{
  Json, null, string, array, object, Fields, end, field, Items, nil, cons, lookup, insert, get_item,
  or_null,
}
use ai_agent_workflow_builde.Json.Stringify.{stringify}
use ai_agent_workflow_builde.Host.{Host}
use Template.{full_template, replace_inline}

-- A value of `RunContext.steps`.
pub record StepOutput (N : Type 0) : Type 0 where
  pub output : Json N
  pub status : String
  pub name : String
  pub type : String

pub record RunIds : Type 0 where
  pub id : String
  pub workflow_id : String
  pub org_id : String

-- `previous` has the output and the status.
pub record RunContext (N : Type 0) : Type 0 where
  pub trigger : Json N
  pub previous : Option (Json N × String)
  pub steps : List (String × StepOutput N)
  pub run : RunIds

abbrev pub is_dangerous : String → Bool
is_dangerous k = k == "__proto__" || (k == "constructor" || k == "prototype")

-- The parts of a dot path, empty ones dropped.
unfoldable pub path_parts : String → List String
unfolding split
path_parts path = keep (λ p. not (p == "")) (split b'.' path)

module _ {N : Type 0} where
  step_outputs_json : List (String × StepOutput N) → Fields N
  step_outputs_json [] = end
  step_outputs_json ((k, o) ∷ rest) =
      field k
        (object (
          field "output" o.output (
            field "status" (string o.status)
              (field "name" (string o.name) (field "type" (string o.type) end)))))
        (step_outputs_json rest)

  previous_json : Option (Json N × String) → Json N
  previous_json none = null
  previous_json (some (output, status)) =
      object (field "output" output (field "status" (string status) end))

  -- The context as the plain object that a path is looked up in.
  unfoldable pub context_json : RunContext N → Json N
  unfolding step_outputs_json previous_json
  context_json ctx = object (
      field "trigger" ctx.trigger (
        field "previous" (previous_json ctx.previous) (
          field "steps" (object (step_outputs_json ctx.steps)) (
            field "run"
              (object (
                field "id" (string ctx.run.id) (
                  field "workflow_id" (string ctx.run.workflow_id)
                    (field "org_id" (string ctx.run.org_id) end))))
              end))))

  -- `ctx.steps[key] = o`
  abbrev pub set_step :
      String → StepOutput N → List (String × StepOutput N) → List (String × StepOutput N)
  set_step key o [] = (key, o) ∷ []
  set_step key o ((k, p) ∷ rest) = if k == key then (k, o) ∷ rest else (k, p) ∷ set_step key o rest

  -- One round of the loop of `resolvePath`, past the test for dangerous keys.
  step_into : String → Option (Json N) → Option (Json N)
  step_into part none = none
  step_into part (some (array vs)) = elim (parse_int part) [
    | none ↦ none
    | some (pos i) ↦ get_item vs i
    | some (negsuc _) ↦ none
  ]
  step_into part (some (object fs)) = lookup part fs
  step_into part (some _) = none

  resolve_parts : Option (Json N) → List String → Option (Json N)
  resolve_parts cur [] = cur
  resolve_parts cur (part ∷ parts) =
      let next = resolve_parts (step_into part cur) parts in
      if is_dangerous part then none else next

  -- `resolvePath`; `none` is undefined.
  unfoldable pub resolve_path : RunContext N → String → Option (Json N)
  unfolding resolve_parts step_into context_json path_parts parse_int
  resolve_path ctx path = resolve_parts (some (context_json ctx)) (path_parts path)

  -- `emptyContext`
  unfoldable pub empty_context : RunIds → Json N → RunContext N
  empty_context run trigger = record { trigger = trigger; previous = none; steps = []; run = run }

module _ {N : Type 0} (host : Host N) where
  -- What an inline placeholder is replaced by.
  inline_text : Option (Json N) → String
  inline_text none = ""
  inline_text (some null) = ""
  inline_text (some (string s)) = s
  inline_text (some v) = stringify host.show v

  unfoldable pub interpolate_string : RunContext N → String → Json N
  unfolding full_template replace_inline inline_text resolve_path trim
  interpolate_string ctx input = elim (full_template input) [
    | some path ↦ or_null (resolve_path ctx path)
    | none ↦ string (replace_inline (λ path. inline_text (resolve_path ctx (trim path))) input)
  ]

  unfoldable mutual
    -- `resolveTemplates`
    pub resolve_templates : RunContext N → Json N → Json N
    resolve_templates ctx (string s) = interpolate_string ctx s
    resolve_templates ctx (array vs) = array (resolve_items ctx vs)
    resolve_templates ctx (object fs) = object (resolve_fields ctx end fs)
    resolve_templates ctx v = v

    pub resolve_items : RunContext N → Items N → Items N
    resolve_items ctx nil = nil
    resolve_items ctx (cons v vs) = cons (resolve_templates ctx v) (resolve_items ctx vs)

    -- The loop over the entries, `out` the object built so far.
    pub resolve_fields : RunContext N → Fields N → Fields N → Fields N
    resolve_fields ctx out end = out
    resolve_fields ctx out (field k v fs) =
        let v' = resolve_templates ctx v in
        resolve_fields ctx (if is_dangerous k then out else insert k v' out) fs
