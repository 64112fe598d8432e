-- ===== src/Json.antt =====
-- JSON values (packages/engine/src/types.ts, `Json`), over a type of numbers that the host gives.
-- An object keeps its properties in insertion order.
pub mod Stringify
use ai_agent_workflow_builde.Common.{
  ℕ, zero, suc, String, Bool, true, false, ◌||◌, Option, none, some, List, [], ◌∷◌, ◌==◌,
  if◌then◌else◌,
}

mutual
  pub data Json (N : Type 0) : Type 0 where
    null : Json N
    bool : Bool → Json N
    number : N → Json N
    string : String → Json N
    array : Items N → Json N
    object : Fields N → Json N

  pub data Items (N : Type 0) : Type 0 where
    nil : Items N
    cons : Json N → Items N → Items N

  pub data Fields (N : Type 0) : Type 0 where
    end : Fields N
    field : String → Json N → Fields N → Fields N

module _ {N : Type 0} where
  -- An own property.
  abbrev pub lookup : String → Fields N → Option (Json N)
  lookup key end = none
  lookup key (field k v fs) = if k == key then some v else lookup key fs

  -- `obj[key] = v`: an existing property keeps its place.
  abbrev pub insert : String → Json N → Fields N → Fields N
  insert key v end = field key v end
  insert key v (field k w fs) = if k == key then field k v fs else field k w (insert key v fs)

  abbrev pub get_item : Items N → ℕ → Option (Json N)
  get_item nil i = none
  get_item (cons v vs) zero = some v
  get_item (cons v vs) (suc i) = get_item vs i

  abbrev pub items : Items N → List (Json N)
  items nil = []
  items (cons v vs) = v ∷ items vs

  -- `v.key` where `key` is no built-in property; `none` is undefined.
  abbrev pub prop : String → Json N → Option (Json N)
  prop key (object fs) = lookup key fs
  prop key _ = none

  -- `v?.key`
  abbrev pub prop_of : String → Option (Json N) → Option (Json N)
  prop_of key none = none
  prop_of key (some v) = prop key v

  -- `v ?? null`
  abbrev pub or_null : Option (Json N) → Json N
  or_null none = null
  or_null (some v) = v

  -- `v !== undefined && v !== null`
  abbrev pub is_present : Option (Json N) → Bool
  is_present none = false
  is_present (some null) = false
  is_present (some _) = true

  -- `v ?? undefined`: null and undefined count as absent.
  abbrev pub non_null : Option (Json N) → Option (Json N)
  non_null none = none
  non_null (some null) = none
  non_null (some v) = some v
