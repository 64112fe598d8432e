-- ===== src/Context/Template.antt =====
-- The two regular expressions of context.ts, as functions on texts:
-- /^\s*\{\{\s*([^{}]+?)\s*\}\}\s*$/ and /\{\{\s*([^{}]+?)\s*\}\}/g.
use Prim.Native.Nat.{ℕ, zero, suc, ◌+◌}
use Prim.Native.Char.{Char, code}
use Prim.Native.String.{String, [], ◌∷◌, ◌++◌}
use ai_agent_workflow_builde.Common.{Bool, ◌&&◌, ◌||◌, Option, none, some, ◌==◌, eqb, if◌then◌else◌}
use ai_agent_workflow_builde.Common.Text.{trim_start, trim, last_char, size}

is_brace : Char → Bool
is_brace c = eqb (code c) b'{' || eqb (code c) b'}'

-- Drops two characters that both are `brace`.
drop_two : ℕ → String → Option String
drop_two brace [] = none
drop_two brace (c ∷ []) = none
drop_two brace (c ∷ d ∷ s) = if eqb (code c) brace && eqb (code d) brace then some s else none

-- `[^{}]*`, as far as it goes, and what follows.
unfoldable pub until_brace : String → String × String
unfolding is_brace
until_brace [] = ([], [])
until_brace (c ∷ s) =
    let rest = until_brace s in if is_brace c then ([], c ∷ s) else (c ∷ rest.0, rest.1)

-- The group of `\s*([^{}]+?)\s*` over a text that it matches whole: the text without the space
-- around it, or its last character if it is all space.
unfoldable pub captured : String → String
unfolding trim last_char
captured content = let inner = trim content in if inner == "" then last_char content else inner

close : String × String → Option (String × String)
close (content, rest) = elim (drop_two b'}' rest) [
  | none ↦ none
  | some after ↦ if content == "" then none else some (content, after)
]

-- A placeholder at the front: its content, and what follows it.
unfoldable pub placeholder : String → Option (String × String)
unfolding drop_two until_brace close
placeholder s = elim (drop_two b'{' s) [ none ↦ none | some inner ↦ close (until_brace inner) ]

-- The capture group of the whole-string template; `none` if it does not match.
unfoldable pub full_template : String → Option String
unfolding placeholder captured trim_start
full_template s = elim (placeholder (trim_start s)) [
  | none ↦ none
  | some (content, after) ↦ if trim_start after == "" then some (captured content) else none
]

-- Scans from the left; the first `skip` characters belong to a placeholder that was replaced.
replace_from : (String → String) → ℕ → String → String
replace_from f skip [] = []
replace_from f (suc skip) (c ∷ s) = replace_from f skip s
replace_from f zero (c ∷ s) = elim (placeholder (c ∷ s)) [
  | none ↦ c ∷ replace_from f zero s
  | some (content, after) ↦ f (captured content) ++ replace_from f (size content + 3) s
]

-- `s.replace(INLINE_TEMPLATE, f)`
unfoldable pub replace_inline : (String → String) → String → String
unfolding replace_from placeholder captured
replace_inline f s = replace_from f zero s
