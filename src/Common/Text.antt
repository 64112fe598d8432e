-- ===== src/Common/Text.antt =====
-- The methods of JavaScript strings that the program calls, over native strings: `trim`,
-- `split('.')`, `includes`, `Number.parseInt`. Positions count characters.
use Prim.Native.Nat.{ℕ, zero, suc, ◌+◌, ◌-◌, ◌*◌}
use Prim.Native.Char.{Char, code}
use Prim.Native.String.{String, [], ◌∷◌}
use mathlib.Core.Bool.{Bool, true, false, ◌&&◌, ◌||◌}
use mathlib.Core.Option
use mathlib.Core.Option.{Option, none, some}
use mathlib.Core.List.{List}
use text.Mathlib.Text.{◌==◌}
use ai_agent_workflow_builde.Common.Tests.{leb, eqb, if◌then◌else◌}

-- `negsuc n` is -(n + 1).
pub data ℤ : Type 0 where
  pos : ℕ → ℤ
  negsuc : ℕ → ℤ

abbrev pub neg : ℕ → ℤ
neg zero = pos 0
neg (suc n) = negsuc n

-- `\s`, and what `trim` removes: white space and line terminators.
abbrev pub is_space : Char → Bool
is_space ch =
    let c = code ch in
    (leb 9 c && leb c 13)
    || eqb c 0x20
    || eqb c 0xa0
    || eqb c 0x1680
    || (leb 0x2000 c && leb c 0x200a)
    || eqb c 0x2028
    || eqb c 0x2029
    || eqb c 0x202f
    || eqb c 0x205f
    || eqb c 0x3000
    || eqb c 0xfeff

abbrev pub is_digit : Char → Bool
is_digit c = leb b'0' (code c) && leb (code c) b'9'

-- `s.trimStart()`
unfoldable pub trim_start : String → String
trim_start [] = []
trim_start (c ∷ s) = if is_space c then trim_start s else c ∷ s

-- `s.trimEnd()`
unfoldable pub trim_end : String → String
trim_end [] = []
trim_end (c ∷ s) = let rest = trim_end s in if is_space c && rest == "" then [] else c ∷ rest

-- `s.trim()`
unfoldable pub trim : String → String
unfolding trim_start trim_end
trim s = trim_end (trim_start s)

put_char : Char → List String → List String
put_char c List.[] = List.◌∷◌ (c ∷ []) List.[]
put_char c (List.◌∷◌ part parts) = List.◌∷◌ (c ∷ part) parts

-- `s.split(sep)` at a one-character separator
unfoldable pub split : ℕ → String → List String
unfolding put_char
split sep [] = List.◌∷◌ "" List.[]
split sep (c ∷ s) =
    let parts = split sep s in if eqb (code c) sep then List.◌∷◌ "" parts else put_char c parts

-- `s.startsWith(prefix)`, the prefix first
unfoldable pub has_prefix : String → String → Bool
has_prefix [] s = true
has_prefix (p ∷ ps) [] = false
has_prefix (p ∷ ps) (c ∷ s) = eqb (code p) (code c) && has_prefix ps s

-- `s.includes(needle)`
unfoldable pub includes : String → String → Bool
unfolding has_prefix
includes [] needle = has_prefix needle []
includes (c ∷ s) needle = has_prefix needle (c ∷ s) || includes s needle

-- The last character, as a text.
unfoldable pub last_char : String → String
last_char [] = []
last_char (c ∷ []) = c ∷ []
last_char (c ∷ d ∷ s) = last_char (d ∷ s)

-- The number of characters.
abbrev pub size : String → ℕ
size [] = 0
size (c ∷ s) = suc (size s)

-- The digits at the front, read in base ten; `none` if there is no digit.
unfoldable pub parse_digits : (acc : ℕ) (seen : Bool) → String → Option ℕ
parse_digits acc seen [] = if seen then some acc else none
parse_digits acc seen (c ∷ s) =
    let next = parse_digits (acc * 10 + (code c - b'0')) true s in
    if is_digit c then next else if seen then some acc else none

parse_signed : String → Option ℤ
parse_signed [] = none
parse_signed (c ∷ s) =
    if eqb (code c) b'-'
    then Option.map neg (parse_digits 0 false s)
    else Option.map pos (parse_digits 0 false (if eqb (code c) b'+' then s else c ∷ s))

-- `Number.parseInt(s, 10)`; `none` is NaN. Values past 2 ^ 53 are kept whole.
unfoldable pub parse_int : String → Option ℤ
unfolding parse_signed parse_digits trim_start
parse_int s = parse_signed (trim_start s)

-- `s.slice(0, n)`
unfoldable pub first : ℕ → String → String
first zero s = []
first (suc n) [] = []
first (suc n) (c ∷ s) = c ∷ first n s
