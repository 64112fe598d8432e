-- ===== src/Json/Stringify.antt =====
-- `JSON.stringify(v)` with no replacer and no indent; `show` prints a number.
use Prim.Native.Nat.{ℕ, ◌/◌, ◌%◌}
use Prim.Native.Char.{Char, code}
use Prim.Native.String.{String, [], ◌∷◌, ◌++◌}
use ai_agent_workflow_builde.Common.{true, false, ltb, eqb, if◌then◌else◌}
use ai_agent_workflow_builde.Json.{
  Json, null, bool, number, string, array, object, Items, nil, cons, Fields, end, field,
}

hex_digit : ℕ → String
hex_digit n =
    if eqb n 0
    then "0"
    else if eqb n 1
    then "1"
    else if eqb n 2
    then "2"
    else if eqb n 3
    then "3"
    else if eqb n 4
    then "4"
    else if eqb n 5
    then "5"
    else if eqb n 6
    then "6"
    else if eqb n 7
    then "7"
    else if eqb n 8
    then "8"
    else if eqb n 9
    then "9"
    else if eqb n 10
    then "a"
    else if eqb n 11
    then "b"
    else if eqb n 12
    then "c"
    else if eqb n 13
    then "d"
    else if eqb n 14
    then "e"
    else "f"

escape_char : Char → String
unfolding hex_digit
escape_char ch =
    let c = code ch in
    if eqb c 0x22
    then "\\\""
    else if eqb c 0x5c
    then "\\\\"
    else if eqb c 8
    then "\\b"
    else if eqb c 9
    then "\\t"
    else if eqb c 10
    then "\\n"
    else if eqb c 12
    then "\\f"
    else if eqb c 13
    then "\\r"
    else if ltb c 0x20
    then "\\u00" ++ (hex_digit (c / 16) ++ hex_digit (c % 16))
    else ch ∷ []

escape : String → String
unfolding escape_char
escape [] = []
escape (c ∷ s) = escape_char c ++ escape s

quote : String → String
unfolding escape
quote s = "\"" ++ (escape s ++ "\"")

module _ {N : Type 0} (show : N → String) where
  unfoldable mutual
    unfolding quote

    pub stringify : Json N → String
    stringify null = "null"
    stringify (bool true) = "true"
    stringify (bool false) = "false"
    stringify (number n) = show n
    stringify (string s) = quote s
    stringify (array vs) = "[" ++ (stringify_items vs ++ "]")
    stringify (object fs) = "{" ++ (stringify_fields fs ++ "}")

    pub stringify_items : Items N → String
    stringify_items nil = ""
    stringify_items (cons v nil) = stringify v
    stringify_items (cons v (cons w vs)) = stringify v ++ ("," ++ stringify_items (cons w vs))

    pub stringify_fields : Fields N → String
    stringify_fields end = ""
    stringify_fields (field k v end) = quote k ++ (":" ++ stringify v)
    stringify_fields (field k v (field j w fs)) =
        quote k ++ (":" ++ (stringify v ++ ("," ++ stringify_fields (field j w fs))))
