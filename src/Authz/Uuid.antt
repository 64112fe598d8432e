-- ===== src/Authz/Uuid.antt =====
-- `isUuid` of packages/engine/src/core/authz.ts: the regular expression, one class of characters
-- for each position.
use ai_agent_workflow_builde.Common.{ℕ, zero, suc, Bool, true, false, ◌&&◌, ◌||◌, leb, eqb, List}
use Prim.Native.Char.{Char, code}
use Prim.Native.String.{String, [], ◌∷◌}

pub data CharClass : Type 0 where
  hex version variant dash : CharClass

abbrev between : ℕ → ℕ → Char → Bool
between low high c = leb low (code c) && leb (code c) high

-- The flag `i` lets both cases through.
abbrev in_class : CharClass → Char → Bool
in_class hex c = between b'0' b'9' c || between b'a' b'f' c || between b'A' b'F' c
in_class version c = between b'1' b'8' c
in_class variant c = between b'8' b'9' c || between b'a' b'b' c || between b'A' b'B' c
in_class dash c = eqb (code c) b'-'

unfoldable pub matches_classes : List CharClass → String → Bool
matches_classes List.[] [] = true
matches_classes List.[] (c ∷ s) = false
matches_classes (List.◌∷◌ k ks) [] = false
matches_classes (List.◌∷◌ k ks) (c ∷ s) = in_class k c && matches_classes ks s

abbrev times : ℕ → CharClass → List CharClass → List CharClass
times zero k ks = ks
times (suc n) k ks = List.◌∷◌ k (times n k ks)

abbrev uuid_classes : List CharClass
uuid_classes = times 8 hex (
    List.◌∷◌ dash (
      times 4 hex (
        List.◌∷◌ dash (
          List.◌∷◌ version (
            times 3 hex (
              List.◌∷◌ dash
                (List.◌∷◌ variant (times 3 hex (List.◌∷◌ dash (times 12 hex List.[]))))))))))

-- `isUuid`, of a text.
unfoldable pub is_uuid : String → Bool
unfolding matches_classes
is_uuid s = matches_classes uuid_classes s
