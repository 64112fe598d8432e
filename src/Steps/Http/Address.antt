-- ===== src/Steps/Http/Address.antt =====
-- `isBlockedAddress` of packages/engine/src/steps/http.ts.
use ai_agent_workflow_builde.Common.{
  ℕ, ◌+◌, ◌-◌, ◌*◌, String, Bool, true, false, ◌&&◌, ◌||◌, Option, none, some, ◌==◌, eqb, leb,
  if◌then◌else◌, get_elem?, length, all,
}
use ai_agent_workflow_builde.Common.Text.{split, has_prefix, is_digit}
use ai_agent_workflow_builde.Host.{Host}
use ai_agent_workflow_builde.Network.{Network, no_ip, v4, v6}
use Prim.Native.Char.{code}

-- `Number(s)` of a text that has digits only; `none` is NaN, and `seen` tells that there was a digit.
unfoldable pub octet : (acc : ℕ) (seen : Bool) → String → Option ℕ
octet acc seen String.[] = if seen then some acc else none
octet acc seen (String.◌∷◌ c s) =
    let rest = octet (acc * 10 + (code c - b'0')) true s in if is_digit c then rest else none

-- Comparisons with NaN fail.
abbrev pub equals : Option ℕ → ℕ → Bool
equals none k = false
equals (some n) k = eqb n k

abbrev pub is_at_least : Option ℕ → ℕ → Bool
is_at_least none k = false
is_at_least (some n) k = leb k n

abbrev pub is_at_most : Option ℕ → ℕ → Bool
is_at_most none k = false
is_at_most (some n) k = leb n k

-- The tests on the first two octets.
unfoldable pub is_blocked_v4 : Option ℕ → Option ℕ → Bool
is_blocked_v4 a b =
    equals a 0
    || (equals a 10
        || (equals a 127
            || ((equals a 169 && equals b 254)
                || ((equals a 172 && (is_at_least b 16 && is_at_most b 31))
                    || ((equals a 192 && equals b 168)
                        || ((equals a 100 && (is_at_least b 64 && is_at_most b 127))
                            || is_at_least a 224))))))

abbrev pub octet_at : ℕ → String → Option ℕ
octet_at i ip = elim (get_elem? (split b'.' ip) i) [ none ↦ none | some s ↦ octet 0 false s ]

unfoldable pub is_blocked_dotted : String → Bool
unfolding is_blocked_v4 split octet
is_blocked_dotted ip = is_blocked_v4 (octet_at 0 ip) (octet_at 1 ip)

-- `\d+\.\d+\.\d+\.\d+`, the whole text.
abbrev pub is_digits : String → Bool
is_digits s = elim (octet 0 false s) [ none ↦ false | some _ ↦ true ]

unfoldable pub is_dotted : String → Bool
unfolding split octet
is_dotted s = eqb (length (split b'.' s)) 4 && all is_digits (split b'.' s)

-- What follows a prefix, the prefix first.
unfoldable pub after_prefix : String → String → Option String
after_prefix String.[] s = some s
after_prefix (String.◌∷◌ p ps) String.[] = none
after_prefix (String.◌∷◌ p ps) (String.◌∷◌ c s) =
    if eqb (code p) (code c) then after_prefix ps s else none

module _ {N : Type 0} (host : Host N) (net : Network N) where
  -- The embedded address: it has dots and digits only, so none of the tests for v6 applies to it.
  unfoldable pub is_blocked_mapped : String → Bool
  is_blocked_mapped ip = elim (net.is_ip ip) [
    | v4 ↦ is_blocked_dotted ip
    | v6 ↦ false
    | no_ip ↦ true
  ]

  unfoldable pub is_blocked_v6 : String → Bool
  unfolding is_blocked_mapped after_prefix
  is_blocked_v6 lower =
      if lower == "::" || lower == "::1"
      then true
      else if has_prefix "fe80" lower
      then true
      else if has_prefix "fc" lower || has_prefix "fd" lower
      then true
      else elim (after_prefix "::ffff:" lower) [
        | none ↦ false
        | some rest ↦ if is_dotted rest then is_blocked_mapped rest else false
      ]

  -- `isBlockedAddress`
  unfoldable pub is_blocked_address : String → Bool
  unfolding is_blocked_v6 is_blocked_dotted
  is_blocked_address ip = elim (net.is_ip ip) [
    | v4 ↦ is_blocked_dotted ip
    | v6 ↦ is_blocked_v6 (host.to_lower ip)
    | no_ip ↦ true
  ]
