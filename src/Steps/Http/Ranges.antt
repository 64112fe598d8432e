-- ===== src/Steps/Http/Ranges.antt =====
-- The blocked IPv4 addresses as CIDR blocks of 32-bit numbers, which the tests on octets stand for.
use mathlib.Core.Path.{ap₂}
use ai_agent_workflow_builde.Common.{
  ℕ, ◌+◌, ◌-◌, ◌*◌, ◌≤◌, ◌<◌, Bool, true, false, ◌&&◌, ◌||◌, ◌≡◌, ◌∙◌, refl, some, List, [], ◌∷◌,
  eqb, leb, ltb, any, arith,
}
use ai_agent_workflow_builde.Steps.Http.Address.{is_blocked_v4}

-- The first address of a block and the number of its addresses.
abbrev pub Block : Type 0
Block = ℕ × ℕ

abbrev pub is_within : ℕ → Block → Bool
is_within ip (start, size) = leb start ip && ltb ip (start + size)

abbrev pub address : ℕ → ℕ → ℕ → ℕ → ℕ
address a b c d = a * 0x1000000 + (b * 0x10000 + (c * 0x100 + d))

-- 0.0.0.0/8, 10.0.0.0/8, 127.0.0.0/8, 169.254.0.0/16, 172.16.0.0/12, 192.168.0.0/16,
-- 100.64.0.0/10, 224.0.0.0/3
abbrev pub private_blocks : List Block
private_blocks =
    (0, 0x1000000)
    ∷ ((0xA000000, 0x1000000)
        ∷ ((0x7F000000, 0x1000000)
            ∷ ((0xA9FE0000, 0x10000)
                ∷ ((0xAC100000, 0x100000)
                    ∷ ((0xC0A80000, 0x10000)
                        ∷ ((0x64400000, 0x400000) ∷ ((0xE0000000, 0x20000000) ∷ [])))))))

or_eq : {p q r s : Bool} → p ≡ q → r ≡ s → p || r ≡ q || s
or_eq h k = ap₂ (λ x y. x || y) h k

or_false : (p : Bool) → p ≡ p || false
or_false true = refl
or_false false = refl

module _ (a b c d : ℕ) (hb : b < 256) (hc : c < 256) (hd : d < 256) where
  eqb-eq-is_within : (k : ℕ) → eqb a k ≡ is_within (address a b c d) (k * 0x1000000, 0x1000000)
  eqb-eq-is_within k = ground arith

  and-eq-is_within :
      (k first last : ℕ)
      → first ≤ last
      → last < 256
      → eqb a k && (leb first b && leb b last)
        ≡ is_within
            (address a b c d)
            (k * 0x1000000 + first * 0x10000, (last + 1 - first) * 0x10000)
  and-eq-is_within k first last h hl = ground arith

  both-eq-is_within :
      (k j : ℕ)
      → j < 256
      → eqb a k && eqb b j ≡ is_within (address a b c d) (k * 0x1000000 + j * 0x10000, 0x10000)
  both-eq-is_within k j h = ground arith

  leb-eq-is_within :
      (k : ℕ)
      → k ≤ 256
      → a < 256
      → leb k a ≡ is_within (address a b c d) (k * 0x1000000, (256 - k) * 0x1000000)
  leb-eq-is_within k h ha = ground arith

-- The octets are blocked exactly when the address is in one of the blocks.
pub is_blocked_v4-blocks :
    (a b c d : ℕ)
    → a < 256
    → b < 256
    → c < 256
    → d < 256
    → is_blocked_v4 (some a) (some b) ≡ any (is_within (address a b c d)) private_blocks
unfolding is_blocked_v4
is_blocked_v4-blocks a b c d ha hb hc hd = or_eq (eqb-eq-is_within a b c d hb hc hd 0) (
    or_eq (eqb-eq-is_within a b c d hb hc hd 10) (
      or_eq (eqb-eq-is_within a b c d hb hc hd 127) (
        or_eq (both-eq-is_within a b c d hb hc hd 169 254 (omega arith)) (
          or_eq (and-eq-is_within a b c d hb hc hd 172 16 31 (omega arith) (omega arith)) (
            or_eq (both-eq-is_within a b c d hb hc hd 192 168 (omega arith)) (
              or_eq (and-eq-is_within a b c d hb hc hd 100 64 127 (omega arith) (omega arith))
                (leb-eq-is_within a b c d hb hc hd 224 (omega arith) ha ∙ or_false _)))))))
