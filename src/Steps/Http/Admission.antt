-- ===== src/Steps/Http/Admission.antt =====
-- Which addresses the guard of http_request lets through, said without its tests: IPv4 addresses by
-- CIDR blocks, IPv6 addresses by how their text begins.
use ai_agent_workflow_builde.Common.{
  ℕ, ◌<◌, String, Bool, true, false, ◌&&◌, ◌||◌, ◌≡◌, ◌≢◌, refl, sym, ◌∙◌, subst, ap, Option, none,
  some, List, [], ◌∷◌, ◌==◌, eqb, length, any, all, inl, inr, Bool-cases, Option-cases,
  if◌then◌else◌, eq_iff, arith, get_elem?,
}
use ai_agent_workflow_builde.Common.Text.{split, has_prefix}
use ai_agent_workflow_builde.Host.{Host}
use ai_agent_workflow_builde.Network.{Network, no_ip, v4, v6}
use ai_agent_workflow_builde.Steps.Http.Address.{
  octet, is_digits, is_blocked_v4, is_blocked_dotted, is_dotted, after_prefix, is_blocked_mapped,
  is_blocked_v6, is_blocked_address,
}
use ai_agent_workflow_builde.Steps.Http.Ranges.{
  is_within, address, private_blocks, is_blocked_v4-blocks,
}
use Prim.Native.Char.{code}
use Prim.Native.String.{◌++◌}
use text.Mathlib.TextLemmas.{nil-append, cons-append}

-- Four decimal numbers below 256 with dots between them.
pub record IsQuad (ip : String) (a b c d : ℕ) : Type 0 where
  pub first : String
  pub second : String
  pub third : String
  pub fourth : String
  pub parts : split b'.' ip ≡ first ∷ second ∷ third ∷ fourth ∷ []
  pub reads_a : octet 0 false first ≡ some a
  pub reads_b : octet 0 false second ≡ some b
  pub reads_c : octet 0 false third ≡ some c
  pub reads_d : octet 0 false fourth ≡ some d
  pub a_small : a < 256
  pub b_small : b < 256
  pub c_small : c < 256
  pub d_small : d < 256

-- As a 32-bit number, the address is in none of the eight private or reserved blocks.
abbrev pub IsOutside : String → Type 0
IsOutside ip =
    (a b c d : ℕ) → IsQuad ip a b c d → any (is_within (address a b c d)) private_blocks ≡ false

has_prefix-append : (p s : String) → has_prefix p (p ++ s) ≡ true
unfolding has_prefix
has_prefix-append String.[] s = refl
has_prefix-append (String.◌∷◌ c p) s =
    rw (cons-append c p s)
      (let same : eqb (code c) (code c) ≡ true = ground arith in rw same (has_prefix-append p s))

after_prefix-append : (p s : String) → after_prefix p (p ++ s) ≡ some s
unfolding after_prefix
after_prefix-append String.[] s = rw (nil-append s) refl
after_prefix-append (String.◌∷◌ c p) s =
    rw (cons-append c p s)
      (let same : eqb (code c) (code c) ≡ true = ground arith in rw same (after_prefix-append p s))

-- The i-th part of a text, read as a number.
part_at : List String → ℕ → Option ℕ
part_at parts i = elim (get_elem? parts i) [ none ↦ none | some s ↦ octet 0 false s ]

quad-blocked :
    (ip : String) (a b c d : ℕ)
    → IsQuad ip a b c d
    → is_blocked_dotted ip ≡ any (is_within (address a b c d)) private_blocks
unfolding is_blocked_dotted part_at
quad-blocked ip a b c d q =
    ap (λ parts. is_blocked_v4 (part_at parts 0) (part_at parts 1)) q.parts
    ∙ (ap (λ x. is_blocked_v4 x (octet 0 false q.second)) q.reads_a
        ∙ (ap (λ y. is_blocked_v4 (some a) y) q.reads_b
            ∙ is_blocked_v4-blocks a b c d q.a_small q.b_small q.c_small q.d_small))

all_four :
    (p : String → Bool) (w x y z : String)
    → p w ≡ true
    → p x ≡ true
    → p y ≡ true
    → p z ≡ true
    → all p (w ∷ x ∷ y ∷ z ∷ []) ≡ true
all_four p w x y z hw hx hy hz = rw (hw, hx, hy, hz) refl

octet-digits : (s : String) (n : ℕ) → octet 0 false s ≡ some n → is_digits s ≡ true
octet-digits s n h = rw (h, is_digits) refl

quad-dotted : (ip : String) (a b c d : ℕ) → IsQuad ip a b c d → is_dotted ip ≡ true
unfolding is_dotted
quad-dotted ip a b c d q =
    ap (λ parts. eqb (length parts) 4 && all is_digits parts) q.parts
    ∙ all_four is_digits q.first q.second q.third q.fourth (octet-digits q.first a q.reads_a)
        (octet-digits q.second b q.reads_b) (octet-digits q.third c q.reads_c)
        (octet-digits q.fourth d q.reads_d)

outside : (ip : String) → is_blocked_dotted ip ≡ false → IsOutside ip
outside ip h a b c d q = sym (quad-blocked ip a b c d q) ∙ h

module _ {N : Type 0} (host : Host N) (net : Network N) where
  -- The text of an IPv6 address, in lower case: it is not the unspecified address or the loopback
  -- address, does not begin as a link-local or unique-local one does, and is not `::ffff:` before
  -- an IPv4 address in a private or reserved block.
  pub record IsAdmissibleV6 (text : String) : Type 0 where
    pub not_unspecified : text ≢ "::"
    pub not_loopback : text ≢ "::1"
    pub not_link_local : (s : String) → text ≢ "fe80" ++ s
    pub not_unique_local : (s : String) → (text ≢ "fc" ++ s) × (text ≢ "fd" ++ s)
    pub not_mapped : (s : String) → text ≡ "::ffff:" ++ s → net.is_ip s ≡ v4 → IsOutside s

  pub record IsAdmissible (ip : String) : Type 0 where
    pub is_address : net.is_ip ip ≢ no_ip
    pub admits_v4 : net.is_ip ip ≡ v4 → IsOutside ip
    pub admits_v6 : net.is_ip ip ≡ v6 → IsAdmissibleV6 (host.to_lower ip)

  abbrev starts_unique : String → Bool
  starts_unique t = has_prefix "fc" t || has_prefix "fd" t

  abbrev blocked_after : Option String → Bool
  blocked_after none = false
  blocked_after (some rest) = if is_dotted rest then is_blocked_mapped host net rest else false

  record Passed (t : String) : Type 0 where
    pub special : (t == "::" || t == "::1") ≡ false
    pub link_local : has_prefix "fe80" t ≡ false
    pub unique_local : starts_unique t ≡ false
    pub mapped : blocked_after (after_prefix "::ffff:" t) ≡ false

  v6-Passed : (t : String) → is_blocked_v6 host net t ≡ false → Passed t
  unfolding is_blocked_v6
  v6-Passed t h = elim (Bool-cases (t == "::" || t == "::1")) [
    | inl p ↦ let e = (rw (p, is_blocked_v6) at h) in cc
    | inr p ↦ elim (Bool-cases (has_prefix "fe80" t)) [
      | inl q ↦ let e = (rw (p, q, is_blocked_v6) at h) in cc
      | inr q ↦ elim (Bool-cases (starts_unique t)) [
        | inl r ↦ let e = (rw (p, q, r, is_blocked_v6) at h) in cc
        | inr r ↦ record { special = p; link_local = q; unique_local = r; mapped = after t p q r h }
      ]
    ]
  ]
    where
      after :
          (t : String)
          → (t == "::" || t == "::1") ≡ false
          → has_prefix "fe80" t ≡ false
          → starts_unique t ≡ false
          → is_blocked_v6 host net t ≡ false
          → blocked_after (after_prefix "::ffff:" t) ≡ false
      after t p q r h = elim (Option-cases (after_prefix "::ffff:" t)) [
        | inl missing ↦ rw (missing) refl
        | inr (rest, found) ↦ rw (found) (rw (p, q, r, found, is_blocked_v6) at h)
      ]

  not_prefixed : (p t s : String) → has_prefix p t ≡ false → t ≢ p ++ s
  not_prefixed p t s h e =
      let yes_it_does = has_prefix-append p s in
      let no_it_does_not : has_prefix p (p ++ s) ≡ false =
        subst (λ x. has_prefix p x ≡ false) e h in
      cc

  Passed-IsAdmissibleV6 : (t : String) → Passed t → IsAdmissibleV6 t
  unfolding is_blocked_mapped
  Passed-IsAdmissibleV6 t p = record {
    not_unspecified = λ e. ground (arith, p.special, eq_iff t "::");
    not_loopback = λ e. ground (arith, p.special, eq_iff t "::1");
    not_link_local = λ s. not_prefixed "fe80" t s p.link_local;
    not_unique_local = λ s. (
      not_prefixed "fc" t s (let h = p.unique_local in ground arith),
      not_prefixed "fd" t s (let h = p.unique_local in ground arith),
    );
    not_mapped = λ s e is_v4 a b c d q.
        let found : after_prefix "::ffff:" t ≡ some s =
          subst (λ x. after_prefix "::ffff:" x ≡ some s) (sym e)
            (after_prefix-append "::ffff:" s) in
        let h = (rw found at (p.mapped)) in
        outside s (mapped_dotted s is_v4 (rw (quad-dotted s a b c d q) at h)) a b c d q;
  }
    where
      mapped_dotted :
          (s : String)
          → net.is_ip s ≡ v4
          → is_blocked_mapped host net s ≡ false
          → is_blocked_dotted s ≡ false
      mapped_dotted s v h = (rw (v, is_blocked_mapped) at h)

  -- What `isBlockedAddress` does not block.
  pub is_blocked_address-IsAdmissible :
      (ip : String) → is_blocked_address host net ip ≡ false → IsAdmissible ip
  unfolding is_blocked_address
  is_blocked_address-IsAdmissible ip h = record {
    is_address = λ e. let b = (rw (e, is_blocked_address) at h) in cc;
    admits_v4 = λ e. outside ip (rw (e, is_blocked_address) at h);
    admits_v6 = λ e.
        Passed-IsAdmissibleV6 (host.to_lower ip)
          (v6-Passed (host.to_lower ip) (rw (e, is_blocked_address) at h));
  }
