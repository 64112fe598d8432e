-- ===== src/Common/Lists.antt =====
-- Lists measured and indexed by native numbers, and the array methods that the program calls.
use Prim.Native.Nat.{ℕ, zero, suc, ◌+◌, ◌-◌, ◌≤◌, ◌<◌}
use mathlib.Core.Path.{◌≡◌, refl, ap, subst}
use mathlib.Core.Bool.{Bool, true, false, ◌||◌, ◌&&◌}
use mathlib.Core.Option
use mathlib.Core.Option.{Option, none, some}
use mathlib.Core.List.{List, [], ◌∷◌, ◌++◌, map}
use native.Mathlib.Omega.{arith}
use mathlib.Core.Logic.{inl, inr}
use ai_agent_workflow_builde.Common.Tests.{if◌then◌else◌, Bool-cases, Option-cases}

module _ {ℓ} {A : Type ℓ} where
  abbrev pub length : List A → ℕ
  length [] = 0
  length (x ∷ xs) = suc (length xs)

  abbrev pub get_elem? : List A → ℕ → Option A
  get_elem? [] i = none
  get_elem? (x ∷ xs) zero = some x
  get_elem? (x ∷ xs) (suc i) = get_elem? xs i

  abbrev pub take : ℕ → List A → List A
  take zero xs = []
  take (suc n) [] = []
  take (suc n) (x ∷ xs) = x ∷ take n xs

  abbrev pub drop : ℕ → List A → List A
  drop zero xs = xs
  drop (suc n) [] = []
  drop (suc n) (x ∷ xs) = drop n xs

  -- `xs.slice(from, to)` for `from` and `to` at least 0
  abbrev pub slice : ℕ → ℕ → List A → List A
  slice from to xs = take (to - from) (drop from xs)

  -- `xs.find(p)`
  abbrev pub find : (A → Bool) → List A → Option A
  find p [] = none
  find p (x ∷ xs) = if p x then some x else find p xs

  -- `xs.findIndex(p)`; `none` is -1.
  abbrev pub find_index : (A → Bool) → List A → Option ℕ
  find_index p [] = none
  find_index p (x ∷ xs) = if p x then some 0 else Option.map suc (find_index p xs)

  -- `xs.some(p)`
  abbrev pub any : (A → Bool) → List A → Bool
  any p [] = false
  any p (x ∷ xs) = p x || any p xs

  abbrev pub all : (A → Bool) → List A → Bool
  all p [] = true
  all p (x ∷ xs) = p x && all p xs

  -- `xs.filter(p)`
  abbrev pub keep : (A → Bool) → List A → List A
  keep p [] = []
  keep p (x ∷ xs) = if p x then x ∷ keep p xs else keep p xs

  -- `UPDATE … SET f WHERE p`
  abbrev pub update_where : (A → Bool) → (A → A) → List A → List A
  update_where p f [] = []
  update_where p f (x ∷ xs) = (if p x then f x else x) ∷ update_where p f xs

  -- The number of rows that satisfy `p`.
  abbrev pub count_where : (A → Bool) → List A → ℕ
  count_where p [] = 0
  count_where p (x ∷ xs) = (if p x then 1 else 0) + count_where p xs

module _ {ℓ κ} {A : Type ℓ} (P : A → Type κ) where
  abbrev pub All : List A → Type κ
  All [] = Unit
  All (x ∷ xs) = P x × All xs

module _ {ℓ} {A : Type ℓ} where
  pub find_index-lt-length :
      (p : A → Bool) (xs : List A) {i : ℕ} → find_index p xs ≡ some i → i < length xs
  find_index-lt-length p [] h = ground arith
  find_index-lt-length p (x ∷ xs) h = elim (Option-cases (find_index p xs)) [
    | inl missing ↦ ground arith
    | inr (j, found) ↦ ground (arith, find_index-lt-length p xs found)
  ]

-- Elements of the parts of a list, by their index.
module _ {ℓ} {A : Type ℓ} where
  pub any-map {κ} :
      {B : Type κ} (f : A → B) (p : B → Bool) (xs : List A)
      → any p (map f xs) ≡ any (λ x. p (f x)) xs
  any-map f p [] = refl
  any-map f p (x ∷ xs) = ap (λ b. p (f x) || b) (any-map f p xs)

  pub get_elem?-drop : (a k : ℕ) (xs : List A) → get_elem? (drop a xs) k ≡ get_elem? xs (a + k)
  get_elem?-drop zero k xs = ap (get_elem? xs) (omega arith)
  get_elem?-drop (suc a) k [] = refl
  get_elem?-drop (suc a) k (x ∷ xs) =
      rw (get_elem?-drop a k xs)
        (ap (get_elem? (x ∷ xs)) (let e : suc (a + k) ≡ suc a + k = omega arith in e))

  pub any_of_get_elem? :
      (p : A → Bool) (k : ℕ) (xs : List A) {x : A}
      → get_elem? xs k ≡ some x
      → p x ≡ true
      → any p xs ≡ true
  any_of_get_elem? p k [] e h = cc
  any_of_get_elem? p zero (y ∷ ys) e h = ground arith
  any_of_get_elem? p (suc k) (y ∷ ys) {x} e h = ground (arith, any_of_get_elem? p k ys {x = x} e h)

  pub get_elem?_of_any :
      (p : A → Bool) (xs : List A)
      → any p xs ≡ true
      → (k : ℕ) × (x : A) × (get_elem? xs k ≡ some x) × (p x ≡ true)
  get_elem?_of_any p [] h = cc
  get_elem?_of_any p (x ∷ xs) h = elim (Bool-cases (p x)) [
    | inl here ↦ (0, x, refl, here)
    | inr later ↦ let (k, y, e, q) = get_elem?_of_any p xs (ground arith) in (suc k, y, e, q)
  ]

  pub get_elem?-take : (n k : ℕ) (xs : List A) → k < n → get_elem? (take n xs) k ≡ get_elem? xs k
  get_elem?-take zero k xs h = elim h [ ]
  get_elem?-take (suc n) k [] h = refl
  get_elem?-take (suc n) zero (x ∷ xs) h = refl
  get_elem?-take (suc n) (suc k) (x ∷ xs) h = get_elem?-take n k xs (omega arith)

  pub get_elem?-take-eq-some :
      (n k : ℕ) (xs : List A) {x : A}
      → get_elem? (take n xs) k ≡ some x
      → (k < n) × (get_elem? xs k ≡ some x)
  get_elem?-take-eq-some zero k xs h = cc
  get_elem?-take-eq-some (suc n) k [] h = cc
  get_elem?-take-eq-some (suc n) zero (y ∷ ys) h = (omega arith, h)
  get_elem?-take-eq-some (suc n) (suc k) (y ∷ ys) h =
      let (lt, e) = get_elem?-take-eq-some n k ys h in (omega arith, e)

  pub lt-length_of_get_elem? :
      (k : ℕ) (xs : List A) {x : A} → get_elem? xs k ≡ some x → k < length xs
  lt-length_of_get_elem? k [] h = cc
  lt-length_of_get_elem? zero (y ∷ ys) h = omega arith
  lt-length_of_get_elem? (suc k) (y ∷ ys) h = omega (arith, lt-length_of_get_elem? k ys h)

  pub length-le_of_get_elem? : (k : ℕ) (xs : List A) → get_elem? xs k ≡ none → length xs ≤ k
  length-le_of_get_elem? k [] h = omega arith
  length-le_of_get_elem? zero (y ∷ ys) h = cc
  length-le_of_get_elem? (suc k) (y ∷ ys) h = omega (arith, length-le_of_get_elem? k ys h)

module _ {ℓ} {A : Type ℓ} where
  pub length-append : (xs ys : List A) → length (xs ++ ys) ≡ length xs + length ys
  length-append [] ys = omega arith
  length-append (x ∷ xs) ys = let h = length-append xs ys in omega arith

  pub length-keep : (p : A → Bool) (xs : List A) → length (keep p xs) ≡ count_where p xs
  length-keep p [] = refl
  length-keep p (x ∷ xs) = let h = length-keep p xs in ground arith

-- What holds of all elements.
module _ {ℓ κ} {A : Type ℓ} (P : A → Type κ) where
  pub All-map {μ} : (Q : A → Type μ) (xs : List A) → ((x : A) → P x → Q x) → All P xs → All Q xs
  All-map Q [] f h = tt
  All-map Q (x ∷ xs) f (h, hs) = (f x h, All-map Q xs f hs)

  pub All-take : (n : ℕ) (xs : List A) → All P xs → All P (take n xs)
  All-take zero xs h = tt
  All-take (suc n) [] h = tt
  All-take (suc n) (x ∷ xs) (h, hs) = (h, All-take n xs hs)

  pub All-get_elem? : (xs : List A) (k : ℕ) {x : A} → All P xs → get_elem? xs k ≡ some x → P x
  All-get_elem? [] k h e = cc
  All-get_elem? (y ∷ ys) zero {x} (h, hs) e = let same : y ≡ x = cc in subst P same h
  All-get_elem? (y ∷ ys) (suc k) {x} (h, hs) e = All-get_elem? ys k {x = x} hs e

module _ {ℓ} {A : Type ℓ} where
  -- An element of a list that satisfies a test.
  abbrev pub Kept : (A → Bool) → List A → A → Type ℓ
  Kept p xs x = (k : ℕ) × (get_elem? xs k ≡ some x) × (p x ≡ true)

  pub keep-All : (p : A → Bool) (xs : List A) → All (Kept p xs) (keep p xs)
  keep-All p [] = tt
  keep-All p (x ∷ xs) =
      let rest : All (Kept p (x ∷ xs)) (keep p xs) =
        All-map (Kept p xs) (Kept p (x ∷ xs)) (keep p xs) (λ y (k, at, h). (suc k, at, h))
          (keep-All p xs) in
      elim (Bool-cases (p x)) [
        | inl here ↦ rw here ((0, refl, here), rest)
        | inr gone ↦ rw gone rest
      ]
