-- ===== src/Store/Ensures.antt =====
-- What holds after a program that returned, with a rule for each way to compose programs.
use ai_agent_workflow_builde.Common.{◌≡◌, refl, subst}
use ai_agent_workflow_builde.Domain.{Thrown}
use ai_agent_workflow_builde.Store.{World}
use ai_agent_workflow_builde.Store.Program.{
  Result, ok, err, out_of_fuel, Program, and_then, settle, pure,
}

pub record Ensures {N A : Type 0} (Q : A → World N → Type 0) (p : Result A × World N) : Type 0 where
  pub holds : (a : A) (w : World N) → p ≡ (ok a, w) → Q a w

module _ {N A : Type 0} {Q : A → World N → Type 0} where
  pub Ensures-pure : (a : A) (w : World N) → Q a w → Ensures Q (pure a w)
  Ensures-pure a w h = record { holds = λ b w' e. subst (λ (p : Result A × World N). Met p) e h }
    where
      Met : Result A × World N → Type 0
      Met (ok b, w') = Q b w'
      Met (err _, _) = ⊥
      Met (out_of_fuel, _) = ⊥

module _ {N A B : Type 0} {P : A → World N → Type 0} {Q : B → World N → Type 0} where
  pub Ensures-and_then :
      (p : Result A × World N) (f : A → Program N B)
      → Ensures P p
      → ((a : A) (w : World N) → P a w → Ensures Q (f a w))
      → Ensures Q (and_then p f)
  Ensures-and_then (ok a, w) f h k = k a w (h.holds a w refl)
  Ensures-and_then (err e, w) f h k = record { holds = λ a w' e. cc }
  Ensures-and_then (out_of_fuel, w) f h k = record { holds = λ a w' e. cc }

module _ {N A B : Type 0} {Kept : World N → Type 0} {Q : B → World N → Type 0} where
  -- `Kept` holds however the body of the `try` ended.
  pub Ensures-settle :
      (p : Result A × World N) (on_error : Thrown → Program N B) (next : A → Program N B)
      → Kept p.1
      → ((e : Thrown) (w : World N) → Kept w → Ensures Q (on_error e w))
      → ((a : A) (w : World N) → Kept w → Ensures Q (next a w))
      → Ensures Q (settle p on_error next)
  Ensures-settle (ok a, w) g f h e k = k a w h
  Ensures-settle (err t, w) g f h e k = e t w h
  Ensures-settle (out_of_fuel, w) g f h e k = record { holds = λ a w' e. cc }
