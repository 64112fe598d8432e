-- ===== src/Store/Ends.antt =====
-- Programs that no bound cuts off, with what holds of the values they return.
use ai_agent_workflow_builde.Common.{◌≡◌, ◌≢◌, refl, subst, Option, none, some}
use ai_agent_workflow_builde.Domain.{Thrown}
use ai_agent_workflow_builde.Host.{Host, Delivery, answered, refused, lost}
use ai_agent_workflow_builde.Store.{Db, World}
use ai_agent_workflow_builde.Store.Program.{
  Result, ok, err, out_of_fuel, Program, and_then, settle, deliver, request,
}

pub record Ends {N A : Type 0} (Q : A → Type 0) (p : Result A × World N) : Type 0 where
  pub halted : p.0 ≢ out_of_fuel
  pub returned : (a : A) (w : World N) → p ≡ (ok a, w) → Q a

abbrev pub Halts : {N A : Type 0} → Program N A → Type 0
Halts {N} p = (w : World N) → (p w).0 ≢ out_of_fuel

module _ {N A : Type 0} (Q : A → Type 0) where
  pub Ends-pure : (a : A) (w : World N) → Q a → Ends {N = N} Q (ok a, w)
  Ends-pure a w h = record { halted = λ e. cc; returned = λ b w' e. go b w' e }
    where
      go : (b : A) (w' : World N) → Path (Result A × World N) (ok a, w) (ok b, w') → Q b
      go b w' e = let same : a ≡ b = cc in subst Q same h

  pub Ends-throw : (e : Thrown) (w : World N) → Ends {N = N} Q (err e, w)
  Ends-throw e w = record { halted = λ h. cc; returned = λ b w' h. cc }

module _ {N A B : Type 0} (P : A → Type 0) (Q : B → Type 0) where
  pub Ends-and_then :
      (p : Result A × World N) (f : A → Program N B)
      → Ends P p
      → ((a : A) (w : World N) → P a → Ends Q (f a w))
      → Ends Q (and_then p f)
  Ends-and_then (ok a, w) f h k = k a w (h.returned a w refl)
  Ends-and_then (err e, w) f h k = Ends-throw Q e w
  Ends-and_then (out_of_fuel, w) f h k = absurd (h.halted refl)

module _ {N A B : Type 0} (Q : B → Type 0) where
  -- After a program of which only the end is known.
  pub Ends-after :
      (p : Result A × World N) (f : A → Program N B)
      → p.0 ≢ out_of_fuel
      → ((a : A) (w : World N) → Ends Q (f a w))
      → Ends Q (and_then p f)
  Ends-after (ok a, w) f h k = k a w
  Ends-after (err e, w) f h k = Ends-throw Q e w
  Ends-after (out_of_fuel, w) f h k = absurd (h refl)

  pub Ends-settle :
      (p : Result A × World N) (g : Thrown → Program N B) (f : A → Program N B)
      → p.0 ≢ out_of_fuel
      → ((e : Thrown) (w : World N) → Ends Q (g e w))
      → ((a : A) (w : World N) → Ends Q (f a w))
      → Ends Q (settle p g f)
  Ends-settle (ok a, w) g f h e k = k a w
  Ends-settle (err t, w) g f h e k = e t w
  Ends-settle (out_of_fuel, w) g f h e k = absurd (h refl)

module _ {N A B : Type 0} where
  pub and_then-Halts :
      (p : Result A × World N) (f : A → Program N B)
      → p.0 ≢ out_of_fuel
      → ((a : A) → Halts (f a))
      → (and_then p f).0 ≢ out_of_fuel
  and_then-Halts (ok a, w) f h k = k a w
  and_then-Halts (err e, w) f h k = λ e. cc
  and_then-Halts (out_of_fuel, w) f h k = absurd (h refl)

  pub settle-Halts :
      (p : Result A × World N) (g : Thrown → Program N B) (f : A → Program N B)
      → p.0 ≢ out_of_fuel
      → ((e : Thrown) → Halts (g e))
      → ((a : A) → Halts (f a))
      → (settle p g f).0 ≢ out_of_fuel
  settle-Halts (ok a, w) g f h e k = k a w
  settle-Halts (err t, w) g f h e k = e t w
  settle-Halts (out_of_fuel, w) g f h e k = absurd (h refl)

module _ {N A : Type 0} (host : Host N) where
  deliver-halted :
      (delivery : Delivery) (result : Option (A × Db N)) (w : World N)
      → (deliver host delivery result w).0 ≢ out_of_fuel
  deliver-halted answered none w = λ e. cc
  deliver-halted answered (some (a, d)) w = λ e. cc
  deliver-halted refused result w = λ e. cc
  deliver-halted lost result w = λ e. cc

  -- A request ends, whatever becomes of it.
  pub request-Halts : (op : Db N → Option (A × Db N)) → Halts (request host op)
  unfolding request
  request-Halts op w = deliver-halted (host.delivery w.tick) (op w.db) w
