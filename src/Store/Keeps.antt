-- ===== src/Store/Keeps.antt =====
-- Relations between the database before and after a program, whichever way the program ends.
use ai_agent_workflow_builde.Common.{◌≡◌, refl, Option, none, some, arith}
use ai_agent_workflow_builde.Domain.{Thrown}
use ai_agent_workflow_builde.Host.{Host, Delivery, answered, refused, lost}
use ai_agent_workflow_builde.Store.{Db, World}
use ai_agent_workflow_builde.Store.Program.{
  Result, ok, err, out_of_fuel, Program, and_then, settle, deliver, request,
}

abbrev pub Keeps : {N A : Type 0} → (Db N → Db N → Type 0) → Program N A → Type 0
Keeps {N} R p = (w : World N) → R w.db (p w).1.db

-- A reflexive and transitive relation.
pub record IsFrame {N : Type 0} (R : Db N → Db N → Type 0) : Type 0 where
  pub same : (d : Db N) → R d d
  pub trans : (a b c : Db N) → R a b → R b c → R a c

module _ {N : Type 0} {R : Db N → Db N → Type 0} (frame : IsFrame R) where
  module _ {A B : Type 0} where
    pub and_then-Keeps :
        (d : Db N) (p : Result A × World N) (f : A → Program N B)
        → R d p.1.db
        → ((a : A) → Keeps R (f a))
        → R d (and_then p f).1.db
    and_then-Keeps d (ok a, w) f h k = frame.trans _ _ _ h (k a w)
    and_then-Keeps d (err e, w) f h k = h
    and_then-Keeps d (out_of_fuel, w) f h k = h

    pub settle-Keeps :
        (d : Db N) (p : Result A × World N) (on_error : Thrown → Program N B)
        (next : A → Program N B)
        → R d p.1.db
        → ((e : Thrown) → Keeps R (on_error e))
        → ((a : A) → Keeps R (next a))
        → R d (settle p on_error next).1.db
    settle-Keeps d (ok a, w) g f h e k = frame.trans _ _ _ h (k a w)
    settle-Keeps d (err t, w) g f h e k = frame.trans _ _ _ h (e t w)
    settle-Keeps d (out_of_fuel, w) g f h e k = h

  -- A request keeps the relation if its operation does.
  module _ {A : Type 0} (host : Host N) (op : Db N → Option (A × Db N)) where
    deliver-Keeps :
        (delivery : Delivery) (result : Option (A × Db N)) (w : World N)
        → ((a : A) (d' : Db N) → result ≡ some (a, d') → R w.db d')
        → R w.db (deliver host delivery result w).1.db
    deliver-Keeps answered none w h = frame.same _
    deliver-Keeps answered (some (a, d)) w h = h a d refl
    deliver-Keeps refused result w h = frame.same _
    deliver-Keeps lost none w h = frame.same _
    deliver-Keeps lost (some (a, d)) w h = h a d refl

    pub request-Keeps :
        ((d : Db N) (a : A) (d' : Db N) → op d ≡ some (a, d') → R d d') → Keeps R (request host op)
    unfolding request
    request-Keeps h w = deliver-Keeps (host.delivery w.tick) (op w.db) w (h w.db)

-- A request that was answered has been performed.
module _ {N A : Type 0} (host : Host N) where
  deliver-eq-ok :
      (delivery : Delivery) (result : Option (A × Db N)) (w : World N) {a : A} {w' : World N}
      → deliver host delivery result w ≡ (ok a, w')
      → result ≡ some (a, w'.db)
  deliver-eq-ok answered none w h = cc
  deliver-eq-ok answered (some (b, d)) w h = ground arith
  deliver-eq-ok refused result w h = cc
  deliver-eq-ok lost none w h = cc
  deliver-eq-ok lost (some (b, d)) w h = cc

  pub request-eq-ok :
      (op : Db N → Option (A × Db N)) (w : World N) {a : A} {w' : World N}
      → request host op w ≡ (ok a, w')
      → op w.db ≡ some (a, w'.db)
  unfolding request
  request-eq-ok op w h = deliver-eq-ok (host.delivery w.tick) (op w.db) w h
