-- ===== src/Steps/Http/Traffic.antt =====
-- What the requests of http_request go to: a record of the URLs that a program fetched, each with
-- the checks that it passed, and how the records of programs combine.
use mathlib.Core.List.{append_assoc}
use ai_agent_workflow_builde.Common.{
  ℕ, ◌+◌, ◌≤◌, String, ◌||◌, true, false, ◌≡◌, ◌≢◌, ◌⊎◌, refl, ap, sym, ◌∙◌, subst, some, List, [],
  ◌∷◌, ◌++◌, ◌==◌, length, length-append, All, arith,
}
use ai_agent_workflow_builde.Domain.{Thrown}
use ai_agent_workflow_builde.Env.{http_allow_private_network}
use ai_agent_workflow_builde.Host.{Host}
use ai_agent_workflow_builde.Network.{Network, Url, no_ip}
use ai_agent_workflow_builde.Store.{World}
use ai_agent_workflow_builde.Store.Program.{Result, ok, err, out_of_fuel, Program, and_then}
use ai_agent_workflow_builde.Steps.Http.Admission.{IsAdmissible}
use ai_agent_workflow_builde.Steps.Http.Guard.{bare_host}

module _ {N : Type 0} (host : Host N) (net : Network N) where
  -- The addresses of a host name: it is one itself, or the name server gave them.
  abbrev pub Found : String → List String → Type 0
  Found name addresses =
      ((net.is_ip name ≢ no_ip) × (addresses ≡ name ∷ []))
      ⊎ ((tick : ℕ) × (net.resolve_host tick name ≡ some addresses))

  pub record IsGuarded (url : Url) : Type 0 where
    pub scheme : (url.protocol == "http:" || url.protocol == "https:") ≡ true
    pub admitted :
        http_allow_private_network host ≡ false
        → (addresses : List String) × Found (bare_host url.hostname) addresses
          × All (IsAdmissible host net) addresses

  abbrev pub Guarded : Type 0
  Guarded = (url : Url) × IsGuarded url

  abbrev pub hrefs : List Guarded → List String
  hrefs [] = []
  hrefs (g ∷ gs) = g.0.href ∷ hrefs gs

  -- A program that ran from `w`: it ended, left the database alone and fetched at most `most` URLs.
  pub record Traffic {A : Type 0} (Q : A → Type 0) (most : ℕ) (w : World N) (p : Result A × World N)
      : Type 0 where
    pub halted : p.0 ≢ out_of_fuel
    pub same_db : p.1.db ≡ w.db
    pub fetched : List Guarded
    pub logged : p.1.sent ≡ hrefs fetched ++ w.sent
    pub few : length fetched ≤ most
    pub returned : (a : A) (w' : World N) → p ≡ (ok a, w') → Q a

  hrefs-append : (xs ys : List Guarded) → hrefs (xs ++ ys) ≡ hrefs xs ++ hrefs ys
  hrefs-append [] ys = refl
  hrefs-append (x ∷ xs) ys = ap (λ zs. x.0.href ∷ zs) (hrefs-append xs ys)

  module _ {A : Type 0} (Q : A → Type 0) where
    -- An answer that fetched nothing.
    pub Traffic-pure :
        (most : ℕ) (w w' : World N) (a : A)
        → w'.db ≡ w.db
        → w'.sent ≡ w.sent
        → Q a
        → Traffic Q most w (ok a, w')
    Traffic-pure most w w' a d s q = record {
      halted = λ e. cc;
      same_db = d;
      fetched = [];
      logged = s;
      few = omega arith;
      returned = λ b v e. let same : a ≡ b = cc in subst Q same q;
    }

    pub Traffic-throw : (most : ℕ) (w : World N) (e : Thrown) → Traffic Q most w (err e, w)
    Traffic-throw most w e = record {
      halted = λ h. cc;
      same_db = refl;
      fetched = [];
      logged = refl;
      few = omega arith;
      returned = λ b v h. cc;
    }

    pub Traffic-le :
        (P : A → Type 0) (m n : ℕ) (w : World N) (p : Result A × World N)
        → m ≤ n
        → ((a : A) → P a → Q a)
        → Traffic P m w p
        → Traffic Q n w p
    Traffic-le P m n w p le f t = record {
      halted = t.halted;
      same_db = t.same_db;
      fetched = t.fetched;
      logged = t.logged;
      few = let h = t.few in omega arith;
      returned = λ a w' e. f a (t.returned a w' e);
    }

  module _ {A B : Type 0} (P : A → Type 0) (Q : B → Type 0) where
    -- One run after another.
    joined :
        (m n : ℕ) (w v : World N) (a : A) (q : Result B × World N)
        → Traffic P m w (ok a, v)
        → Traffic Q n v q
        → Traffic Q (m + n) w q
    joined m n w v a q t u = record {
      halted = u.halted;
      same_db = u.same_db ∙ t.same_db;
      fetched = u.fetched ++ t.fetched;
      logged =
          u.logged
          ∙ (ap (λ rest. hrefs u.fetched ++ rest) t.logged
              ∙ (sym (append_assoc (hrefs u.fetched) (hrefs t.fetched) w.sent)
                  ∙ ap (λ urls. urls ++ w.sent) (sym (hrefs-append u.fetched t.fetched))));
      few =
          let both = length-append u.fetched t.fetched in
          let first = t.few in let second = u.few in omega arith;
      returned = u.returned;
    }

    pub Traffic-and_then :
        (m n : ℕ) (w : World N) (p : Result A × World N) (f : A → Program N B)
        → Traffic P m w p
        → ((a : A) (v : World N) → P a → Traffic Q n v (f a v))
        → Traffic Q (m + n) w (and_then p f)
    Traffic-and_then m n w (ok a, v) f t k =
        joined m n w v a (f a v) t (k a v (t.returned a v refl))
    Traffic-and_then m n w (err e, v) f t k = record {
      halted = λ h. cc;
      same_db = t.same_db;
      fetched = t.fetched;
      logged = t.logged;
      few = let h = t.few in omega arith;
      returned = λ b u h. cc;
    }
    Traffic-and_then m n w (out_of_fuel, v) f t k = absurd (t.halted refl)
