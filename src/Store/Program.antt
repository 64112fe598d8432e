-- ===== src/Store/Program.antt =====
-- Programs over the world: state and exceptions. What was done stays done after a throw.
use ai_agent_workflow_builde.Common.{ℕ, ◌+◌, String, ◌≡◌, refl, ◌⊎◌, inl, inr, Option, none, some}
use ai_agent_workflow_builde.Domain.{Thrown, graphql_error, Time}
use ai_agent_workflow_builde.Host.{Host, Delivery, answered, refused, lost}
use ai_agent_workflow_builde.Store.{Db, World}

-- `out_of_fuel` is a run that the bound on its rounds cut off.
pub data Result (A : Type 0) : Type 0 where
  ok : A → Result A
  err : Thrown → Result A
  out_of_fuel : Result A

abbrev pub Program : Type 0 → Type 0 → Type 0
Program N A = World N → Result A × World N

module _ {N : Type 0} {A : Type 0} where
  abbrev pub pure : A → Program N A
  pure a w = (ok a, w)

  abbrev pub throw : Thrown → Program N A
  throw e w = (err e, w)

  abbrev pub diverge : Program N A
  diverge w = (out_of_fuel, w)

  -- A computed value or error, as a program.
  abbrev pub lift : Result A → Program N A
  lift r w = (r, w)

-- A computed outcome after another.
abbrev pub chain : {A B : Type 0} → Result A → (A → Result B) → Result B
chain (ok a) f = f a
chain (err e) f = err e
chain out_of_fuel f = out_of_fuel

module _ {N : Type 0} {A B : Type 0} where
  abbrev pub and_then : Result A × World N → (A → Program N B) → Result B × World N
  and_then (ok a, w) f = f a w
  and_then (err e, w) f = (err e, w)
  and_then (out_of_fuel, w) f = (out_of_fuel, w)

  infixl 5 ◌>>=◌ ◌>>◌
  abbrev pub ◌>>=◌ : Program N A → (A → Program N B) → Program N B
  ◌>>=◌ m f w = and_then (m w) f

  abbrev pub ◌>>◌ : Program N A → Program N B → Program N B
  m >> k = m >>= λ _. k

  abbrev pub settle :
      Result A × World N → (Thrown → Program N B) → (A → Program N B) → Result B × World N
  settle (ok a, w) on_error next = next a w
  settle (err e, w) on_error next = on_error e w
  settle (out_of_fuel, w) on_error next = (out_of_fuel, w)

  -- `try { a = m } catch (e) { return on_error(e) } return next(a)`
  abbrev pub handle : Program N A → (Thrown → Program N B) → (A → Program N B) → Program N B
  handle m on_error next w = settle (m w) on_error next

  -- A call that returned: its parts returned.
  pub and_then-eq-ok :
      (p : Result A × World N) (f : A → Program N B) {b : B} {w' : World N}
      → and_then p f ≡ (ok b, w')
      → (a : A) × (w : World N) × (p ≡ (ok a, w)) × (f a w ≡ (ok b, w'))
  and_then-eq-ok (ok a, w) f h = (a, w, refl, h)
  and_then-eq-ok (err e, w) f h = cc
  and_then-eq-ok (out_of_fuel, w) f h = cc

  -- A `try` that returned: its body returned, or it threw and the handler returned.
  pub settle-eq-ok :
      (p : Result A × World N) (on_error : Thrown → Program N B) (next : A → Program N B) {b : B}
      {w' : World N}
      → settle p on_error next ≡ (ok b, w')
      → ((a : A) × (w : World N) × (p ≡ (ok a, w)) × (next a w ≡ (ok b, w')))
        ⊎ ((e : Thrown) × (w : World N) × (p ≡ (err e, w)) × (on_error e w ≡ (ok b, w')))
  settle-eq-ok (ok a, w) on_error next h = inl (a, w, refl, h)
  settle-eq-ok (err e, w) on_error next h = inr (e, w, refl, h)
  settle-eq-ok (out_of_fuel, w) on_error next h = cc

module _ {N : Type 0} (host : Host N) where
  -- `Date.now()` at this point of the run.
  abbrev pub now : Program N Time
  now w = (ok (host.time w.tick), w)

  abbrev pub fresh_ids : Program N (ℕ → String)
  fresh_ids w = (ok (host.uuid w.tick), w)

  -- The answer to a request that reached the database.
  abbrev pub answer : {A : Type 0} → Option (A × Db N) → Program N A
  answer none w =
      (err (graphql_error "the database refused the request"), record w { tick = w.tick + 1 })
  answer (some (a, d)) w = (ok a, record w { db = d; tick = w.tick + 1 })

  abbrev pub deliver : {A : Type 0} → Delivery → Option (A × Db N) → Program N A
  deliver answered result w = answer result w
  deliver refused result w =
      (err (graphql_error "GraphQL request to Hasura failed"), record w { tick = w.tick + 1 })
  deliver lost result w =
      (err (graphql_error "GraphQL request to Hasura failed"), (answer result w).1)

  -- `adminRequest`, for an operation that the database may refuse.
  unfoldable pub request : {A : Type 0} → (Db N → Option (A × Db N)) → Program N A
  request op w = deliver (host.delivery w.tick) (op w.db) w

  -- A query.
  abbrev pub ask : {A : Type 0} → (Db N → A) → Program N A
  ask f = request (λ d. some (f d, d))
