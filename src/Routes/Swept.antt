-- ===== src/Routes/Swept.antt =====
-- The sweep judges every trigger in turn: it creates a paid run for it, or has a reason not to.
use ai_agent_workflow_builde.Common.{
  ℕ, ◌<◌, String, true, false, ◌≡◌, ◌≢◌, refl, sym, subst, ◌∙◌, Option, none, some, inl, inr, List,
  [], ◌∷◌, ◌==◌, eqb, count_where, get_elem?, All-get_elem?, Bool-cases, arith,
}
use ai_agent_workflow_builde.Domain.{Time, Thrown}
use ai_agent_workflow_builde.Host.{Host}
use ai_agent_workflow_builde.Network.{Network}
use ai_agent_workflow_builde.Store.{Db, World}
use ai_agent_workflow_builde.Store.Program.{Result, ok, err, out_of_fuel, settle}
use ai_agent_workflow_builde.Authz.{is_archived}
use ai_agent_workflow_builde.Runs.{CreatedRun, create_run_with_quota}
use ai_agent_workflow_builde.Runs.Halting.{create_run_with_quota-Halts}
use ai_agent_workflow_builde.Runs.Paid.{IsGranted, IsInserted, create_run-paid}
use ai_agent_workflow_builde.Routes.Schedule.{
  DueTrigger, Verdict, dispatched, skipped, Sweep, record_verdict, is_early, early_message,
  scheduled_run, dispatch, dispatch_due, consider, sweep, reason_of, due_triggers,
}
use ai_agent_workflow_builde.Routes.Due.{
  NumberLaws, IsTabled, due_triggers-IsTabled, Configured, configured, is_too_soon,
  is_early-eq-is_too_soon,
}

module _ {N : Type 0} (host : Host N) (net : Network N) where
  -- A run has been created for the trigger: its workflow can run, its latest scheduled run, if any,
  -- is old enough, its organization has paid for one run, and that run is the only one added.
  pub record IsSent (time : Time) (t : DueTrigger N) (run_id : String) (w w' : World N)
      : Type 0 where
    pub runnable : is_archived t.workflow.status ≡ false
    pub has_steps : t.step_count ≢ 0
    pub waited :
        (last : Time) (n : N)
        → t.last ≡ some last
        → Configured host net t n
        → is_too_soon host net (net.minutes_between time last) n ≡ false
    pub reserved : Db N
    pub created : CreatedRun
    pub named : run_id ≡ created.run_id
    pub granted :
        IsGranted t.workflow.org_id
          (host.month_start (host.time w.tick))
          w.db
          reserved
          created.quota
    pub inserted : IsInserted host (scheduled_run host net t) reserved w'.db created.quota created

  -- Why a trigger is passed over, with the reason that is recorded. Nothing has happened then,
  -- unless the creation of the run was tried and threw.
  pub data IsSkipped (time : Time) (t : DueTrigger N) : String → World N → World N → Type 0 where
    archived :
        (w : World N)
        → is_archived t.workflow.status ≡ true
        → IsSkipped time t "workflow archived" w w
    stepless : (w : World N) → t.step_count ≡ 0 → IsSkipped time t "workflow has no steps" w w
    too_early :
        (last : Time) (n : N) (w : World N)
        → t.last ≡ some last
        → Configured host net t n
        → is_too_soon host net (net.minutes_between time last) n ≡ true
        → IsSkipped time t (early_message host net time t last) w w
    not_created :
        (e : Thrown) (w w' : World N)
        → create_run_with_quota host (scheduled_run host net t) w ≡ (err e, w')
        → IsSkipped time t (reason_of e) w w'

  abbrev pub Judged : Time → DueTrigger N → Verdict → World N → World N → Type 0
  Judged time t (dispatched run_id) w w' = IsSent time t run_id w w'
  Judged time t (skipped reason) w w' = IsSkipped time t reason w w'

  -- The triggers in order, each judged in the state that the ones before it left, and what is
  -- recorded: the run of each that was sent, and each that was skipped with its reason.
  pub data IsSwept (time : Time) : List (DueTrigger N) → World N → Sweep → World N → Type 0 where
    finished :
        (w : World N) → IsSwept time [] w (record { dispatched_ids = []; skipped_triggers = [] }) w
    sent :
        (t : DueTrigger N) (ts : List (DueTrigger N)) (run_id : String) (s : Sweep)
        (w w1 w2 : World N)
        → IsSent time t run_id w w1
        → IsSwept time ts w1 s w2
        → IsSwept time (t ∷ ts) w (record s { dispatched_ids = run_id ∷ s.dispatched_ids }) w2
    left_out :
        (t : DueTrigger N) (ts : List (DueTrigger N)) (reason : String) (s : Sweep)
        (w w1 w2 : World N)
        → IsSkipped time t reason w w1
        → IsSwept time ts w1 s w2
        → IsSwept time
            (t ∷ ts)
            w
            (record s { skipped_triggers = (t.trigger.id, reason) ∷ s.skipped_triggers })
            w2

  -- A program that returns a verdict, and the verdict is right.
  abbrev Judges : Time → DueTrigger N → World N → Result Verdict × World N → Type 0
  Judges time t w p = (v : Verdict) × (w' : World N) × (p ≡ (ok v, w')) × Judged time t v w w'

  module _ (laws : NumberLaws host net) (time : Time) (t : DueTrigger N)
      (runnable : is_archived t.workflow.status ≡ false) (has_steps : t.step_count ≢ 0) where
    dispatch-Judges :
        (w : World N)
        → ((last : Time) (n : N)
            → t.last ≡ some last
            → Configured host net t n
            → is_too_soon host net (net.minutes_between time last) n ≡ false)
        → Judges time t w (dispatch host net t w)
    unfolding dispatch
    dispatch-Judges w waited =
        go (create_run_with_quota host (scheduled_run host net t) w)
          (create_run_with_quota-Halts host (scheduled_run host net t) w) refl
      where
        go :
            (p : Result CreatedRun × World N)
            → p.0 ≢ out_of_fuel
            → create_run_with_quota host (scheduled_run host net t) w ≡ p
            → Judges time t w (
                settle p
                  (λ e w. (ok (skipped (reason_of e)), w))
                  (λ c w. (ok (dispatched c.run_id), w)))
        go (ok c, w') h made =
            let (reserved, granted, inserted) =
              create_run-paid host (scheduled_run host net t) w w' c made in
            (
              dispatched c.run_id,
              w',
              refl,
              record {
                runnable = runnable;
                has_steps = has_steps;
                waited = waited;
                reserved = reserved;
                created = c;
                named = refl;
                granted = granted;
                inserted = inserted;
              },
            )
        go (err e, w') h made = (skipped (reason_of e), w', refl, not_created e w w' made)
        go (out_of_fuel, w') h made = absurd (h refl)

    dispatch_due-Judges :
        (last : Option Time) (w : World N)
        → t.last ≡ last
        → Judges time t w (dispatch_due host net time t last w)
    unfolding dispatch_due
    dispatch_due-Judges none w never = dispatch-Judges w (λ last n at c. cc)
    dispatch_due-Judges (some last) w latest = elim (Bool-cases (is_early host net time t last)) [
      | inl early ↦
          let (n, c) = configured host net laws t in
          rw (early, dispatch_due)
            (
              _,
              w,
              refl,
              too_early last n w latest c
                  (sym (is_early-eq-is_too_soon host net laws time t last n c) ∙ early),
            )
      | inr due ↦
          rw (due, dispatch_due)
            (dispatch-Judges w (λ l n at c.
              let same : last ≡ l = cc in
              sym (is_early-eq-is_too_soon host net laws time t l n c)
              ∙ subst (λ x. is_early host net time t x ≡ false) same due))
    ]

  consider-Judges :
      NumberLaws host net
      → (time : Time) (t : DueTrigger N) (w : World N)
      → Judges time t w (consider host net time t w)
  unfolding consider
  consider-Judges laws time t w = elim (Bool-cases (is_archived t.workflow.status)) [
    | inl closed ↦ rw (closed, consider) (_, w, refl, archived w closed)
    | inr live ↦ elim (Bool-cases (eqb t.step_count 0)) [
      | inl empty ↦ rw (live, empty, consider) (_, w, refl, stepless w (ground arith))
      | inr steps ↦
          rw (live, steps, consider)
            (dispatch_due-Judges laws time t live (λ e. ground arith) t.last w refl)
    ]
  ]

  -- The sweep over triggers that have been read returns, whichever of its further requests fail. It
  -- has judged every trigger in order, in the state that the ones before it left, and recorded just
  -- that: the id of the run created for it, or the trigger's id with the reason for passing it
  -- over. A run is created only for a workflow that is not archived, has steps and has waited long
  -- enough, takes one unit of quota, and is the only run added. A trigger is passed over only if
  -- its workflow is archived or without steps, its latest scheduled run is too young (less than 15
  -- minutes or than the configured ones, 60 by default, where these are a number), or the creation
  -- of the run threw.
  pub sweep_complete :
      NumberLaws host net
      → (time : Time) (ts : List (DueTrigger N)) (w : World N)
      → (s : Sweep) × (w' : World N) × (sweep host net time ts w ≡ (ok s, w'))
        × IsSwept time ts w s w'
  unfolding sweep
  sweep_complete laws time [] w = (_, w, refl, finished w)
  sweep_complete laws time (t ∷ ts) w =
      let (v, w1, considered, judged) = consider-Judges laws time t w in
      let (s, w2, swept, rest) = sweep_complete laws time ts w1 in
      (
        record_verdict t.trigger.id v s,
        w2,
        (rw (considered, swept, sweep) refl),
        add v s w1 w2 judged rest,
      )
    where
      add :
          (v : Verdict) (s : Sweep) (w1 w2 : World N)
          → Judged time t v w w1
          → IsSwept time ts w1 s w2
          → IsSwept time (t ∷ ts) w (record_verdict t.trigger.id v s) w2
      add (dispatched run_id) s w1 w2 judged rest = sent t ts run_id s w w1 w2 judged rest
      add (skipped reason) s w1 w2 judged rest = left_out t ts reason s w w1 w2 judged rest

  -- A trigger of the tables `d`, for which a run has been created.
  pub record IsDispatched (d : Db N) (time : Time) (t : DueTrigger N) (run_id : String)
      (w w' : World N) : Type 0 where
    pub tabled : IsTabled d t
    pub has_steps : 0 < count_where (λ s. s.workflow_id == t.workflow.id) d.engine.steps
    pub created : IsSent time t run_id w w'

  -- Where the sweep dispatches one of the triggers that its query finds in the tables d, the
  -- trigger is there as a scheduled and enabled one; its workflow is the one that it names, is not
  -- archived and has a step; the latest scheduled run of that workflow in d, if any, is at least 15
  -- minutes old and at least as old as configured (60 minutes by default), where the configured
  -- value converts to a number; the organization had quota left and one more unit of it is used;
  -- and exactly one run has been added, pending, of that workflow.
  pub consider-IsDispatched :
      NumberLaws host net
      → (d : Db N) (k : ℕ) (time : Time) (t : DueTrigger N) (run_id : String) (w w' : World N)
      → get_elem? (due_triggers d) k ≡ some t
      → consider host net time t w ≡ (ok (dispatched run_id), w')
      → IsDispatched d time t run_id w w'
  consider-IsDispatched laws d k time t run_id w w' at h =
      let (v, w1, considered, judged) = consider-Judges laws time t w in
      let same : Path (Result Verdict × World N) (ok v, w1) (ok (dispatched run_id), w') =
        sym considered ∙ h in
      let verdict : v ≡ dispatched run_id = cc in
      let world : w1 ≡ w' = cc in
      let tabled = All-get_elem? (IsTabled d) (due_triggers d) k (due_triggers-IsTabled d) at in
      let created : IsSent time t run_id w w' =
        subst (λ x. Judged time t (dispatched run_id) w x) world
          (subst (λ x. Judged time t x w w1) verdict judged) in
      let some_steps = created.has_steps in
      let counted = tabled.counted in
      record { tabled = tabled; has_steps = ground arith; created = created }
