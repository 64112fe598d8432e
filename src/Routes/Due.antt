-- ===== src/Routes/Due.antt =====
-- The rows behind a scheduled trigger, and when it is due, said without the code's own test.
use ai_agent_workflow_builde.Common.{
  ℕ, ◌≤◌, String, Bool, true, false, ◌&&◌, ◌||◌, ◌≡◌, ◌⊎◌, refl, ap, sym, ◌∙◌, Option, none, some,
  inl, inr, List, [], ◌∷◌, ◌==◌, find, keep, take, any, All, Kept, All-take, keep-All, length-keep,
  count_where, get_elem?, get_or_else, if◌then◌else◌, leb, ltb, Bool-cases, Option-cases, arith,
}
use ai_agent_workflow_builde.Json.{Json, number, prop, non_null}
use ai_agent_workflow_builde.Domain.{Time, WorkflowRunRow}
use ai_agent_workflow_builde.Host.{Host}
use ai_agent_workflow_builde.Network.{Network}
use ai_agent_workflow_builde.Store.{Db, TriggerRow}
use ai_agent_workflow_builde.Routes.Schedule.{
  DueTrigger, is_scheduled, latest_scheduled, join_triggers, due_triggers, interval_of, is_early,
}

-- What JavaScript's numbers do, NaN included: a comparison with Math.max of two numbers is one with
-- either, and fails if one of them is NaN, the only number that differs from itself.
pub record NumberLaws {N : Type 0} (host : Host N) (net : Network N) : Type 0 where
  pub lt-max :
      (a b c : N)
      → host.num_lt a (net.num_max b c)
        ≡ (host.num_eq b b && host.num_eq c c) && (host.num_lt a b || host.num_lt a c)
  pub whole_numbers : (n : ℕ) → host.num_eq (host.of_ℕ n) (host.of_ℕ n) ≡ true
  pub converts_numbers : (n : N) → net.to_number (number n) ≡ n

module _ {N : Type 0} where
  abbrev pub is_scheduled_run : String → WorkflowRunRow N → Bool
  is_scheduled_run workflow_id r = r.workflow_id == workflow_id && is_scheduled r.trigger_type

  -- No scheduled run of the workflow is there, or `last` is when one of them was created, and none
  -- of them was created later.
  abbrev pub IsLatest : String → List (WorkflowRunRow N) → Option Time → Type 0
  IsLatest workflow_id runs none = any (is_scheduled_run workflow_id) runs ≡ false
  IsLatest workflow_id runs (some last) =
      (any (λ r. is_scheduled_run workflow_id r && leb last r.created_at) runs ≡ true)
      × (any (λ r. is_scheduled_run workflow_id r && ltb last r.created_at) runs ≡ false)

  -- The trigger as the tables have it.
  pub record IsTabled (d : Db N) (t : DueTrigger N) : Type 0 where
    pub position : ℕ
    pub listed : get_elem? d.triggers position ≡ some t.trigger
    pub scheduled : is_scheduled t.trigger.type ≡ true
    pub enabled : t.trigger.enabled ≡ true
    pub owned : find (λ w. w.id == t.trigger.workflow_id) d.engine.workflows ≡ some t.workflow
    pub counted : t.step_count ≡ count_where (λ s. s.workflow_id == t.workflow.id) d.engine.steps
    pub latest : IsLatest t.workflow.id d.engine.runs t.last

  later :
      (workflow_id : String) (runs : List (WorkflowRunRow N)) (old new : Time)
      → old ≤ new
      → any (λ r. is_scheduled_run workflow_id r && ltb old r.created_at) runs ≡ false
      → any (λ r. is_scheduled_run workflow_id r && ltb new r.created_at) runs ≡ false
  later workflow_id [] old new le h = refl
  later workflow_id (r ∷ rs) old new le h = ground (arith, later workflow_id rs old new le)

  none_later :
      (workflow_id : String) (runs : List (WorkflowRunRow N)) (last : Time)
      → any (is_scheduled_run workflow_id) runs ≡ false
      → any (λ r. is_scheduled_run workflow_id r && ltb last r.created_at) runs ≡ false
  none_later workflow_id [] last h = refl
  none_later workflow_id (r ∷ rs) last h = ground (arith, none_later workflow_id rs last)

  latest_scheduled-IsLatest :
      (workflow_id : String) (runs : List (WorkflowRunRow N))
      → IsLatest workflow_id runs (latest_scheduled workflow_id runs)
  unfolding latest_scheduled
  latest_scheduled-IsLatest workflow_id [] = refl
  latest_scheduled-IsLatest workflow_id (r ∷ rs) =
      step (latest_scheduled workflow_id rs) (latest_scheduled-IsLatest workflow_id rs)
    where
      step :
          (rest : Option Time)
          → IsLatest workflow_id rs rest
          → IsLatest workflow_id (r ∷ rs) (
              if is_scheduled_run workflow_id r
              then elim rest [
                | none ↦ some r.created_at
                | some t ↦ if ltb r.created_at t then some t else some r.created_at
              ]
              else rest)
      step none h = elim (Bool-cases (is_scheduled_run workflow_id r)) [
        | inr other ↦ rw other (ground arith)
        | inl run ↦
            let rest = none_later workflow_id rs r.created_at h in
            rw run (ground arith, ground arith)
      ]
      step (some t) (there, final) = elim (Bool-cases (is_scheduled_run workflow_id r)) [
        | inr other ↦ rw other (ground arith, ground arith)
        | inl run ↦ elim (Bool-cases (ltb r.created_at t)) [
          | inl older ↦ rw run (rw older (ground arith, ground arith))
          | inr newer ↦
              let rest = later workflow_id rs t r.created_at (ground arith) final in
              rw run (rw newer (ground arith, ground arith))
        ]
      ]

  abbrev is_live : TriggerRow N → Bool
  is_live t = is_scheduled t.type && t.enabled

  join_triggers-IsTabled :
      (d : Db N) (ts : List (TriggerRow N))
      → All (Kept is_live d.triggers) ts
      → All (IsTabled d) (join_triggers d ts)
  unfolding join_triggers
  join_triggers-IsTabled d [] h = tt
  join_triggers-IsTabled d (t ∷ ts) ((k, at, live), hs) =
      elim (Option-cases (find (λ w. w.id == t.workflow_id) d.engine.workflows)) [
        | inl missing ↦ rw (missing, join_triggers) (join_triggers-IsTabled d ts hs)
        | inr (wf, found) ↦
            rw (found, join_triggers)
              (
                record {
                  position = k;
                  listed = at;
                  scheduled = ground arith;
                  enabled = ground arith;
                  owned = found;
                  counted = length-keep (λ s. s.workflow_id == wf.id) d.engine.steps;
                  latest = latest_scheduled-IsLatest wf.id d.engine.runs;
                },
                join_triggers-IsTabled d ts hs,
              )
      ]

  pub due_triggers-IsTabled : (d : Db N) → All (IsTabled d) (due_triggers d)
  unfolding due_triggers
  due_triggers-IsTabled d = join_triggers-IsTabled d (take 100 (keep is_live d.triggers)) (
      All-take (Kept is_live d.triggers) 100 (keep is_live d.triggers)
        (keep-All is_live d.triggers))

module _ {N : Type 0} (host : Host N) (net : Network N) where
  -- The minutes in the trigger's configuration, 60 if there are none, converted to a number.
  abbrev pub Configured : DueTrigger N → N → Type 0
  Configured t n =
      ((non_null (prop "every_minutes" t.trigger.config) ≡ none) × (n ≡ host.of_ℕ 60))
      ⊎ ((v : Json N) × (non_null (prop "every_minutes" t.trigger.config) ≡ some v)
          × (n ≡ net.to_number v))

  pub configured : NumberLaws host net → (t : DueTrigger N) → (n : N) × Configured t n
  configured laws t = elim (Option-cases (non_null (prop "every_minutes" t.trigger.config))) [
    | inl unset ↦ (host.of_ℕ 60, inl (unset, refl))
    | inr (v, set) ↦ (net.to_number v, inr (v, set, refl))
  ]

  -- The last run is not 15 minutes old, or not as old as configured; a configuration that is not a
  -- number sets no interval.
  abbrev pub is_too_soon : N → N → Bool
  is_too_soon elapsed n =
      host.num_eq n n && (host.num_lt elapsed (host.of_ℕ 15) || host.num_lt elapsed n)

  interval_of-Configured :
      NumberLaws host net
      → (t : DueTrigger N) (n : N) → Configured t n
      → interval_of host net t ≡ net.num_max (host.of_ℕ 15) n
  unfolding interval_of
  interval_of-Configured laws t n (inl (unset, sixty)) =
      ap (λ x. net.num_max (host.of_ℕ 15) (net.to_number (get_or_else x (number (host.of_ℕ 60)))))
        unset
      ∙ ap (net.num_max (host.of_ℕ 15)) (laws.converts_numbers (host.of_ℕ 60) ∙ sym sixty)
  interval_of-Configured laws t n (inr (v, set, converted)) =
      ap (λ x. net.num_max (host.of_ℕ 15) (net.to_number (get_or_else x (number (host.of_ℕ 60)))))
        set
      ∙ ap (net.num_max (host.of_ℕ 15)) (sym converted)

  pub is_early-eq-is_too_soon :
      NumberLaws host net
      → (time : Time) (t : DueTrigger N) (last : Time) (n : N) → Configured t n
      → is_early host net time t last ≡ is_too_soon (net.minutes_between time last) n
  is_early-eq-is_too_soon laws time t last n c =
      let elapsed = net.minutes_between time last in
      ap (host.num_lt elapsed) (interval_of-Configured laws t n c)
      ∙ (laws.lt-max elapsed (host.of_ℕ 15) n
          ∙ ap
              (λ x.
                (x && host.num_eq n n)
                && (host.num_lt elapsed (host.of_ℕ 15) || host.num_lt elapsed n))
              (laws.whole_numbers 15))
