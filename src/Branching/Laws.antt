-- ===== src/Branching/Laws.antt =====
-- Where a branch may send the engine.
use ai_agent_workflow_builde.Common.{
  ℕ, ◌+◌, ◌<◌, String, Bool, ◌≡◌, refl, ◌⊎◌, inl, inr, none, some, List, Option-cases, Bool-cases,
  length, find_index, find_index-lt-length, ◌==◌,
}
use ai_agent_workflow_builde.Json.{Json, null, bool, number, string, array, object, lookup}
use ai_agent_workflow_builde.Domain.{WorkflowStepRow}
use ai_agent_workflow_builde.Host.{Host}
use ai_agent_workflow_builde.Store.Program.{ok}
use ai_agent_workflow_builde.Branching.{
  Target, index, end_run, resolve_branch_target, target_at, action_target, position_target,
  id_target, is_step_id, is_step_position,
}

module _ {N : Type 0} (host : Host N) where
  -- The index of a step of the workflow, the index after the current one, or the end.
  abbrev pub IsReachable : List (WorkflowStepRow N) → ℕ → Target → Type 0
  IsReachable steps current t =
      ((i : ℕ) × (t ≡ index i) × ((i < length steps) ⊎ (i ≡ current + 1))) ⊎ (t ≡ end_run)

  action-IsReachable :
      (action : Json N) (steps : List (WorkflowStepRow N)) (current : ℕ) (t : Target)
      → action_target host action current ≡ ok t
      → IsReachable steps current t
  unfolding action_target
  action-IsReachable (string s) steps current t h = elim (Bool-cases (s == "end")) [
    | inl ends ↦ let e = (rw ends at h) in inr cc
    | inr goes ↦ let e = (rw goes at h) in inl (current + 1, cc, inr refl)
  ]
  action-IsReachable null steps current t h = inl (current + 1, cc, inr refl)
  action-IsReachable (bool b) steps current t h = inl (current + 1, cc, inr refl)
  action-IsReachable (number n) steps current t h = inl (current + 1, cc, inr refl)
  action-IsReachable (array vs) steps current t h = inl (current + 1, cc, inr refl)
  action-IsReachable (object fs) steps current t h = inl (current + 1, cc, inr refl)

  found-IsReachable :
      (p : WorkflowStepRow N → Bool) (message : String) (steps : List (WorkflowStepRow N))
      (current : ℕ) (t : Target)
      → target_at host (find_index p steps) message ≡ ok t
      → IsReachable steps current t
  unfolding target_at
  found-IsReachable p message steps current t h = elim (Option-cases (find_index p steps)) [
    | inl missing ↦ let e = (rw missing at h) in cc
    | inr (i, found) ↦
        let e = (rw found at h) in inl (i, cc, inl (find_index-lt-length p steps found))
  ]

-- A branch target that resolves is a step of the workflow, the step after the branch, or the end of
-- the run: whatever JSON the target is, the engine is never sent past that.
pub resolve_branch_target-IsReachable :
    {N : Type 0} (host : Host N) (target : Json N) (steps : List (WorkflowStepRow N)) (current : ℕ)
    (t : Target)
    → resolve_branch_target host target steps current ≡ ok t
    → IsReachable host steps current t
unfolding resolve_branch_target position_target id_target
resolve_branch_target-IsReachable host (object fs) steps current t h =
    elim (Option-cases (lookup "action" fs)) [
      | inr (action, e1) ↦
          action-IsReachable host action steps current t (rw (e1, resolve_branch_target) at h)
      | inl no_action ↦
          let h1 = (rw (no_action, resolve_branch_target) at h) in
          elim (Option-cases (lookup "goto_step_id" fs)) [
            | inr (id, e2) ↦
                found-IsReachable host (is_step_id host (some id)) _ steps current t (rw e2 at h1)
            | inl no_id ↦
                found-IsReachable host (is_step_position host (lookup "goto_position" fs)) _ steps
                  current t (rw no_id at h1)
          ]
    ]
resolve_branch_target-IsReachable host (array vs) steps current t h =
    found-IsReachable host (is_step_position host none) _ steps current t h
resolve_branch_target-IsReachable host null steps current t h = cc
resolve_branch_target-IsReachable host (bool b) steps current t h = cc
resolve_branch_target-IsReachable host (number n) steps current t h = cc
resolve_branch_target-IsReachable host (string s) steps current t h = cc
