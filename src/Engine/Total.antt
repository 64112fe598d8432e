-- ===== src/Engine/Total.antt =====
-- Executing a run comes to an end.
use ai_agent_workflow_builde.Common.{
  Bool, ◌≢◌, ℕ, zero, suc, ◌+◌, ◌≤◌, ◌<◌, ◌≡◌, refl, Option, none, some, arith, inl, inr,
  Option-cases, get_elem?, length, find_index, find_index-lt-length, leb, get_or_else,
}
use ai_agent_workflow_builde.Host.{Host}
use ai_agent_workflow_builde.Context.{RunContext}
use ai_agent_workflow_builde.Executors.{Executors, ExecutorsHalt}
use ai_agent_workflow_builde.Store.{World}
use ai_agent_workflow_builde.Store.Program.{Result, ok, err, Program, out_of_fuel, and_then}
use ai_agent_workflow_builde.Store.Ends.{Ends, Halts, and_then-Halts}
use ai_agent_workflow_builde.Repository.Halting.{mark_run_completed-Halts}
use ai_agent_workflow_builde.Tables.{RunBundle}
use ai_agent_workflow_builde.Domain.{WorkflowStepRow}
use ai_agent_workflow_builde.Engine.{
  ExecutionMode, start, resume, defaults, complete, after_round, run_loop, first_index,
  execute_bundle,
}
use ai_agent_workflow_builde.Engine.Rounds.{
  ExecutionOutcome, Round, stop, finish, continue_at, build_context,
}
use ai_agent_workflow_builde.Engine.Ending.{IsOnward, HasBoundedRetries, step_round-Advances}

module _ {N : Type 0} (host : Host N) (ex : Executors N) (halt : ExecutorsHalt ex) (fuel most : ℕ)
    (enough : most + 2 ≤ fuel) (bundle : RunBundle N)
    (bounded : HasBoundedRetries host (defaults host ex fuel) most bundle.steps) where
  complete-Halts : (executed : ℕ) → Halts (complete host ex fuel bundle.run.id executed)
  unfolding complete
  complete-Halts executed w =
      and_then-Halts _ _ (mark_run_completed-Halts host bundle.run.id w) λ u w1 e. cc

  after_round-Halts :
      (i : ℕ) (rest : ℕ → ℕ → RunContext N → Program N ExecutionOutcome)
      → ((j executed : ℕ) (ctx : RunContext N)
          → i < j
          → j ≤ length bundle.steps
          → Halts (rest j executed ctx))
      → (r : Round N) (w : World N) → IsOnward bundle.steps i r
      → (after_round host ex fuel bundle.run.id rest r w).0 ≢ out_of_fuel
  after_round-Halts i rest more (stop o) w on = λ e. cc
  after_round-Halts i rest more (finish n) w on = complete-Halts n w
  after_round-Halts i rest more (continue_at j n c) w (lt, le) = more j n c lt le w

  and_then-Ends-Halts :
      {A B : Type 0} (P : A → Type 0) (p : Result A × World N) (f : A → Program N B)
      → Ends P p
      → ((a : A) (w : World N) → P a → (f a w).0 ≢ out_of_fuel)
      → (and_then p f).0 ≢ out_of_fuel
  and_then-Ends-Halts P (ok a, w) f h k = k a w (h.returned a w refl)
  and_then-Ends-Halts P (err e, w) f h k = λ x. cc
  and_then-Ends-Halts P (out_of_fuel, w) f h k = absurd (h.halted refl)

  run_loop-Halts :
      (rounds i executed : ℕ) (ctx : RunContext N)
      → length bundle.steps + 1 ≤ rounds + i
      → i ≤ length bundle.steps
      → Halts (run_loop host ex fuel bundle rounds i executed ctx)
  unfolding run_loop
  run_loop-Halts zero i executed ctx left inside w = absurd (omega arith)
  run_loop-Halts (suc rounds) i executed ctx left inside w =
      elim (Option-cases (get_elem? bundle.steps i)) [
        | inl past ↦ rw (past, run_loop) (complete-Halts executed w)
        | inr (step, at) ↦
            rw (at, run_loop)
              (and_then-Ends-Halts (IsOnward bundle.steps i) _ _
                (step_round-Advances host ex halt fuel most enough (defaults host ex fuel) bundle i
                  step at bounded executed ctx w)
                (after_round-Halts i (run_loop host ex fuel bundle rounds)
                  λ j n c lt le. run_loop-Halts rounds j n c (omega arith) le))
      ]

  found-le-length :
      (o : Option ℕ) (p : WorkflowStepRow N → Bool)
      → find_index p bundle.steps ≡ o
      → get_or_else o (length bundle.steps) ≤ length bundle.steps
  found-le-length none p h = omega arith
  found-le-length (some i) p h = omega (arith, find_index-lt-length p bundle.steps h)

  first_index-le-length :
      (mode : ExecutionMode) → first_index host ex fuel mode bundle ≤ length bundle.steps
  unfolding first_index
  first_index-le-length start = omega arith
  first_index-le-length resume = elim (Option-cases bundle.run.resume_position) [
    | inl missing ↦ rw missing (omega arith)
    | inr (from, given) ↦ rw given (found-le-length _ (λ s. leb from s.position) refl)
  ]

  bundle-Halts : (mode : ExecutionMode) → Halts (execute_bundle host ex fuel mode bundle)
  unfolding execute_bundle
  bundle-Halts mode w =
      run_loop-Halts (suc (length bundle.steps)) (first_index host ex fuel mode bundle) 0
        (build_context host bundle) (omega arith) (first_index-le-length mode) w

-- If every execution of a step comes to an end, and no step configures more than `most` attempts,
-- with a fuel for the retries of at least most + 2, then the execution of a run comes to an end,
-- with an outcome or an error, in both modes and whatever becomes of its requests.
pub execute_bundle-Halts :
    {N : Type 0} (host : Host N) (ex : Executors N) (halt : ExecutorsHalt ex) (fuel most : ℕ)
    (bundle : RunBundle N) (mode : ExecutionMode)
    → most + 2 ≤ fuel
    → HasBoundedRetries host (defaults host ex fuel) most bundle.steps
    → Halts (execute_bundle host ex fuel mode bundle)
execute_bundle-Halts host ex halt fuel most bundle mode enough bounded =
    bundle-Halts host ex halt fuel most enough bundle bounded mode
