-- ===== src/Retry/Trials.antt =====
-- What `withRetry` has done when it ends: which attempts it made, and why it made no more.
use ai_agent_workflow_builde.Common.{
  ⊤, ℕ, zero, suc, ◌+◌, ◌≤◌, max, Bool, true, false, ◌&&◌, ◌≡◌, ◌≢◌, ◌⊎◌, refl, arith, inl, inr,
  Bool-cases, leb, ltb, Option, none, some,
}
use ai_agent_workflow_builde.Domain.{Thrown, other}
use ai_agent_workflow_builde.Host.{Host, Limit, finite}
use ai_agent_workflow_builde.Store.{World}
use ai_agent_workflow_builde.Store.Ends.{Halts}
use ai_agent_workflow_builde.Store.Program.{Result, ok, err, out_of_fuel, Program}
use ai_agent_workflow_builde.Retry.{
  RetryPolicy, AttemptInfo, backoff_delay, is_retryable, try_attempt, retry_from, with_retry,
}

-- A run that ended returned a value or threw an error.
Result-cases :
    {N A : Type 0} (p : Result A × World N)
    → p.0 ≢ out_of_fuel
    → ((a : A) × (w : World N) × (p ≡ (ok a, w)))
      ⊎ ((e : Thrown) × (w : World N) × (p ≡ (err e, w)))
Result-cases (ok a, w) h = inl (a, w, refl)
Result-cases (err e, w) h = inr (e, w, refl)
Result-cases (out_of_fuel, w) h = absurd (h refl)

abbrev pub report : ℕ → Option Thrown → Bool → Limit → AttemptInfo
report attempt error will_retry delay_ms = record {
  attempt = attempt;
  error = error;
  will_retry = will_retry;
  delay_ms = delay_ms;
}

module _ {N A : Type 0} (host : Host N) (fn : ℕ → Program N A)
    (on_attempt : AttemptInfo → Program N ⊤) where
  -- All attempts before the n-th have been made, from `w` on: each threw an error that is worth
  -- another attempt, and was reported with the delay of the backoff.
  pub data Retried (base : Limit) (w : World N) : ℕ → World N → Type 0 where
    first : Retried base w 1 w
    again :
        {n : ℕ} {v : World N} (e : Thrown) (v1 v2 : World N)
        → Retried base w n v
        → fn n v ≡ (err e, v1)
        → is_retryable e ≡ true
        → on_attempt (report n (some e) true (backoff_delay host v1.tick n base)) v1 ≡ (ok tt, v2)
        → Retried base w (suc n) v2

  -- The last attempt, number n, returned and was reported; or it threw an error that is permanent
  -- or came from the last attempt allowed, and was reported as final.
  pub data Ended (most : ℕ) (base : Limit) (w : World N) : Result A × World N → Type 0 where
    succeeded :
        (n : ℕ) (a : A) (before after w' : World N)
        → Retried base w n before
        → n ≤ most
        → fn n before ≡ (ok a, after)
        → on_attempt (report n none false (finite 0)) after ≡ (ok tt, w')
        → Ended most base w (ok a, w')
    gave_up :
        (n : ℕ) (e : Thrown) (before after w' : World N)
        → Retried base w n before
        → n ≤ most
        → fn n before ≡ (err e, after)
        → (is_retryable e ≡ false) ⊎ (n ≡ most)
        → on_attempt (report n (some e) false (finite 0)) after ≡ (ok tt, w')
        → Ended most base w (err e, w')

  module _ (most : ℕ) (base : Limit) (w : World N) (runs : (n : ℕ) → Halts (fn n))
      (reports : (i : AttemptInfo) (v : World N)
        → (v' : World N) × (on_attempt i v ≡ (ok tt, v'))) where
    abbrev bounded : RetryPolicy
    bounded = record { max_attempts = finite most; base_delay_ms = base }

    retry_from-Ended :
        (fuel n : ℕ) (last : Thrown) (v : World N)
        → Retried base w n v
        → n ≤ most
        → most + 1 ≤ n + fuel
        → Ended most base w (retry_from host fn on_attempt fuel bounded n last v)
    unfolding retry_from try_attempt
    retry_from-Ended zero n last v earlier le enough = absurd (omega arith)
    retry_from-Ended (suc fuel) n last v earlier le enough =
        let started : leb n most ≡ true = ground arith in
        elim (Result-cases (fn n v) (runs n v)) [
          | inl (a, after, returned) ↦
              let (w', reported) = reports (report n none false (finite 0)) after in
              rw (started, retry_from)
                (rw (returned, try_attempt)
                  (rw reported (succeeded n a v after w' earlier le returned reported)))
          | inr (e, after, failed) ↦ elim (Bool-cases (ltb n most && is_retryable e)) [
            | inr final ↦
                let (w', reported) = reports (report n (some e) false (finite 0)) after in
                rw (started, retry_from)
                  (rw (failed, try_attempt)
                    (rw final (
                      rw reported
                        (gave_up n e v after w' earlier le failed (why e n final le) reported))))
            | inl more ↦
                let delay = backoff_delay host after.tick n base in
                let (v2, reported) = reports (report n (some e) true delay) after in
                let (below, retryable) = both e n more in
                rw (started, retry_from)
                  (rw (failed, try_attempt)
                    (rw more (
                      rw reported (
                        retry_from-Ended fuel (suc n) e v2
                          (again e after v2 earlier failed retryable reported) below
                          (omega arith)))))
          ]
        ]
      where
        why :
            (e : Thrown) (n : ℕ)
            → (ltb n most && is_retryable e) ≡ false
            → n ≤ most
            → (is_retryable e ≡ false) ⊎ (n ≡ most)
        why e n final le = elim (Bool-cases (is_retryable e)) [
          | inr permanent ↦ inl permanent
          | inl retryable ↦ inr (ground arith)
        ]

        both :
            (e : Thrown) (n : ℕ)
            → (ltb n most && is_retryable e) ≡ true
            → (suc n ≤ most) × (is_retryable e ≡ true)
        both e n more = ground arith

-- With m configured attempts (at least one is made), fuel for m + 2 rounds, attempts that come to
-- an end and reports that return, `withRetry` ends in one of two ways. Either attempt number n, at
-- most max(1, m), returned the value that it returns; or attempt number n threw the error that it
-- throws, and that error is permanent or n is max(1, m). In both, every attempt before the n-th
-- was made, threw an error that is not permanent, and was reported as one to retry.
pub with_retry-Ended :
    {N A : Type 0} (host : Host N) (fn : ℕ → Program N A) (on_attempt : AttemptInfo → Program N ⊤)
    (m fuel : ℕ) (base : Limit) (w : World N)
    → m + 2 ≤ fuel
    → ((n : ℕ) → Halts (fn n))
    → ((i : AttemptInfo) (v : World N) → (v' : World N) × (on_attempt i v ≡ (ok tt, v')))
    → Ended host fn on_attempt (max 1 m) base w (
        with_retry host fn on_attempt fuel
          (record { max_attempts = finite m; base_delay_ms = base })
          w)
unfolding with_retry
with_retry-Ended host fn on_attempt m fuel base w enough runs reports =
    retry_from-Ended host fn on_attempt (max 1 m) base w runs reports fuel 1
      (other "retry loop did not execute") w first (omega arith) (omega arith)
