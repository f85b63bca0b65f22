-- ===== src/Retry/Attempts.antt =====
-- How often a retried call is sent, and what is never sent again.
use agentic_loop.Prelude.{ℕ, Option, ◌≡◌, ◌+◌, ◌≤◌, arith, suc, zero, none, some, ◌-◌, ◌∙◌}
use agentic_loop.Prelude.Int.{ℤ, pos, negsuc}
use agentic_loop.Errors.{Error}
use agentic_loop.Retry.{
  Answer, RetryAttempt, RetryPolicy, attempts, retry_cause, retry_from, retry_with, decide,
  after_announce, after_sleep, or_default, delay,
}

-- A policy allows at least one attempt.
pub attempts_pos : (z : ℤ) → 1 ≤ or_default z 10
attempts_pos (pos zero) = omega arith
attempts_pos (pos (suc n)) = omega arith
attempts_pos (negsuc n) = omega arith

module _ {W : Type 0} (send : W → Answer × W) (announce : RetryAttempt → W → Option Error × W)
    (sleep : ℕ → W → Option Error × W) (policy : RetryPolicy) (sent : W → ℕ)
    (send_counts : (w : W) → sent (send w).1 ≡ sent w + 1)
    (announce_counts : (a : RetryAttempt) (w : W) → sent (announce a w).1 ≡ sent w)
    (sleep_counts : (d : ℕ) (w : W) → sent (sleep d w).1 ≡ sent w) where
  -- `m` sends were made before, and from 1 to `left + 2` since then.
  abbrev SoFar : ℕ → ℕ → W → Type 0
  SoFar m left w = (m + 1 ≤ sent w) × (sent w ≤ m + left + 2)

  abbrev Continues : ℕ → ℕ → (W → Answer × W) → Type 0
  Continues m left again = (w : W) → sent w ≡ m + 1 → SoFar m left (again w).1

  after_sleep-SoFar :
      (m left : ℕ) (a : Answer) (again : W → Answer × W) (r : Option Error × W)
      → Continues m left again
      → sent r.1 ≡ m + 1
      → SoFar m left (after_sleep send announce sleep policy a again r).1
  after_sleep-SoFar m left a again (none, w) next e = next w e
  after_sleep-SoFar m left a again (some x, w) next e = omega arith

  after_announce-SoFar :
      (m left : ℕ) (a : Answer) (attempt : ℕ) (again : W → Answer × W) (r : Option Error × W)
      → Continues m left again
      → sent r.1 ≡ m + 1
      → SoFar m left (after_announce send announce sleep policy a attempt again r).1
  after_announce-SoFar m left (comp, failed) attempt again (none, w) next e =
      after_sleep-SoFar m left (comp, failed) again (sleep (delay policy attempt) w) next
        (sleep_counts (delay policy attempt) w ∙ e)
  after_announce-SoFar m left (comp, failed) attempt again (some x, w) next e = omega arith

  decide-SoFar :
      (m left : ℕ) (a : Answer) (attempt : ℕ) (again : W → Answer × W) (o : Option Error) (w : W)
      → Continues m left again
      → sent w ≡ m + 1
      → SoFar m left (decide send announce sleep policy a attempt again o w).1
  decide-SoFar m left a attempt again none w next e = omega arith
  decide-SoFar m left a attempt again (some cause) w next e =
      let r =
        announce
          (record {
            attempt = attempt;
            limit = attempts policy;
            delay = delay policy attempt;
            cause = cause;
          })
          w in
      after_announce-SoFar m left a attempt again r next (announce_counts _ w ∙ e)

  retry_from-sends :
      (left attempt : ℕ) (w : W)
      → (sent w + 1 ≤ sent (retry_from send announce sleep policy left attempt w).1)
        × (sent (retry_from send announce sleep policy left attempt w).1 ≤ sent w + left + 1)
  unfolding retry_from
  retry_from-sends zero attempt w = omega (arith, send_counts w)
  retry_from-sends (suc left) attempt w =
      let (low, high) =
        decide-SoFar (sent w) left (send w).0 attempt
          (λ v. retry_from send announce sleep policy left (attempt + 1) v) (retry_cause (send w).0)
          (send w).1
          (λ v e.
            let (lo, hi) = retry_from-sends left (attempt + 1) v in
            (omega (arith, lo, e), omega (arith, hi, e)))
          (send_counts w) in
      (low, omega (arith, high))

  -- A retried call is sent at least once and at most as often as the policy allows, where each
  -- send counts as one and announcing and sleeping send nothing.
  pub retry_with-attempts :
      (w : W)
      → (sent w + 1 ≤ sent (retry_with send announce sleep policy w).1)
        × (sent (retry_with send announce sleep policy w).1 ≤ sent w + attempts policy)
  unfolding retry_with attempts
  retry_with-attempts w =
      let (low, high) = retry_from-sends (attempts policy - 1) 1 w in
      (low, omega (arith, high, attempts_pos policy.max_attempts))
