-- ===== src/Retry/Settled.antt =====
-- When a retried call gives up.
use agentic_loop.Prelude.{
  Option, ℕ, ◌≡◌, ◌+◌, none, ◌⊎◌, ◌∙◌, inl, inr, some, arith, suc, ◌-◌, refl,
}
use agentic_loop.Errors.{Error}
use agentic_loop.Prelude.{suc, zero}
use agentic_loop.Retry.Attempts.{attempts_pos}
use agentic_loop.Retry.{
  Answer, RetryAttempt, RetryPolicy, attempts, retry_cause, retry_from, retry_with, decide,
  after_announce, after_sleep, delay,
}

module _ {W : Type 0} (send : W → Answer × W) (announce : RetryAttempt → W → Option Error × W)
    (sleep : ℕ → W → Option Error × W) (policy : RetryPolicy) (sent : W → ℕ)
    (send_counts : (w : W) → sent (send w).1 ≡ sent w + 1)
    (announce_counts : (a : RetryAttempt) (w : W) → sent (announce a w).1 ≡ sent w)
    (sleep_counts : (d : ℕ) (w : W) → sent (sleep d w).1 ≡ sent w)
    (announced : (a : RetryAttempt) (w : W) → (announce a w).0 ≡ none)
    (slept : (d : ℕ) (w : W) → (sleep d w).0 ≡ none) where
  -- The answer is not to be asked for again, or so many sends were made.
  abbrev Settled : ℕ → Answer × W → Type 0
  Settled n (a, w) = (retry_cause a ≡ none) ⊎ (sent w ≡ n)

  abbrev Continues : ℕ → ℕ → (W → Answer × W) → Type 0
  Continues m n again = (v : W) → sent v ≡ m → Settled n (again v)

  after_sleep-Settled :
      (m n : ℕ) (a : Answer) (again : W → Answer × W) (r : Option Error × W)
      → r.0 ≡ none
      → sent r.1 ≡ m
      → Continues m n again
      → Settled n (after_sleep send announce sleep policy a again r)
  after_sleep-Settled m n a again (none, w) e c next = next w c
  after_sleep-Settled m n a again (some x, w) e c next = cc

  after_announce-Settled :
      (m n : ℕ) (a : Answer) (attempt : ℕ) (again : W → Answer × W) (r : Option Error × W)
      → r.0 ≡ none
      → sent r.1 ≡ m
      → Continues m n again
      → Settled n (after_announce send announce sleep policy a attempt again r)
  after_announce-Settled m n (comp, failed) attempt again (none, w) e c next =
      after_sleep-Settled m n (comp, failed) again (sleep (delay policy attempt) w)
        (slept (delay policy attempt) w) (sleep_counts (delay policy attempt) w ∙ c) next
  after_announce-Settled m n (comp, failed) attempt again (some x, w) e c next = cc

  decide-Settled :
      (m n : ℕ) (a : Answer) (attempt : ℕ) (again : W → Answer × W) (o : Option Error) (w : W)
      → retry_cause a ≡ o
      → sent w ≡ m
      → Continues m n again
      → Settled n (decide send announce sleep policy a attempt again o w)
  decide-Settled m n a attempt again none w e c next = inl e
  decide-Settled m n a attempt again (some cause) w e c next =
      let note : RetryAttempt = record {
        attempt = attempt;
        limit = attempts policy;
        delay = delay policy attempt;
        cause = cause;
      } in
      after_announce-Settled m n a attempt again (announce note w) (announced note w)
        (announce_counts note w ∙ c) next

  retry_from-Settled :
      (left attempt n : ℕ) (w : W)
      → n ≡ sent w + left + 1
      → Settled n (retry_from send announce sleep policy left attempt w)
  unfolding retry_from
  retry_from-Settled zero attempt n w e = inr (omega (arith, send_counts w, e))
  retry_from-Settled (suc left) attempt n w e =
      decide-Settled (sent w + 1) n (send w).0 attempt
        (λ v. retry_from send announce sleep policy left (attempt + 1) v) (retry_cause (send w).0)
        (send w).1 refl (send_counts w)
        (λ v c. retry_from-Settled left (attempt + 1) n v (omega (arith, e, c)))

  -- Where announcing and sleeping never fail and send nothing, a retried call ends on an answer
  -- that is not to be asked for again, or after exactly as many sends as the policy allows.
  pub retry_with-Settled :
      (w : W)
      → (retry_cause (retry_with send announce sleep policy w).0 ≡ none)
        ⊎ (sent (retry_with send announce sleep policy w).1 ≡ sent w + attempts policy)
  unfolding retry_with attempts
  retry_with-Settled w =
      retry_from-Settled (attempts policy - 1) 1 (sent w + attempts policy) w
        (omega (arith, attempts_pos policy.max_attempts))
